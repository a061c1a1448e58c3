-- ===== src/Status/Text.antt =====
-- internal/status/status.go: the pieces of the text that Prometheus reads.
use gh_proxy.Base.{ℕ, [], ◌∷◌, ◌++◌, ◌==◌, if◌then◌else◌, Bytes, codes}
use gh_proxy.GoLib.Strconv.{decimal}
use gh_proxy.Metrics.{Counts}

-- `metric`
unfoldable pub metric : Bytes → Bytes → Bytes → Bytes
metric name type help =
    codes "# HELP "
    ++ (name
        ++ (codes " "
            ++ (help ++ (codes "\n# TYPE " ++ (name ++ (codes " " ++ (type ++ codes "\n")))))))

-- `simple`, with its value as text
unfoldable pub simple : Bytes → Bytes → Bytes → Bytes → Bytes
unfolding metric
simple name type help v = metric name type help ++ (name ++ (codes " " ++ (v ++ codes "\n")))

abbrev pub escaped_byte : ℕ → Bytes
escaped_byte c =
    if c == b'\\'
    then codes "\\\\"
    else if c == b'"'
    then codes "\\\""
    else if c == b'\n'
    then codes "\\n"
    else c ∷ []

-- The replacer of `quote`
unfoldable pub escape_label : Bytes → Bytes
escape_label [] = []
escape_label (c ∷ s) = escaped_byte c ++ escape_label s

unfoldable pub quote : Bytes → Bytes
unfolding escape_label
quote v = codes "\"" ++ (escape_label v ++ codes "\"")

-- One loop of `writeProm`: a line for each name of a table.
unfoldable pub lines_of : Bytes → Bytes → Counts → Bytes
unfolding quote decimal
lines_of name label [] = []
lines_of name label ((k, n) ∷ ps) =
    (name
      ++ (codes "{"
          ++ (label ++ (codes "=" ++ (quote k ++ (codes "} " ++ (decimal n ++ codes "\n")))))))
    ++ lines_of name label ps
