-- ===== src/Status/Label.antt =====
-- internal/status/status.go: `quote` against a reader of the text format of Prometheus.
use gh_proxy.Base.{
  ℕ, Bool, true, false, Option, none, some, [], ◌∷◌, ◌++◌, ◌≡◌, inl, inr, refl, ap, ◌∙◌, arith,
  if◌then◌else◌, Bool-cases, Bytes, codes, append_assoc, ◌==◌,
}
use mathlib.Core.Option
use gh_proxy.Status.Text.{escaped_byte, escape_label, quote}

-- What a byte behind a backslash stands for.
abbrev pub unescaped : ℕ → Option ℕ
unescaped c =
    if c == b'\\'
    then some b'\\'
    else if c == b'"'
    then some b'"'
    else if c == b'n'
    then some b'\n'
    else none

abbrev pub then_byte : Option ℕ → Option (Bytes × Bytes) → Option (Bytes × Bytes)
then_byte none r = none
then_byte (some c) r = Option.map (λ p. (c ∷ p.0, p.1)) r

-- The rest of a label's value up to its closing quote, and what follows it; `escaped` says that a
-- backslash came before. A value has no line feed, and no other escapes than these three.
unfoldable pub read_value : Bool → Bytes → Option (Bytes × Bytes)
read_value escaped [] = none
read_value true (c ∷ s) = let rest = read_value false s in then_byte (unescaped c) rest
read_value false (c ∷ s) =
    let rest = read_value false s in
    let behind = read_value true s in
    if c == b'"'
    then some ([], s)
    else if c == b'\\'
    then behind
    else if c == b'\n'
    then none
    else then_byte (some c) rest

-- A label's value in its quotes
abbrev pub read_label : Bytes → Option (Bytes × Bytes)
read_label [] = none
read_label (c ∷ s) = if c == b'"' then read_value false s else none

is_byte : (c n : ℕ) → (c == n) ≡ true → n ≡ c
is_byte c n h = ground (arith, h)

read_value-escaped_byte :
    (c : ℕ) (s : Bytes)
    → read_value false (escaped_byte c ++ s) ≡ then_byte (some c) (read_value false s)
unfolding read_value
read_value-escaped_byte c s = elim (Bool-cases (c == b'\\')) [
  | inl e ↦ rw e (ap (λ x. then_byte (some x) (read_value false s)) (is_byte c b'\\' e))
  | inr e ↦ elim (Bool-cases (c == b'"')) [
    | inl f ↦ rw (e, f) (ap (λ x. then_byte (some x) (read_value false s)) (is_byte c b'"' f))
    | inr f ↦ elim (Bool-cases (c == b'\n')) [
      | inl g ↦ rw (e, f, g) (ap (λ x. then_byte (some x) (read_value false s)) (is_byte c b'\n' g))
      | inr g ↦ rw (e, f, g) (rw (e, f, g) refl)
    ]
  ]
]

read_value-escape_label :
    (v rest : Bytes) → read_value false (escape_label v ++ (b'"' ∷ rest)) ≡ some (v, rest)
unfolding escape_label read_value
read_value-escape_label [] rest = refl
read_value-escape_label (c ∷ v) rest =
    ap (read_value false) (append_assoc (escaped_byte c) (escape_label v) (b'"' ∷ rest))
    ∙ read_value-escaped_byte c (escape_label v ++ (b'"' ∷ rest))
    ∙ ap (then_byte (some c)) (read_value-escape_label v rest)

-- A value that `quote` writes is read back, whatever it holds, and so is what follows it: no name
-- that a request brings can end its label or its line.
pub quote-read_label : (v rest : Bytes) → read_label (quote v ++ rest) ≡ some (v, rest)
unfolding quote
quote-read_label v rest =
    ap (read_value false) (append_assoc (escape_label v) (codes "\"") rest)
    ∙ read_value-escape_label v rest
