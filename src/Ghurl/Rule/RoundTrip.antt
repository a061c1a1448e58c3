-- ===== src/Ghurl/Rule/RoundTrip.antt =====
-- internal/ghurl/rule.go: a rule list is read back from its own print.
use gh_proxy.Base.{
  ℕ, false, List, [], ◌∷◌, ◌++◌, ◌≡◌, refl, arith, Bytes, map, append-nil, append_assoc, All, Lacks,
  All-append, All-mono, ap, ◌∙◌, sym,
}
use gh_proxy.GoLib.Strings.{fields_func, contains_byte}
use gh_proxy.GoLib.Strings.Cut.{cut-append, cut-Lacks}
use gh_proxy.GoLib.Strings.Fields.{split_whole, fields_func-join, All-join, IsField}
use gh_proxy.Ghurl.Rule.{
  Rule, ok, ◌>>=◌, rule_string, rules_string, parse_field, parse_fields, parse_lines, parse_rules,
  is_separator,
}
use gh_proxy.Ghurl.Rule.WellFormed.{InLine, IsRule, parse_rules-IsRule}

Lacks-contains_byte : (b : ℕ) (s : Bytes) → Lacks b s → contains_byte b s ≡ false
Lacks-contains_byte b [] h = refl
Lacks-contains_byte b (c ∷ s) (ne, h) = ground (arith, Lacks-contains_byte b s h)

parse_field-rule_string :
    (o r : Bytes)
    → IsRule (record { owner = o; repo = r })
    → parse_field (rule_string (record { owner = o; repo = r }))
      ≡ ok (record { owner = o; repo = r })
unfolding parse_field rule_string
parse_field-rule_string [] r g = absurd (g.owner_nonempty refl)
parse_field-rule_string (c ∷ o) [] g = rw (cut-Lacks b'/' (c ∷ o) g.owner_segment) refl
parse_field-rule_string (c ∷ o) (d ∷ r) g =
    rw (cut-append b'/' (c ∷ o) (d ∷ r) g.owner_segment)
      (rw (Lacks-contains_byte b'/' (d ∷ r) g.repo_segment))

rule_string-IsField :
    (o r : Bytes)
    → IsRule (record { owner = o; repo = r })
    → IsField is_separator InLine (rule_string (record { owner = o; repo = r }))
unfolding rule_string
rule_string-IsField [] r g = absurd (g.owner_nonempty refl)
rule_string-IsField (c ∷ o) [] g = (λ e. cc, g.owner_word)
rule_string-IsField (c ∷ o) (d ∷ r) g = (
  λ e. cc,
  All-append _ (c ∷ o) (b'/' ∷ (d ∷ r)) g.owner_word ((refl, (omega arith)), g.repo_word),
)

rule_strings-IsField :
    (rs : List Rule) → All IsRule rs → All (IsField is_separator InLine) (map rule_string rs)
rule_strings-IsField [] h = tt
rule_strings-IsField (r ∷ rs) (g, h) =
    (rule_string-IsField r.owner r.repo g, rule_strings-IsField rs h)

parse_fields-rule_string :
    (rs out : List Rule) → All IsRule rs → parse_fields (map rule_string rs) out ≡ ok (out ++ rs)
unfolding parse_fields
parse_fields-rule_string [] out h = ap ok (sym (append-nil out))
parse_fields-rule_string (r ∷ rs) out (g, h) =
    rw (parse_field-rule_string r.owner r.repo g)
      (parse_fields-rule_string rs (out ++ r ∷ []) h ∙ ap ok (append_assoc out (r ∷ []) rs))

rules_string-InLine : (rs : List Rule) → All IsRule rs → All InLine (rules_string rs)
unfolding rules_string
rules_string-InLine rs h = All-join InLine b',' (map rule_string rs) (omega arith) (
    All-mono _ _ (map rule_string rs) (λ f k. All-mono _ _ f (λ c p. p.1) k.1)
      (rule_strings-IsField rs h))

-- A list of well-formed rules is read back from its print.
pub parse_rules-rules_string :
    (rs : List Rule) → All IsRule rs → parse_rules (rules_string rs) ≡ ok rs
unfolding parse_rules parse_lines rules_string
parse_rules-rules_string rs h =
    let line : Bytes = rules_string rs in
    let in_line = rules_string-InLine rs h in
    ap (λ ls. parse_lines ls []) (split_whole b'\n' line (All-mono _ _ line (λ c p. p.0) in_line))
    ∙ ap (λ x. parse_fields (fields_func is_separator x) [] >>= parse_lines [])
        (ap (λ x. x.0) (cut-Lacks b'#' line (All-mono _ _ line (λ c p. p.1) in_line)))
    ∙ ap (λ fs. parse_fields fs [] >>= parse_lines [])
        (fields_func-join is_separator InLine b',' (map rule_string rs) refl
          (rule_strings-IsField rs h))
    ∙ ap (λ r. r >>= parse_lines []) (parse_fields-rule_string rs [] h)

-- Whatever `ParseRules` accepts is printed to a text with the same rules.
pub parse_rules-reparse :
    (s : Bytes) {rs : List Rule}
    → parse_rules s ≡ ok rs
    → parse_rules (rules_string rs) ≡ parse_rules s
parse_rules-reparse s {rs} h = parse_rules-rules_string rs (parse_rules-IsRule s h) ∙ sym h
