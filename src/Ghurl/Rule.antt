-- ===== src/Ghurl/Rule.antt =====
-- internal/ghurl/rule.go: the entries of an allow or deny list.
pub mod WellFormed
pub mod RoundTrip
use gh_proxy.Base.{
  ℕ, Bool, true, false, not, ◌&&◌, ◌||◌, List, [], ◌∷◌, ◌++◌, ◌≡◌, ◌==◌, if◌then◌else◌, Bytes,
  codes, map, any, same, is_empty,
}
use gh_proxy.GoLib.Strings.{Unicode, equal_fold, cut, split, fields_func, contains_byte, join}

pub record Rule : Type 0 where
  pub owner : Bytes
  pub repo : Bytes

-- The two errors of `ParseRules`, with the field that they quote.
pub data RuleError : Type 0 where
  empty_owner : Bytes → RuleError
  too_many_segments : Bytes → RuleError

pub data Parsed {ℓ} (A : Type ℓ) : Type ℓ where
  ok : A → Parsed A
  err : RuleError → Parsed A

-- The parser stops at its first error.
infixl 5 ◌>>=◌
abbrev pub ◌>>=◌ {κ ℓ} : {V : Type ℓ} {Z : Type κ} → Parsed V → (V → Parsed Z) → Parsed Z
err why >>= next = err why
ok value >>= next = next value

-- `Rule.String`
unfoldable pub rule_string : Rule → Bytes
rule_string r = if is_empty r.repo then r.owner else r.owner ++ (b'/' ∷ r.repo)

-- `Rule.Match`
unfoldable pub rule_match : ⦃c : Unicode⦄ → Rule → Bytes → Bytes → Bool
unfolding equal_fold same
rule_match r owner repo =
    if not (same r.owner (codes "*")) && not (equal_fold r.owner owner)
    then false
    else if is_empty r.repo
    then true
    else equal_fold r.repo repo

-- `RuleSet.Match`
unfoldable pub rules_match : ⦃c : Unicode⦄ → List Rule → Bytes → Bytes → Bool
unfolding rule_match
rules_match [] owner repo = false
rules_match (r ∷ rs) owner repo =
    let rest = rules_match rs owner repo in if rule_match r owner repo then true else rest

-- `RuleSet.String`
unfoldable pub rules_string : List Rule → Bytes
unfolding rule_string join
rules_string rs = join (codes ",") (map rule_string rs)

abbrev pub is_separator : ℕ → Bool
is_separator c = c == b',' || (c == b' ' || (c == b'\t' || c == b'\r'))

-- One field of a line.
unfoldable pub parse_field : Bytes → Parsed Rule
unfolding cut
parse_field field =
    let (owner, repo, _) = cut b'/' field in
    if is_empty owner
    then err (empty_owner field)
    else if contains_byte b'/' repo
    then err (too_many_segments field)
    else ok (record { owner = owner; repo = repo })

-- The inner loop: `out` holds the rules so far.
unfoldable pub parse_fields : List Bytes → List Rule → Parsed (List Rule)
unfolding parse_field
parse_fields [] out = ok out
parse_fields (f ∷ fs) out = do r ← parse_field f; parse_fields fs (out ++ r ∷ [])

-- What is left of a line before its comment.
abbrev pub uncomment : Bytes → Bytes
uncomment line = (cut b'#' line).0

-- The outer loop.
unfoldable pub parse_lines : List Bytes → List Rule → Parsed (List Rule)
unfolding cut fields_func parse_fields
parse_lines [] out = ok out
parse_lines (l ∷ ls) out = do
  out' ← parse_fields (fields_func is_separator (uncomment l)) out
  parse_lines ls out'

-- `ParseRules`
unfoldable pub parse_rules : Bytes → Parsed (List Rule)
unfolding split parse_lines
parse_rules s = parse_lines (split b'\n' s) []
