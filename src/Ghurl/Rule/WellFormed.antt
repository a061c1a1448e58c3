-- ===== src/Ghurl/Rule/WellFormed.antt =====
-- internal/ghurl/rule.go: every rule that `ParseRules` returns is well formed.
use gh_proxy.Base.{
  ℕ, Bool, true, false, List, [], ◌∷◌, ◌++◌, ◌≡◌, ◌≢◌, refl, arith, if◌then◌else◌, Bytes, is_empty,
  All, Lacks, Bool-cases, inl, inr, All-append, All-zip,
}
use gh_proxy.GoLib.Strings.{cut, split, fields_func, contains_byte}
use gh_proxy.GoLib.Strings.Cut.{IsCut, cut-IsCut}
use gh_proxy.GoLib.Strings.Fields.{
  All-cut, All-cut_after, split-Lacks, InField, IsField, fields_func-IsField,
}
use gh_proxy.Ghurl.Rule.{
  Rule, Parsed, ok, err, ◌>>=◌, parse_field, parse_fields, parse_lines, parse_rules, is_separator,
  uncomment, empty_owner, too_many_segments,
}

-- A byte that a field can hold: no separator, no line end, no comment sign.
abbrev pub InLine : ℕ → Type 0
InLine c = (c ≢ b'\n') × (c ≢ b'#')

abbrev pub IsWord : Bytes → Type 0
IsWord = All (InField is_separator InLine)

-- A rule with an owner, and at most one slash when it is written.
pub record IsRule (r : Rule) : Type 0 where
  pub owner_nonempty : r.owner ≢ []
  pub owner_word : IsWord r.owner
  pub owner_segment : Lacks b'/' r.owner
  pub repo_word : IsWord r.repo
  pub repo_segment : Lacks b'/' r.repo

module _ {ℓ κ} {V : Type ℓ} {Z : Type κ} {z : Z} where
  >>=-eq-ok :
      (p : Parsed V) (next : V → Parsed Z)
      → (p >>= next) ≡ ok z
      → (v : V) × (p ≡ ok v) × (next v ≡ ok z)
  >>=-eq-ok (err why) next e = cc
  >>=-eq-ok (ok v) next e = (v, refl, e)

contains_byte-Lacks : (b : ℕ) (s : Bytes) → contains_byte b s ≡ false → Lacks b s
contains_byte-Lacks b [] h = tt
contains_byte-Lacks b (c ∷ s) h = (ground arith, contains_byte-Lacks b s (ground arith))

IsCut-before : (b : ℕ) (s : Bytes) (p : Bytes × Bytes × Bool) → IsCut b s p → Lacks b p.0
IsCut-before b s (x, a, true) k = k.1
IsCut-before b s (x, a, false) k = k.2

ok_inj {ℓ} : {A : Type ℓ} {a b : A} → ok a ≡ ok b → a ≡ b
ok_inj e = cc

-- What `parseField` accepts, from the parts of the cut.
field_rule :
    (f owner repo : Bytes) {r : Rule}
    → (if is_empty owner
        then err (empty_owner f)
        else if contains_byte b'/' repo
        then err (too_many_segments f)
        else ok (record { owner = owner; repo = repo }))
      ≡ ok r
    → (owner ≢ []) × Lacks b'/' repo × (record { owner = owner; repo = repo } ≡ r)
field_rule f [] repo h = cc
field_rule f (c ∷ owner) repo h = elim (Bool-cases (contains_byte b'/' repo)) [
  | inl e ↦ absurd (ground arith)
  | inr e ↦ (λ z. ground arith, contains_byte-Lacks b'/' repo e, ground arith)
]

parse_field_sound : (f : Bytes) {r : Rule} → IsWord f → parse_field f ≡ ok r → IsRule r
unfolding parse_field
parse_field_sound f {r} word h =
    let (ne, segment, made) = field_rule f (cut b'/' f).0 (cut b'/' f).1 h in
    rw (← made) (record {
      owner_nonempty = ne;
      owner_word = All-cut _ b'/' f word;
      owner_segment = IsCut-before b'/' f (cut b'/' f) (cut-IsCut b'/' f);
      repo_word = All-cut_after _ b'/' f word;
      repo_segment = segment;
    })

parse_fields_sound :
    (fs : List Bytes) (out : List Rule) {rs : List Rule}
    → All (IsField is_separator InLine) fs
    → All IsRule out
    → parse_fields fs out ≡ ok rs
    → All IsRule rs
unfolding parse_fields
parse_fields_sound [] out _ good h = rw (← ok_inj h) good
parse_fields_sound (f ∷ fs) out ((_, word), k) good h =
    let (r, parsed, rest) = >>=-eq-ok (parse_field f) (λ r. parse_fields fs (out ++ r ∷ [])) h in
    parse_fields_sound fs (out ++ r ∷ []) k
      (All-append IsRule out (r ∷ []) good (parse_field_sound f word parsed, tt)) rest

uncomment-InLine : (line : Bytes) → Lacks b'\n' line → All InLine (uncomment line)
uncomment-InLine line h =
    All-zip _ _ (uncomment line) (All-cut _ b'#' line h)
      (IsCut-before b'#' line (cut b'#' line) (cut-IsCut b'#' line))

parse_lines_sound :
    (ls : List Bytes) (out : List Rule) {rs : List Rule}
    → All (Lacks b'\n') ls
    → All IsRule out
    → parse_lines ls out ≡ ok rs
    → All IsRule rs
unfolding parse_lines
parse_lines_sound [] out _ good h = rw (← ok_inj h) good
parse_lines_sound (l ∷ ls) out (k, ks) good h =
    let fields = fields_func is_separator (uncomment l) in
    let (out', parsed, rest) = >>=-eq-ok (parse_fields fields out) (parse_lines ls) h in
    parse_lines_sound ls out' ks
      (parse_fields_sound fields out
        (fields_func-IsField is_separator InLine _ (uncomment-InLine l k)) good parsed)
      rest

-- Every rule that `ParseRules` returns has an owner, no slash in either half, and no byte that the
-- list's own syntax uses.
pub parse_rules-IsRule : (s : Bytes) {rs : List Rule} → parse_rules s ≡ ok rs → All IsRule rs
unfolding parse_rules
parse_rules-IsRule s h = parse_lines_sound (split b'\n' s) [] (split-Lacks b'\n' s) tt h
