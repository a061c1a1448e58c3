-- ===== src/GoLib/Strings.antt =====
-- Go's `strings` on byte lists. A case table or a white-space table of Unicode is consulted only
-- for a text that holds a byte of 0x80 or more; that part of the library is the instance `Unicode`.
pub mod Cut
pub mod CutAt
pub mod Fields
use gh_proxy.Base.{
  ℕ, ◌+◌, ◌-◌, ◌<◌, Bool, true, false, not, ◌&&◌, ◌||◌, Option, none, some, List, [], ◌∷◌, ◌++◌,
  map, leb, ltb, ◌==◌, within, if◌then◌else◌, Bytes, codes, any, all, same, is_empty,
}
use mathlib.Core.Option
use mathlib.Core.List.{reverse}

-- `strings` on texts with bytes beyond ASCII.
pub record Unicode : Type 0 where
  pub lower : Bytes → Bytes
  pub upper : Bytes → Bytes
  pub fold : Bytes → Bytes → Bool
  pub trim : Bytes → Bytes

abbrev pub is_ascii : Bytes → Bool
is_ascii = all (λ c. ltb c 128)

unfoldable pub lower_byte : ℕ → ℕ
lower_byte c = if within b'A' b'Z' c then c + 32 else c

unfoldable pub upper_byte : ℕ → ℕ
upper_byte c = if within b'a' b'z' c then c - 32 else c

-- `strings.ToLower`
unfoldable pub to_lower : ⦃u : Unicode⦄ → Bytes → Bytes
unfolding lower_byte
to_lower ⦃u⦄ s = if is_ascii s then map lower_byte s else u.lower s

-- `strings.ToUpper`
unfoldable pub to_upper : ⦃u : Unicode⦄ → Bytes → Bytes
unfolding upper_byte
to_upper ⦃u⦄ s = if is_ascii s then map upper_byte s else u.upper s

-- `strings.EqualFold`
unfoldable pub equal_fold : ⦃u : Unicode⦄ → Bytes → Bytes → Bool
unfolding lower_byte same
equal_fold ⦃u⦄ s t =
    if is_ascii s && is_ascii t then same (map lower_byte s) (map lower_byte t) else u.fold s t

-- The white space of ASCII: `\t \n \v \f \r` and the space.
abbrev pub is_space : ℕ → Bool
is_space c = within 9 13 c || c == b' '

unfoldable pub trim_left : (ℕ → Bool) → Bytes → Bytes
trim_left p [] = []
trim_left p (c ∷ s) = elim (p c) [ true ↦ trim_left p s | false ↦ c ∷ s ]

unfoldable pub trim_right : (ℕ → Bool) → Bytes → Bytes
trim_right p [] = []
trim_right p (c ∷ s) = let rest = trim_right p s in if p c && is_empty rest then [] else c ∷ rest

abbrev pub trim_func : (ℕ → Bool) → Bytes → Bytes
trim_func p s = trim_right p (trim_left p s)

-- `strings.TrimSpace`
unfoldable pub trim_space : ⦃u : Unicode⦄ → Bytes → Bytes
unfolding trim_left trim_right
trim_space ⦃u⦄ s = if is_ascii s then trim_func is_space s else u.trim s

-- `strings.CutPrefix`, with `none` for "not found"
unfoldable pub cut_prefix : Bytes → Bytes → Option Bytes
cut_prefix s [] = some s
cut_prefix [] (d ∷ p) = none
cut_prefix (c ∷ s) (d ∷ p) = elim (c == d) [ true ↦ cut_prefix s p | false ↦ none ]

unfoldable pub has_prefix : Bytes → Bytes → Bool
unfolding cut_prefix
has_prefix s p = elim (cut_prefix s p) [ none ↦ false | some r ↦ true ]

-- `strings.TrimPrefix`
unfoldable pub trim_prefix : Bytes → Bytes → Bytes
unfolding cut_prefix
trim_prefix s p = Option.get_or (cut_prefix s p) s

-- `strings.CutSuffix`, with `none` for "not found"
unfoldable pub cut_suffix : Bytes → Bytes → Option Bytes
unfolding same
cut_suffix [] t = if same [] t then some [] else none
cut_suffix (c ∷ s) t =
    let rest = cut_suffix s t in if same (c ∷ s) t then some [] else Option.map (λ b. c ∷ b) rest

unfoldable pub has_suffix : Bytes → Bytes → Bool
unfolding cut_suffix
has_suffix s t = elim (cut_suffix s t) [ none ↦ false | some r ↦ true ]

-- `strings.TrimSuffix`
unfoldable pub trim_suffix : Bytes → Bytes → Bytes
unfolding cut_suffix
trim_suffix s t = Option.get_or (cut_suffix s t) s

-- `strings.Cut` at one byte: before, after, found
unfoldable pub cut : ℕ → Bytes → Bytes × Bytes × Bool
cut sep [] = ([], [], false)
cut sep (c ∷ s) =
    let rest = cut sep s in if c == sep then ([], s, true) else (c ∷ rest.0, rest.1, rest.2)

-- `strings.Cut` at a substring, with `none` for "not found"
unfoldable pub cut_at : Bytes → Bytes → Option (Bytes × Bytes)
unfolding cut_prefix
cut_at sep [] = elim (cut_prefix [] sep) [ none ↦ none | some after ↦ some ([], after) ]
cut_at sep (c ∷ s) =
    let rest = cut_at sep s in
    elim (cut_prefix (c ∷ s) sep) [
      | none ↦ Option.map (λ r. (c ∷ r.0, r.1)) rest
      | some after ↦ some ([], after)
    ]

abbrev pub contains_byte : ℕ → Bytes → Bool
contains_byte b = any (λ c. c == b)

-- `strings.ContainsAny` with an ASCII set
abbrev pub contains_any : Bytes → Bytes → Bool
contains_any s set = any (λ c. contains_byte c set) s

-- `strings.Contains`
unfoldable pub contains : Bytes → Bytes → Bool
unfolding cut_at
contains s t = elim (cut_at t s) [ none ↦ false | some r ↦ true ]

-- `strings.LastIndex` of one byte: what stands before the last occurrence, and behind it
unfoldable pub cut_last : ℕ → Bytes → Option (Bytes × Bytes)
cut_last sep [] = none
cut_last sep (c ∷ s) =
    let rest = cut_last sep s in
    elim rest [ none ↦ if c == sep then some ([], s) else none | some r ↦ some (c ∷ r.0, r.1) ]

-- The loop of `strings.FieldsFunc`: `field` is the field that is being read, reversed.
unfoldable pub fields_loop : (ℕ → Bool) → Bytes → Bytes → List Bytes
fields_loop sep [] [] = []
fields_loop sep [] (f ∷ field) = reverse (f ∷ field) ∷ []
fields_loop sep (c ∷ s) field =
    let next = fields_loop sep s [] in
    let longer = fields_loop sep s (c ∷ field) in
    if sep c then (if is_empty field then next else reverse field ∷ next) else longer

-- `strings.FieldsFunc` for a separator among the ASCII bytes
unfoldable pub fields_func : (ℕ → Bool) → Bytes → List Bytes
unfolding fields_loop
fields_func sep s = fields_loop sep s []

-- `strings.Split` at one byte: the first part, and those behind it
unfoldable pub split_parts : ℕ → Bytes → Bytes × List Bytes
split_parts sep [] = ([], [])
split_parts sep (c ∷ s) =
    let rest = split_parts sep s in if c == sep then ([], rest.0 ∷ rest.1) else (c ∷ rest.0, rest.1)

unfoldable pub split : ℕ → Bytes → List Bytes
unfolding split_parts
split sep s = let parts = split_parts sep s in parts.0 ∷ parts.1

-- `strings.Join`
unfoldable pub join : Bytes → List Bytes → Bytes
join sep [] = []
join sep (p ∷ []) = p
join sep (p ∷ (q ∷ ps)) = p ++ (sep ++ join sep (q ∷ ps))
