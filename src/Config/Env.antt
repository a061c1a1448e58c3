-- ===== src/Config/Env.antt =====
-- internal/config/config.go: the readers of single variables. What the process is given, its
-- environment and its files, is the instance `Environment`, with the parser of durations, which
-- computes with floats.
pub mod Size
use gh_proxy.Base.{
  ℕ, ◌-◌, ◌*◌, ◌%◌, ◌^◌, Bool, true, false, Option, none, some, List, [], ◌∷◌, ◌++◌, ltb,
  if◌then◌else◌, Bytes, codes, is_empty, ℤ, pos, negsuc,
}
use mathlib.Core.Option
use gh_proxy.GoLib.Strings.{Unicode, trim_space, to_upper, has_suffix, trim_suffix}
use gh_proxy.GoLib.Strconv.{i63, parse_int, parse_bool}
use gh_proxy.Ghurl.Rule.{Rule, ok, err, parse_rules}
use gh_proxy.Config.Normalize.{
  Setting, set_to, refused, unreadable_file, not_a_number, negative, bad_rules,
}

-- `os.LookupEnv`, `os.ReadFile` and `time.ParseDuration`, with `none` for "not set" and an error
pub record Environment : Type 0 where
  pub lookup : Bytes → Option Bytes
  pub read_file : Bytes → Option Bytes
  pub parse_duration : Bytes → Option ℤ

module _ ⦃e : Environment⦄ where
  -- `os.Getenv`
  abbrev pub getenv : Bytes → Bytes
  getenv key = Option.get_or (e.lookup key) []

  unfoldable pub env : Bytes → Bytes → Bytes
  env key def = elim (e.lookup key) [ none ↦ def | some v ↦ if is_empty v then def else v ]

  unfoldable pub secret : ⦃c : Unicode⦄ → Bytes → Setting Bytes
  unfolding trim_space
  secret key =
      let path = getenv (key ++ codes "_FILE") in
      if is_empty path then set_to (trim_space (getenv key)) else elim (e.read_file path) [
        | none ↦ refused (unreadable_file key)
        | some b ↦ set_to (trim_space b)
      ]

  -- `envBool`
  unfoldable pub env_bool : ⦃c : Unicode⦄ → Bytes → Bool → Bool
  unfolding trim_space parse_bool
  env_bool key def =
      let v = trim_space (getenv key) in
      if is_empty v then def else Option.get_or (parse_bool v) def

  -- `envInt`
  unfoldable pub env_int : ⦃c : Unicode⦄ → Bytes → ℤ → Setting ℤ
  unfolding trim_space parse_int
  env_int key def =
      let v = trim_space (getenv key) in
      if is_empty v
      then set_to def
      else elim (parse_int v) [ none ↦ refused (not_a_number key) | some n ↦ set_to n ]

  -- `envDuration`
  unfoldable pub env_duration : ⦃c : Unicode⦄ → Bytes → ℤ → ℤ
  unfolding trim_space
  env_duration key def =
      let v = trim_space (getenv key) in
      if is_empty v then def else Option.get_or (e.parse_duration v) def

-- The units of a size, in the order in which they are tried.
abbrev pub units : List (Bytes × ℕ)
units =
    (codes "GB", 2 ^ 30)
    ∷ ((codes "MB", 2 ^ 20)
        ∷ ((codes "KB", 2 ^ 10)
            ∷ ((codes "G", 2 ^ 30)
                ∷ ((codes "M", 2 ^ 20) ∷ ((codes "K", 2 ^ 10) ∷ ((codes "B", 1) ∷ []))))))

-- The loop over the units: the text without its unit, and the unit.
unfoldable pub cut_unit : List (Bytes × ℕ) → Bytes → Bytes × ℕ
unfolding has_suffix trim_suffix
cut_unit [] v = (v, 1)
cut_unit ((s, m) ∷ us) v =
    let rest = cut_unit us v in if has_suffix v s then (trim_suffix v s, m) else rest

-- A product on int64, which wraps around
unfoldable pub wrap64 : ℕ → ℤ
wrap64 x = let m = x % 2 ^ 64 in if ltb m i63 then pos m else negsuc (2 ^ 64 - 1 - m)

unfoldable pub scale : Bytes → ℤ → ℕ → Setting ℤ
unfolding wrap64
scale key (pos n) m = set_to (wrap64 (n * m))
scale key (negsuc n) m = refused (negative key)

-- `envBytes` on a text without spaces around it
unfoldable pub size_of : ⦃c : Unicode⦄ → Bytes → Bytes → Setting ℤ
unfolding trim_space cut_unit parse_int scale
size_of key v =
    let (digits, m) = cut_unit units v in
    elim (parse_int (trim_space digits)) [
      | none ↦ refused (not_a_number key)
      | some n ↦ scale key n m
    ]

-- `envBytes`
unfoldable pub env_bytes : ⦃c : Unicode⦄ → ⦃e : Environment⦄ → Bytes → ℤ → Setting ℤ
unfolding trim_space to_upper size_of
env_bytes key def =
    let v = trim_space (to_upper (getenv key)) in if is_empty v then set_to def else size_of key v

-- `rules`
unfoldable pub rules : ⦃e : Environment⦄ → Bytes → Setting (List Rule)
unfolding parse_rules
rules key = elim (parse_rules (getenv key)) [ ok rs ↦ set_to rs | err x ↦ refused (bad_rules key) ]
