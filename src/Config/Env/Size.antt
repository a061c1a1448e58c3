-- ===== src/Config/Env/Size.antt =====
-- internal/config/config.go: the numbers that `envBytes` computes with.
use gh_proxy.Base.{
  ℕ, zero, suc, ◌-◌, ◌*◌, ◌%◌, ◌^◌, ◌<◌, ◌≤◌, true, Option, none, some, List, [], ◌∷◌, ◌++◌, ◌≡◌,
  ◌⊎◌, ap, Option-cases, codes, inl, inr, refl, sym, ◌∙◌, arith, ltb, leb, if◌then◌else◌,
  Bool-cases, Bytes, is_empty, ℤ, pos, negsuc, ◌==◌, All, some_inj,
}
use mathlib.Core.Path.{subst}
use gh_proxy.GoLib.Strings.{Unicode, trim_space, to_upper, has_suffix, cut_suffix, trim_suffix}
use gh_proxy.GoLib.Strings.Cut.{cut_suffix-append}
use gh_proxy.GoLib.Strconv.{i63, parse_int, natural, negative, up_to}
use gh_proxy.Config.Normalize.{clash, set_inj, set_to, refused, not_a_number}
use gh_proxy.Config.Env.{Environment, getenv, units, cut_unit, wrap64, scale, size_of, env_bytes}

pos_inj : {m n : ℕ} → pos m ≡ pos n → m ≡ n
pos_inj e = cc

-- A value of int64
abbrev pub IsInt64 : ℤ → Type 0
IsInt64 (pos n) = n < i63
IsInt64 (negsuc n) = n < i63

wrap64-IsInt64 : (x : ℕ) → IsInt64 (wrap64 x)
unfolding wrap64
wrap64-IsInt64 x = elim (Bool-cases (ltb (x % 2 ^ 64) i63)) [
  | inl e ↦ rw e (ground arith)
  | inr e ↦ rw e (ground arith)
]

-- A product that fits is not changed.
wrap64_exact : (x : ℕ) → x < i63 → wrap64 x ≡ pos x
unfolding wrap64
wrap64_exact x h =
    let small : x % 2 ^ 64 ≡ x = omega (arith, h) in
    let less : ltb x i63 ≡ true = ground (arith, h) in rw small (rw less refl)

up_to-bound :
    (limit : ℕ) (q : Option ℕ) (f : ℕ → ℤ) {z : ℤ}
    → up_to limit q f ≡ some z
    → (n : ℕ) × (n ≤ limit) × (f n ≡ z)
up_to-bound limit none f h = absurd cc
up_to-bound limit (some n) f h = elim (Bool-cases (leb n limit)) [
  | inl e ↦ (n, ground (arith, e), some_inj (rw e at h))
  | inr e ↦ absurd (missing (rw e at h))
]
  where
    missing : {z : ℤ} → none ≡ some z → ⊥
    missing k = cc

cut_unit-bound :
    (us : List (Bytes × ℕ)) (v : Bytes)
    → All (λ u. (1 ≤ u.1) × (u.1 ≤ 2 ^ 30)) us
    → (1 ≤ (cut_unit us v).1) × ((cut_unit us v).1 ≤ 2 ^ 30)
unfolding cut_unit
cut_unit-bound [] v h = (omega arith, omega arith)
cut_unit-bound ((s, m) ∷ us) v (k, ks) = elim (Bool-cases (has_suffix v s)) [
  | inl e ↦ rw e k
  | inr e ↦ rw e (cut_unit-bound us v ks)
]

negative-pos : (m n : ℕ) → negative m ≡ pos n → n ≡ 0
negative-pos zero n h = pos_inj (sym h)
negative-pos (suc m) n h = absurd cc

parse_int-bound : (s : Bytes) {n : ℕ} → parse_int s ≡ some (pos n) → n < i63
unfolding parse_int
parse_int-bound [] h = absurd cc
parse_int-bound (c ∷ s) {n} h = elim (Bool-cases (c == b'-')) [
  | inl e ↦
      let (m, small, f) = up_to-bound i63 (natural s) negative (rw e at h) in
      let zero_lem : n ≡ 0 = negative-pos m n f in omega (arith, zero_lem)
  | inr e ↦
      let (m, small, f) =
        up_to-bound (i63 - 1) (natural (if c == b'+' then s else c ∷ s)) pos (rw e at h) in
      omega (arith, small, pos_inj f)
]

-- The units that may be written, in bytes
abbrev pub sizes : List (Bytes × ℕ)
sizes =
    (codes "GB", 1073741824)
    ∷ ((codes "MB", 1048576)
        ∷ ((codes "KB", 1024)
            ∷ ((codes "G", 1073741824)
                ∷ ((codes "M", 1048576) ∷ ((codes "K", 1024) ∷ ((codes "B", 1) ∷ []))))))

-- A unit of a list, under its name, or one byte under none
abbrev pub IsUnit : List (Bytes × ℕ) → Bytes → ℕ → Type 0
IsUnit [] name size = (name ≡ []) × (size ≡ 1)
IsUnit ((n, m) ∷ us) name size = ((name ≡ n) × (size ≡ m)) ⊎ IsUnit us name size

append_nil : (v : Bytes) → v ≡ v ++ []
append_nil [] = refl
append_nil (x ∷ v) = ap (◌∷◌ x) (append_nil v)

-- A text without the name of one of the units
abbrev IsSplit : List (Bytes × ℕ) → Bytes → Bytes × ℕ → Type 0
IsSplit us v r = (name : Bytes) × IsUnit us name r.1 × (v ≡ r.0 ++ name)

cut_unit_lem :
    (s : Bytes) (m : ℕ) (us : List (Bytes × ℕ)) (v : Bytes)
    → cut_unit ((s, m) ∷ us) v ≡ elim (cut_suffix v s) [ none ↦ cut_unit us v | some b ↦ (b, m) ]
unfolding cut_unit has_suffix trim_suffix
cut_unit_lem s m us v = elim (Option-cases (cut_suffix v s)) [
  | inl e ↦ rw (e, has_suffix) refl
  | inr (b, e) ↦ rw (e, has_suffix) refl
]

-- What the loop over the units leaves is the text without the name of one of them.
cut_unit-IsSplit : (us : List (Bytes × ℕ)) (v : Bytes) → IsSplit us v (cut_unit us v)
unfolding cut_unit
cut_unit-IsSplit [] v = ([], (refl, refl), append_nil v)
cut_unit-IsSplit ((s, m) ∷ us) v =
    let rest = cut_unit-IsSplit us v in
    subst (IsSplit ((s, m) ∷ us) v) (sym (cut_unit_lem s m us v)) (go (cut_suffix v s) refl rest)
  where
    go :
        (o : Option Bytes)
        → cut_suffix v s ≡ o
        → IsSplit us v (cut_unit us v)
        → IsSplit ((s, m) ∷ us) v (elim o [ none ↦ cut_unit us v | some b ↦ (b, m) ])
    go none e (name, listed, split) = (name, inr listed, split)
    go (some b) e rest = (s, inl (refl, refl), cut_suffix-append v s e)

-- A limit that `envBytes` reads from a text: a number before the name of a unit. Their product, on
-- int64, is the product itself where that fits.
pub record IsSize ⦃c : Unicode⦄ (text : Bytes) (z : ℤ) : Type 0 where
  pub digits : Bytes
  pub name : Bytes
  pub number : ℕ
  pub unit : ℕ
  pub split : text ≡ digits ++ name
  pub has_unit : IsUnit sizes name unit
  pub has_number : parse_int (trim_space digits) ≡ some (pos number)
  pub in_range : (number < i63) × (1 ≤ unit) × (unit ≤ 2 ^ 30)
  pub int64 : IsInt64 z
  pub exact : number * unit < i63 → z ≡ pos (number * unit)

units_lem : All (λ u. (1 ≤ u.1) × (u.1 ≤ 2 ^ 30)) units
units_lem = (
  (omega arith, omega arith),
  (
    (omega arith, omega arith),
    (
      (omega arith, omega arith),
      (
        (omega arith, omega arith),
        (
          (omega arith, omega arith),
          ((omega arith, omega arith), ((omega arith, omega arith), tt)),
        ),
      ),
    ),
  ),
)

module _ ⦃c : Unicode⦄ where
  size_of-IsSize : (key text : Bytes) {z : ℤ} → size_of key text ≡ set_to z → IsSize text z
  unfolding size_of scale
  size_of-IsSize key text {z} h = go (parse_int (trim_space (cut_unit units text).0)) refl h
    where
      m : ℕ
      m = (cut_unit units text).1

      go :
          (q : Option ℤ)
          → parse_int (trim_space (cut_unit units text).0) ≡ q
          → elim q [ none ↦ refused (not_a_number key) | some n ↦ scale key n m ] ≡ set_to z
          → IsSize text z
      go none e k = absurd (clash k)
      go (some (negsuc n)) e k = absurd (clash k)
      go (some (pos n)) e k =
          let made : wrap64 (n * m) ≡ z = set_inj k in
          let (name, listed, split) = cut_unit-IsSplit units text in
          record {
            digits = (cut_unit units text).0;
            name = name;
            number = n;
            unit = m;
            split = split;
            has_unit = listed;
            has_number = e;
            in_range =
                let bound = cut_unit-bound units text units_lem in
                (parse_int-bound (trim_space (cut_unit units text).0) e, bound.0, bound.1);
            int64 = subst IsInt64 made (wrap64-IsInt64 (n * m));
            exact = λ fits. sym made ∙ wrap64_exact (n * m) fits;
          }

  at_text :
      (key t : Bytes) {z : ℤ}
      → (if is_empty t then set_to (pos 0) else size_of key t) ≡ set_to z
      → ((t ≡ []) × (z ≡ pos 0)) ⊎ IsSize t z
  at_text key [] h = inl (refl, sym (set_inj h))
  at_text key (x ∷ t) h = inr (size_of-IsSize key (x ∷ t) h)

  -- The limit that `envBytes` returns is 0 where the variable is empty, and otherwise the text is a
  -- number before GB or G, MB or M, KB or K, B or nothing, and the limit a value of int64 that is the
  -- number times 2^30, 2^20, 2^10 or 1 bytes, where that product is below 2^63.
  pub env_bytes-IsSize :
      ⦃e : Environment⦄ (key : Bytes) {z : ℤ}
      → env_bytes key (pos 0) ≡ set_to z
      → let text = trim_space (to_upper (getenv key)) in ((text ≡ []) × (z ≡ pos 0)) ⊎ IsSize text z
  unfolding env_bytes
  env_bytes-IsSize key h = at_text key (trim_space (to_upper (getenv key))) h
