-- ===== src/GoLib/Strings/Cut.antt =====
-- Laws of `strings.Cut` at one byte, and of cutting off a prefix or a suffix.
use gh_proxy.Base.{
  ℕ, Bool, true, false, Option, none, some, [], ◌∷◌, ◌++◌, ◌≡◌, ◌≢◌, refl, ap, arith, ◌==◌, inl,
  inr, Bool-cases, Bytes, Lacks, same, same_iff, same_refl, length, length-append,
}
use mathlib.Core.Option
use gh_proxy.GoLib.Strings.{cut, cut_prefix, cut_suffix, trim_suffix}

-- The text is its first part, the separator and the rest, or has no separator.
abbrev pub IsCut : ℕ → Bytes → Bytes × Bytes × Bool → Type 0
IsCut sep s (b, a, true) = (s ≡ b ++ sep ∷ a) × Lacks sep b
IsCut sep s (b, a, false) = (s ≡ b) × (a ≡ []) × Lacks sep b

IsCut-cons :
    (sep c : ℕ) (s : Bytes) (r : Bytes × Bytes × Bool)
    → c ≢ sep
    → IsCut sep s r
    → IsCut sep (c ∷ s) (c ∷ r.0, r.1, r.2)
IsCut-cons sep c s (b, a, true) ne (e, l) = (ap (◌∷◌ c) e, (ne, l))
IsCut-cons sep c s (b, a, false) ne (e, n, l) = (ap (◌∷◌ c) e, n, (ne, l))

pub cut-IsCut : (sep : ℕ) (s : Bytes) → IsCut sep s (cut sep s)
unfolding cut
cut-IsCut sep [] = (refl, refl, tt)
cut-IsCut sep (c ∷ s) = elim (Bool-cases (c == sep)) [
  | inl e ↦ rw e (ap (λ x. x ∷ s) (ground arith), tt)
  | inr e ↦ rw e (IsCut-cons sep c s (cut sep s) (ground arith) (cut-IsCut sep s))
]

pub IsCut-found :
    (sep : ℕ) (s : Bytes) (r : Bytes × Bytes × Bool)
    → IsCut sep s r
    → r.2 ≡ true
    → (s ≡ r.0 ++ sep ∷ r.1) × Lacks sep r.0
IsCut-found sep s (b, a, true) k t = k
IsCut-found sep s (b, a, false) k t = cc

pub cut-append : (sep : ℕ) (b a : Bytes) → Lacks sep b → cut sep (b ++ sep ∷ a) ≡ (b, a, true)
unfolding cut
cut-append sep [] a h = ground arith
cut-append sep (c ∷ b) a h = ground (arith, cut-append sep b a h.1)

pub cut-Lacks : (sep : ℕ) (s : Bytes) → Lacks sep s → cut sep s ≡ (s, [], false)
unfolding cut
cut-Lacks sep [] h = refl
cut-Lacks sep (c ∷ s) h = ground (arith, cut-Lacks sep s h.1)

pub cut_prefix-append : (s p : Bytes) {r : Bytes} → cut_prefix s p ≡ some r → s ≡ p ++ r
unfolding cut_prefix
cut_prefix-append s [] h = cc
cut_prefix-append [] (d ∷ p) h = cc
cut_prefix-append (c ∷ s) (d ∷ p) {r} h = ground (arith, cut_prefix-append s p {r = r})

pub append-cut_prefix : (p r : Bytes) → cut_prefix (p ++ r) p ≡ some r
unfolding cut_prefix
append-cut_prefix [] [] = refl
append-cut_prefix [] (c ∷ r) = refl
append-cut_prefix (d ∷ p) r = ground (arith, append-cut_prefix p r)

Option-map-inv :
    (c : ℕ) (o : Option Bytes) {b : Bytes}
    → Option.map (λ x. c ∷ x) o ≡ some b
    → (x : Bytes) × (o ≡ some x) × (b ≡ c ∷ x)
Option-map-inv c none h = cc
Option-map-inv c (some x) h = (x, refl, ground arith)

pub cut_suffix-append : (s t : Bytes) {b : Bytes} → cut_suffix s t ≡ some b → s ≡ b ++ t
unfolding cut_suffix
cut_suffix-append [] t h = ground (arith, same_iff [] t)
cut_suffix-append (c ∷ s) t {b} h = elim (Bool-cases (same (c ∷ s) t)) [
  | inl e ↦ ground (arith, same_iff (c ∷ s) t)
  | inr e ↦
      let (x, found, cons) = Option-map-inv c (cut_suffix s t) (rw e at h) in
      rw cons (ap (◌∷◌ c) (cut_suffix-append s t found))
]

longer-ne : (c : ℕ) (b t : Bytes) → same (c ∷ (b ++ t)) t ≡ false
longer-ne c b t = elim (Bool-cases (same (c ∷ (b ++ t)) t)) [
  | inl e ↦
      absurd
        (omega (arith, ap length ((same_iff (c ∷ (b ++ t)) t).0 e), length-append {0} (c ∷ b) t))
  | inr e ↦ e
]

-- A text of its own length or less has a suffix in one place at most.
pub append-cut_suffix : (b t : Bytes) → cut_suffix (b ++ t) t ≡ some b
unfolding cut_suffix
append-cut_suffix [] [] = ground (arith, same_refl [])
append-cut_suffix [] (d ∷ t) = rw (same_refl (d ∷ t))
append-cut_suffix (c ∷ b) t = rw (longer-ne c b t, append-cut_suffix b t)

-- `strings.TrimSuffix` of a text that ends so.
pub append-trim_suffix : (b t : Bytes) → trim_suffix (b ++ t) t ≡ b
unfolding trim_suffix
append-trim_suffix b t = rw (append-cut_suffix b t)
