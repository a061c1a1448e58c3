-- ===== src/Config/Normalize/PagePath.antt =====
-- internal/config/config.go: the shape of the status page's path.
use gh_proxy.Base.{
  ℕ, Bool, true, false, ◌&&◌, [], ◌∷◌, ◌++◌, ◌≡◌, ◌≢◌, ◌⊎◌, inl, inr, refl, ap, arith,
  if◌then◌else◌, ◌==◌, Bool-cases, Bytes, codes, is_empty,
}
use gh_proxy.GoLib.Strings.{Unicode, trim_space, trim_right, contains, contains_any}
use gh_proxy.Config.Normalize.{
  Refusal, set_to, refused, unplain, with_leading_slash, page_path, normalize_status_path,
}
use gh_proxy.Config.Normalize.Paths.{
  IsPlain, IsPagePath, contains-false, plain_bytes, leading, leading-IsPlain, settled,
}

-- The paths without their trailing slashes.
abbrev trimmed : Bytes → Bytes
trimmed = trim_right (λ c. c == b'/')

nil_unclosed : (q : Bytes) → [] ≢ q ++ b'/' ∷ []
nil_unclosed [] e = cc
nil_unclosed (d ∷ q) e = cc

tail_eq : (c d : ℕ) (s t : Bytes) → c ∷ s ≡ d ∷ t → (c ≡ d) × (s ≡ t)
tail_eq c d s t e = (cc, cc)

kept-unclosed :
    (c : ℕ) (rest q : Bytes)
    → (c == b'/' && is_empty rest) ≡ false
    → ((r : Bytes) → rest ≢ r ++ b'/' ∷ [])
    → c ∷ rest ≢ q ++ b'/' ∷ []
kept-unclosed c rest [] k ih f =
    let (slash, gone) = tail_eq c b'/' rest [] f in ground (arith, slash, ap is_empty gone)
kept-unclosed c rest (d ∷ q) k ih f = ih q (tail_eq c d rest (q ++ b'/' ∷ []) f).1

trimmed-unclosed : (p q : Bytes) → trimmed p ≢ q ++ b'/' ∷ []
unfolding trim_right
trimmed-unclosed [] q e = nil_unclosed q e
trimmed-unclosed (c ∷ p) q e = elim (Bool-cases (c == b'/' && is_empty (trimmed p))) [
  | inl k ↦ nil_unclosed q (rw (k, trim_right) at e)
  | inr k ↦ kept-unclosed c (trimmed p) q k (trimmed-unclosed p) (rw (k, trim_right) at e)
]

trimmed-IsPlain : (p : Bytes) → IsPlain p → IsPlain (trimmed p)
unfolding trim_right
trimmed-IsPlain [] h = tt
trimmed-IsPlain (c ∷ p) (h, hs) = elim (Bool-cases (c == b'/' && is_empty (trimmed p))) [
  | inl k ↦ rw (k, trim_right) tt
  | inr k ↦ rw (k, trim_right) (h, trimmed-IsPlain p hs)
]

trimmed-opens :
    (p q : Bytes)
    → p ≡ b'/' ∷ q
    → is_empty (trimmed p) ≡ false
    → (r : Bytes) × (trimmed p ≡ b'/' ∷ r)
unfolding trim_right
trimmed-opens [] q e h = absurd cc
trimmed-opens (c ∷ p) q e h = elim (Bool-cases (c == b'/' && is_empty (trimmed p))) [
  | inl k ↦ absurd (empty (rw (k, trim_right) at h))
  | inr k ↦ (trimmed p, rw (k, trim_right) (ap (λ x. x ∷ trimmed p) (tail_eq c b'/' p q e).0))
]
  where
    empty : true ≡ false → ⊥
    empty k = cc

-- A choice between three refusals and a path.
settled_three :
    (b1 b2 b3 : Bool) (x y z : Refusal) (path : Bytes) {q : Bytes}
    → (if b1 then refused x else if b2 then refused y else if b3 then refused z else set_to path)
      ≡ set_to q
    → (b1 ≡ false) × (b2 ≡ false) × (b3 ≡ false) × (path ≡ q)
settled_three true b2 b3 x y z path h = cc
settled_three false b2 b3 x y z path h = let (e, f, g) = settled b2 b3 y z path h in (refl, e, f, g)

page_path-IsPagePath : (p : Bytes) {q : Bytes} → page_path p ≡ set_to q → IsPagePath q
unfolding page_path
page_path-IsPagePath p {q} h =
    let led = with_leading_slash p in
    let path = trimmed led in
    let (plain, nonempty, segments, same_path) =
      settled_three (contains_any p unplain) (is_empty path) (contains path (codes "//")) _ _ _ path
        h in
    let (a, opens) = leading p in
    rw (← same_path) (record {
      opens = trimmed-opens led a opens nonempty;
      unclosed = trimmed-unclosed led;
      segments = contains-false (codes "//") path segments;
      plain = trimmed-IsPlain led (leading-IsPlain p (plain_bytes p plain));
    })

-- A path for the status page that `Load` accepts is empty, which turns the page off, or begins with
-- a slash, does not end with one, has no empty segment, and holds no question mark, number sign or
-- space.
pub normalize_status_path-IsPagePath :
    ⦃c : Unicode⦄ (p : Bytes) {q : Bytes}
    → normalize_status_path p ≡ set_to q
    → (q ≡ []) ⊎ IsPagePath q
unfolding normalize_status_path
normalize_status_path-IsPagePath p {q} h = elim (Bool-cases (is_empty (trim_space p))) [
  | inl e ↦ inl (off (rw (e, normalize_status_path) at h))
  | inr e ↦ inr (page_path-IsPagePath (trim_space p) (rw (e, normalize_status_path) at h))
]
  where
    off : {r : Bytes} → set_to [] ≡ set_to r → r ≡ []
    off k = cc
