-- ===== src/Config/Normalize/Paths.antt =====
-- internal/config/config.go: the shape of the paths that `Load` accepts.
use gh_proxy.Base.{
  Bool, true, false, some, [], ◌∷◌, ◌++◌, ◌≡◌, ◌≢◌, inl, inr, refl, sym, ap, ◌∙◌, arith,
  if◌then◌else◌, Bool-cases, Option-cases, Bytes, codes, is_empty, All, All-append,
}
use gh_proxy.GoLib.Strings.{
  Unicode, trim_space, cut_prefix, cut_suffix, has_prefix, has_suffix, cut_at, contains,
  contains_any, contains_byte,
}
use gh_proxy.GoLib.Strings.Cut.{append-cut_prefix, cut_prefix-append, cut_suffix-append}
use gh_proxy.Config.Normalize.{
  Refusal, set_to, refused, unplain, with_leading_slash, with_trailing_slash, mount_path,
  normalize_prefix,
}

abbrev pub IsPlain : Bytes → Type 0
IsPlain = All (λ c. contains_byte c unplain ≡ false)

-- No two slashes side by side.
abbrev pub HasSegments : Bytes → Type 0
HasSegments p = (a b : Bytes) → p ≢ a ++ (codes "//" ++ b)

-- `/`, or `/x/y/`
pub record IsMount (p : Bytes) : Type 0 where
  pub opens : (q : Bytes) × (p ≡ b'/' ∷ q)
  pub closes : (q : Bytes) × (p ≡ q ++ b'/' ∷ [])
  pub segments : HasSegments p
  pub plain : IsPlain p

-- Nothing, or `/x/y`
pub record IsPagePath (p : Bytes) : Type 0 where
  pub opens : (q : Bytes) × (p ≡ b'/' ∷ q)
  pub unclosed : (q : Bytes) → p ≢ q ++ b'/' ∷ []
  pub segments : HasSegments p
  pub plain : IsPlain p

cut_at-prefix : (t s : Bytes) {r : Bytes} → cut_prefix s t ≡ some r → cut_at t s ≡ some ([], r)
unfolding cut_at
cut_at-prefix t [] e = rw (e, cut_at) refl
cut_at-prefix t (c ∷ s) e = rw (e, cut_at) refl

cut_at-append : (t a b : Bytes) → (r : Bytes × Bytes) × (cut_at t (a ++ (t ++ b)) ≡ some r)
unfolding cut_at
cut_at-append t [] b = (([], b), cut_at-prefix t (t ++ b) (append-cut_prefix t b))
cut_at-append t (c ∷ a) b = elim (Option-cases (cut_prefix (c ∷ (a ++ (t ++ b))) t)) [
  | inr (r, e) ↦ (([], r), cut_at-prefix t (c ∷ (a ++ (t ++ b))) e)
  | inl e ↦ let (r, found) = cut_at-append t a b in ((c ∷ r.0, r.1), rw (e, cut_at) (rw found refl))
]

pub contains-false : (t p : Bytes) → contains p t ≡ false → (a b : Bytes) → p ≢ a ++ (t ++ b)
unfolding contains
contains-false t p h a b e = differ (sym (rw e at h) ∙ contained)
  where
    contained : contains (a ++ (t ++ b)) t ≡ true
    contained = rw ((cut_at-append t a b).1, contains) refl

    differ : false ≡ true → ⊥
    differ k = cc

pub plain_bytes : (p : Bytes) → contains_any p unplain ≡ false → IsPlain p
plain_bytes [] h = tt
plain_bytes (c ∷ p) h = (ground arith, plain_bytes p (ground arith))

pub leading : (p : Bytes) → (q : Bytes) × (with_leading_slash p ≡ b'/' ∷ q)
unfolding has_prefix
leading p = elim (Option-cases (cut_prefix p (codes "/"))) [
  | inl e ↦ (p, rw e refl)
  | inr (q, e) ↦ (q, rw e (cut_prefix-append p (codes "/") e))
]

pub leading-IsPlain : (p : Bytes) → IsPlain p → IsPlain (with_leading_slash p)
leading-IsPlain p h = elim (Bool-cases (has_prefix p (codes "/"))) [
  | inl e ↦ rw e h
  | inr e ↦ rw e (refl, h)
]

trailing : (p : Bytes) → (q : Bytes) × (with_trailing_slash p ≡ q ++ b'/' ∷ [])
unfolding has_suffix
trailing p = elim (Option-cases (cut_suffix p (codes "/"))) [
  | inl e ↦ (p, rw (e, has_suffix) refl)
  | inr (q, e) ↦ (q, rw (e, has_suffix) (cut_suffix-append p (codes "/") e))
]

trailing-IsPlain : (p : Bytes) → IsPlain p → IsPlain (with_trailing_slash p)
trailing-IsPlain p h = elim (Bool-cases (has_suffix p (codes "/"))) [
  | inl e ↦ rw e h
  | inr e ↦ rw e (All-append (λ c. contains_byte c unplain ≡ false) p (codes "/") h (refl, tt))
]

-- A trailing slash keeps the leading one.
trailing-opens : (p q : Bytes) → p ≡ b'/' ∷ q → (r : Bytes) × (with_trailing_slash p ≡ b'/' ∷ r)
trailing-opens p q e = elim (Bool-cases (has_suffix p (codes "/"))) [
  | inl k ↦ (q, rw k e)
  | inr k ↦ (q ++ codes "/", rw k (ap (λ x. x ++ codes "/") e))
]

-- A choice between two refusals and a path.
pub settled :
    (b1 b2 : Bool) (x y : Refusal) (path : Bytes) {q : Bytes}
    → (if b1 then refused x else if b2 then refused y else set_to path) ≡ set_to q
    → (b1 ≡ false) × (b2 ≡ false) × (path ≡ q)
settled true b2 x y path h = cc
settled false true x y path h = cc
settled false false x y path h = (refl, refl, ground arith)

mount_path-IsMount : (p : Bytes) {q : Bytes} → mount_path p ≡ set_to q → IsMount q
unfolding mount_path
mount_path-IsMount p {q} h =
    let led = with_leading_slash p in
    let path = with_trailing_slash led in
    let (plain, segments, same_path) =
      settled (contains_any p unplain) (contains path (codes "//")) _ _ path h in
    let (a, opens) = leading p in
    rw (← same_path) (record {
      opens = trailing-opens led a opens;
      closes = trailing led;
      segments = contains-false (codes "//") path segments;
      plain = trailing-IsPlain led (leading-IsPlain p (plain_bytes p plain));
    })

-- A prefix that `Load` accepts begins and ends with a slash, has no empty segment, and holds no
-- question mark, number sign or space.
pub normalize_prefix-IsMount :
    ⦃c : Unicode⦄ (p : Bytes) {q : Bytes} → normalize_prefix p ≡ set_to q → IsMount q
unfolding normalize_prefix
normalize_prefix-IsMount p h =
    mount_path-IsMount (if is_empty (trim_space p) then codes "/" else trim_space p) h
