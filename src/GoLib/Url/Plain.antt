-- ===== src/GoLib/Url/Plain.antt =====
-- URLs without anything to escape: what `net/url` and `strings` do to them.
use gh_proxy.Base.{
  ℕ, arith, Bool, true, false, ◌&&◌, ◌||◌, some, List, [], ◌∷◌, ◌++◌, ◌≡◌, ◌≢◌, refl, ltb, ◌==◌,
  within, map, any, all, Bytes, Lacks, codes,
}
use gh_proxy.GoLib.Strings.{
  Unicode, is_ascii, is_space, lower_byte, to_lower, trim_space, trim_left, trim_right,
  contains_byte,
}
use gh_proxy.GoLib.Url.{is_ctl}
use gh_proxy.GoLib.Url.Escape.{encode_path, should_escape, escape, unescape}

-- A byte of a plain path
abbrev pub is_plain : ℕ → Bool
is_plain c =
    within b'a' b'z' c
    || (within b'A' b'Z' c || (within b'0' b'9' c || contains_byte c (codes "-_.~/")))

-- A byte of a plain URL
abbrev pub is_visible : ℕ → Bool
is_visible c = is_plain c || c == b':'

pub record Visible (c : ℕ) : Type 0 where
  pub ascii : ltb c 128 ≡ true
  pub no_space : is_space c ≡ false
  pub no_control : is_ctl c ≡ false
  pub no_hash : c ≢ b'#'
  pub no_query : c ≢ b'?'

pub is_visible-Visible : (c : ℕ) → is_visible c ≡ true → Visible c
is_visible-Visible c h = record {
  ascii = ground arith;
  no_space = ground arith;
  no_control = ground arith;
  no_hash = λ e. ground arith;
  no_query = λ e. ground arith;
}

pub plain_byte :
    (c : ℕ) → is_plain c ≡ true → (should_escape encode_path c ≡ false) × ((c == b'%') ≡ false)
unfolding should_escape
plain_byte c h = (ground arith, ground arith)

module _ {A : Type 0} where
  all-cons :
      (p : A → Bool) (x : A) (xs : List A)
      → all p (x ∷ xs) ≡ true
      → (p x ≡ true) × (all p xs ≡ true)
  all-cons p x xs h = (ground arith, ground arith)

-- A plain path is a visible text.
pub all-visible : (s : Bytes) → all is_plain s ≡ true → all is_visible s ≡ true
all-visible [] h = refl
all-visible (c ∷ s) h =
    let (first, rest) = all-cons is_plain c s h in
    rw (all-visible s rest) (or_true (is_plain c) (c == b':') first)
  where
    or_true : (a b : Bool) → a ≡ true → ((a || b) && true) ≡ true
    or_true a b e = ground arith

pub all-append :
    {A : Type 0} (p : A → Bool) (xs ys : List A)
    → all p xs ≡ true
    → all p ys ≡ true
    → all p (xs ++ ys) ≡ true
all-append p [] ys h k = k
all-append p (x ∷ xs) ys h k =
    let (first, rest) = all-cons p x xs h in rw (first, all-append p xs ys rest k) refl

pub visible_lem :
    (s : Bytes)
    → all is_visible s ≡ true
    → (is_ascii s ≡ true) × (any is_ctl s ≡ false) × Lacks b'#' s × Lacks b'?' s
visible_lem [] h = (refl, refl, tt, tt)
visible_lem (c ∷ s) h =
    let (first, rest) = all-cons is_visible c s h in
    let v = is_visible-Visible c first in
    let (ascii, control, hash, query) = visible_lem s rest in
    (
      rw (v.ascii, ascii) refl,
      rw (v.no_control, control) refl,
      (v.no_hash, hash),
      (v.no_query, query),
    )

trim_right_lem : (s : Bytes) → all is_visible s ≡ true → trim_right is_space s ≡ s
unfolding trim_right
trim_right_lem [] h = refl
trim_right_lem (c ∷ s) h =
    let (first, rest) = all-cons is_visible c s h in
    rw ((is_visible-Visible c first).no_space, trim_right_lem s rest) refl

trim_left_lem : (s : Bytes) → all is_visible s ≡ true → trim_left is_space s ≡ s
unfolding trim_left
trim_left_lem [] h = refl
trim_left_lem (c ∷ s) h =
    let (first, rest) = all-cons is_visible c s h in
    rw ((is_visible-Visible c first).no_space, trim_left) refl

module _ ⦃u : Unicode⦄ where
  pub trim_space-visible : (s : Bytes) → all is_visible s ≡ true → trim_space s ≡ s
  unfolding trim_space
  trim_space-visible s h = rw ((visible_lem s h).0, trim_left_lem s h) (trim_right_lem s h)

  pub to_lower-visible : (s : Bytes) → all is_visible s ≡ true → to_lower s ≡ map lower_byte s
  unfolding to_lower
  to_lower-visible s h = rw ((visible_lem s h).0) refl

pub escape-plain : (s : Bytes) → all is_plain s ≡ true → escape encode_path s ≡ s
unfolding escape
escape-plain [] h = refl
escape-plain (c ∷ s) h =
    let (first, rest) = all-cons is_plain c s h in
    rw ((plain_byte c first).0, escape-plain s rest) refl

pub unescape-plain : (s : Bytes) → all is_plain s ≡ true → unescape encode_path s ≡ some s
unfolding unescape
unescape-plain [] h = refl
unescape-plain (c ∷ []) h = rw ((plain_byte c (all-cons is_plain c [] h).0).1) refl
unescape-plain (c ∷ x ∷ []) h =
    let (first, rest) = all-cons is_plain c (x ∷ []) h in
    rw ((plain_byte c first).1, unescape-plain (x ∷ []) rest) refl
unescape-plain (c ∷ x ∷ y ∷ s) h =
    let (first, rest) = all-cons is_plain c (x ∷ y ∷ s) h in
    rw ((plain_byte c first).1, unescape-plain (x ∷ y ∷ s) rest) refl
