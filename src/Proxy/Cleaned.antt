-- ===== src/Proxy/Cleaned.antt =====
-- internal/proxy/proxy.go: the headers of a response that goes back.
use gh_proxy.Base.{
  Bool, true, false, ◌&&◌, ◌||◌, Option, none, some, List, [], ◌∷◌, ◌≡◌, ◌⊎◌, refl, sym, inl, inr,
  if◌then◌else◌, Bool-cases, Bytes, codes, same, same_iff,
}
use gh_proxy.GoLib.Header.{Header, values, values-del, values-set}
use gh_proxy.Proxy.{Options, clean_header}

-- Headers of GitHub's page that have no meaning, or a wrong one, on the proxy's domain
abbrev pub is_banned : Bytes → Bool
is_banned name =
    same (codes "Clear-Site-Data") name
    || (same (codes "Content-Security-Policy-Report-Only") name
        || (same (codes "Content-Security-Policy") name || same (codes "Set-Cookie") name))

abbrev pub is_cors : Bytes → Bool
is_cors name =
    same (codes "Access-Control-Expose-Headers") name
    || same (codes "Access-Control-Allow-Origin") name

-- The values that a header has behind `clean_header`
abbrev pub cleaned : Bool → Header → Bytes → List Bytes
cleaned cors h name =
    if cors && is_cors name
    then codes "*" ∷ []
    else if same (codes "X-Robots-Tag") name
    then codes "noindex, nofollow, noarchive" ∷ []
    else if is_banned name
    then []
    else values h name

or_else :
    (vs ws : List Bytes) (a b : Bool)
    → (if a then vs else if b then vs else ws) ≡ (if a || b then vs else ws)
or_else vs ws true b = refl
or_else vs ws false b = refl

pub values-clean_header :
    (o : Options) (h : Header) (name : Bytes)
    → values (clean_header o h) name ≡ cleaned o.cors h name
unfolding clean_header
values-clean_header o h name = elim (Bool-cases o.cors) [
  | inl e ↦ rw e (simp (values-set, values-del, or_else))
  | inr e ↦ rw e (simp (values-set, values-del, or_else))
]

-- The values of a header that the response has when it is not over the limit
abbrev pub moved_to : Option Bytes → Bytes → List Bytes → List Bytes
moved_to none name vs = vs
moved_to (some loc) name vs = if same (codes "Location") name then loc ∷ [] else vs

pub banned-cases :
    (name : Bytes)
    → is_banned name ≡ true
    → (name ≡ codes "Clear-Site-Data")
      ⊎ ((name ≡ codes "Content-Security-Policy-Report-Only")
          ⊎ ((name ≡ codes "Content-Security-Policy") ⊎ (name ≡ codes "Set-Cookie")))
banned-cases name h = elim (Bool-cases (same (codes "Clear-Site-Data") name)) [
  | inl e ↦ inl (sym ((same_iff (codes "Clear-Site-Data") name).0 e))
  | inr e ↦ elim (Bool-cases (same (codes "Content-Security-Policy-Report-Only") name)) [
    | inl f ↦ inr (inl (sym ((same_iff (codes "Content-Security-Policy-Report-Only") name).0 f)))
    | inr f ↦ elim (Bool-cases (same (codes "Content-Security-Policy") name)) [
      | inl g ↦ inr (inr (inl (sym ((same_iff (codes "Content-Security-Policy") name).0 g))))
      | inr g ↦ inr (inr (inr (sym ((same_iff (codes "Set-Cookie") name).0 (rw (e, f, g) at h)))))
    ]
  ]
]

-- A banned header is in no cleaned response, with a new location or without.
pub banned_lem :
    (cors : Bool) (h : Header) (loc : Option Bytes) (name : Bytes)
    → is_banned name ≡ true
    → moved_to loc name (cleaned cors h name) ≡ []
unfolding same
banned_lem cors h loc name e = elim (banned-cases name e) [
  | inl f ↦ rw f (each cors loc).0
  | inr (inl f) ↦ rw f (each cors loc).1
  | inr (inr (inl f)) ↦ rw f (each cors loc).2
  | inr (inr (inr f)) ↦ rw f (each cors loc).3
]
  where
    gone : Bool → Option Bytes → Bytes → Type 0
    gone b l n = moved_to l n (cleaned b h n) ≡ []

    each :
        (b : Bool) (l : Option Bytes)
        → gone b l (codes "Clear-Site-Data")
          × gone b l (codes "Content-Security-Policy-Report-Only")
          × gone b l (codes "Content-Security-Policy")
          × gone b l (codes "Set-Cookie")
    each true none = (refl, refl, refl, refl)
    each true (some l) = (refl, refl, refl, refl)
    each false none = (refl, refl, refl, refl)
    each false (some l) = (refl, refl, refl, refl)

pub unlisted_lem :
    (cors : Bool) (h : Header) (loc : Option Bytes)
    → moved_to loc (codes "X-Robots-Tag") (cleaned cors h (codes "X-Robots-Tag"))
      ≡ codes "noindex, nofollow, noarchive" ∷ []
unfolding same
unlisted_lem true h none = refl
unlisted_lem true h (some l) = refl
unlisted_lem false h none = refl
unlisted_lem false h (some l) = refl
