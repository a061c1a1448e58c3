-- ===== src/Auth/Credential/Headers.antt =====
-- internal/auth/auth.go: `checkHeaders`.
use gh_proxy.Base.{
  Bool, true, false, not, ◌||◌, Option, none, some, [], ◌≡◌, ◌⊎◌, ◌↔◌, inl, inr, refl, sym, ◌∙◌,
  arith, if◌then◌else◌, Bytes, codes, Bool-cases,
}
use gh_proxy.GoLib.Strings.{Unicode, cut, equal_fold, trim_space}
use gh_proxy.GoLib.Strings.Cut.{IsCut, cut-IsCut, cut-append, cut-Lacks}
use gh_proxy.GoLib.Header.{Header, get}
use gh_proxy.GoLib.Base64
use gh_proxy.Auth.{Authenticator, header_name, equal, check_basic, check_scheme, check_headers}
use gh_proxy.Auth.Credential.{
  IsToken, BasicPair, BasicCredential, is_bearer, SchemeCredential, HeaderCredential,
}
use gh_proxy.Auth.Credential.Path.{equal_iff}

-- `a.equal(pass) || a.equal(user)` on the parts of a cut.
halves :
    (a : Authenticator) (p : Bytes × Bytes × Bool)
    → ((equal a p.1 || equal a p.0) ≡ true) ↔ (IsToken a p.1 ⊎ IsToken a p.0)
halves a p = (
  λ h. ground (arith, equal_iff a p.1, equal_iff a p.0),
  λ h. ground (arith, equal_iff a p.1, equal_iff a p.0),
)

BasicPair-iff :
    (a : Authenticator) (pair : Bytes)
    → ((equal a (cut b':' pair).1 || equal a (cut b':' pair).0) ≡ true) ↔ BasicPair a pair
BasicPair-iff a pair =
    (λ h. sound (cut b':' pair) (cut-IsCut b':' pair) ((halves a (cut b':' pair)).0 h), complete)
  where
    sound :
        (p : Bytes × Bytes × Bool)
        → IsCut b':' pair p
        → (IsToken a p.1 ⊎ IsToken a p.0)
        → BasicPair a pair
    sound (user, pass, true) (e, lacks) t = inl (user, pass, e, lacks, t)
    sound (user, pass, false) (e, n, lacks) (inl (t, ne)) = absurd (ne (sym t ∙ n))
    sound (user, pass, false) (e, n, lacks) (inr t) = inr (rw e lacks, rw e t)

    complete : BasicPair a pair → (equal a (cut b':' pair).1 || equal a (cut b':' pair).0) ≡ true
    complete (inl (user, pass, e, lacks, t)) =
        rw (e, cut-append b':' user pass lacks) ((halves a (user, pass, true)).1 t)
    complete (inr (lacks, t)) =
        rw (cut-Lacks b':' pair lacks) ((halves a (pair, [], false)).1 (inr t))

basic_iff :
    (a : Authenticator) (value : Bytes) → (check_basic a value ≡ true) ↔ BasicCredential a value
unfolding check_basic
basic_iff a value = (sound (Base64.decode value) refl, complete)
  where
    sound :
        (o : Option Bytes)
        → Base64.decode value ≡ o
        → check_basic a value ≡ true
        → BasicCredential a value
    sound none e h = absurd (ground arith)
    sound (some pair) e h = (pair, e, (BasicPair-iff a pair).0 (rw (e, check_basic) at h))

    complete : BasicCredential a value → check_basic a value ≡ true
    complete (pair, e, t) = rw (e, check_basic) ((BasicPair-iff a pair).1 t)

module _ ⦃c : Unicode⦄ where
  scheme_eq :
      (a : Authenticator) (scheme value : Bytes)
      → check_scheme a scheme value ≡ (
          if is_bearer scheme
          then equal a (trim_space value)
          else if equal_fold scheme (codes "basic")
          then check_basic a (trim_space value)
          else false)
  unfolding check_scheme
  scheme_eq a scheme value = refl

  scheme_iff :
      (a : Authenticator) (scheme value : Bytes)
      → (check_scheme a scheme value ≡ true) ↔ SchemeCredential a scheme value
  scheme_iff a scheme value =
      rw scheme_eq (cases (is_bearer scheme) (equal_fold scheme (codes "basic")) refl refl)
    where
      v : Bytes
      v = trim_space value

      cases :
          (b d : Bool)
          → is_bearer scheme ≡ b
          → equal_fold scheme (codes "basic") ≡ d
          → ((if b then equal a v else if d then check_basic a v else false) ≡ true)
            ↔ SchemeCredential a scheme value
      cases true d e f = (λ h. inl (e, (equal_iff a v).0 h), back)
        where
          back : SchemeCredential a scheme value → equal a v ≡ true
          back (inl (x, t)) = (equal_iff a v).1 t
          back (inr (x, y, t)) = cc
      cases false true e f = (λ h. inr (e, f, (basic_iff a v).0 h), back)
        where
          back : SchemeCredential a scheme value → check_basic a v ≡ true
          back (inl (x, t)) = cc
          back (inr (x, y, t)) = (basic_iff a v).1 t
      cases false false e f = (λ h. absurd (ground arith), back)
        where
          back : SchemeCredential a scheme value → false ≡ true
          back (inl (x, t)) = cc
          back (inr (x, y, t)) = cc

  headers_eq :
      (a : Authenticator) (h : Header) (p : Bytes × Bytes × Bool)
      → cut b' ' (get h (codes "Authorization")) ≡ p
      → check_headers a h ≡ (
          if equal a (get h header_name)
          then true
          else if not p.2
          then false
          else check_scheme a p.0 p.1)
  unfolding check_headers
  headers_eq a h p e = rw (← e)

  -- `checkHeaders` accepts exactly the credentials of its two headers.
  pub check_headers_iff :
      (a : Authenticator) (h : Header) → (check_headers a h ≡ true) ↔ HeaderCredential a h
  check_headers_iff a h = (sound (cut b' ' authz) (cut-IsCut b' ' authz) refl, complete)
    where
      authz : Bytes
      authz = get h (codes "Authorization")

      sound :
          (p : Bytes × Bytes × Bool)
          → IsCut b' ' authz p
          → cut b' ' authz ≡ p
          → check_headers a h ≡ true
          → HeaderCredential a h
      sound (scheme, value, true) k e t = elim (Bool-cases (equal a (get h header_name))) [
        | inl x ↦ inl ((equal_iff a (get h header_name)).0 x)
        | inr x ↦ inr (
          scheme,
          value,
          k.0,
          k.1,
          (scheme_iff a scheme value).0 (rw (headers_eq a h _ e, x) at t),
        )
      ]
      sound (scheme, value, false) k e t = elim (Bool-cases (equal a (get h header_name))) [
        | inl x ↦ inl ((equal_iff a (get h header_name)).0 x)
        | inr x ↦ absurd (refuted (rw (headers_eq a h _ e, x) at t))
      ]
        where
          refuted : ¬ (false ≡ true)
          refuted z = cc

      complete : HeaderCredential a h → check_headers a h ≡ true
      complete (inl t) =
          rw (headers_eq a h (cut b' ' authz) refl) (rw ((equal_iff a (get h header_name)).1 t))
      complete (inr (scheme, value, e, lacks, t)) =
          let parts : cut b' ' authz ≡ (scheme, value, true) =
            rw e (cut-append b' ' scheme value lacks) in
          rw (headers_eq a h _ parts) (elim (Bool-cases (equal a (get h header_name))) [
            | inl x ↦ rw x
            | inr x ↦ rw x ((scheme_iff a scheme value).1 t)
          ])
