-- ===== src/Server/Admitted/Reasons.antt =====
-- internal/server/server.go: the reasons that `serve` denies a request for.
use gh_proxy.Base.{
  Bool, true, false, not, ◌||◌, Option, some, none, ◌≡◌, refl, Bytes, codes, same, is_empty,
}
use gh_proxy.GoLib.Strings.{Unicode, cut_prefix}
use gh_proxy.Ghurl.Parse.{parse_with_defaults}
use gh_proxy.Auth
use gh_proxy.Server.{
  Server, Request, Gate, pass, denied, ◌>>=◌, ◌>>◌, guard, require, is_method, lists_allow,
  authenticate, resolve, gate,
}

-- A reason to deny is never empty, so that a denied request is counted as one.
guard_denied :
    {B : Type 0} (ok : Bool) (y x : Bytes) (k : Gate B)
    → is_empty y ≡ false
    → (k ≡ denied x → is_empty x ≡ false)
    → (guard ok y >> k) ≡ denied x
    → is_empty x ≡ false
guard_denied true y x k ne h e = h e
guard_denied false y x k ne h e = cc

require_denied :
    {A B : Type 0} (o : Option A) (y x : Bytes) (f : A → Gate B)
    → is_empty y ≡ false
    → ((a : A) → f a ≡ denied x → is_empty x ≡ false)
    → (require o y >>= f) ≡ denied x
    → is_empty x ≡ false
require_denied none y x f ne h e = cc
require_denied (some a) y x f ne h e = h a e

>>=-denied :
    {A B : Type 0} (m : Gate A) (f : A → Gate B) (x : Bytes)
    → (m ≡ denied x → is_empty x ≡ false)
    → ((a : A) → f a ≡ denied x → is_empty x ≡ false)
    → (m >>= f) ≡ denied x
    → is_empty x ≡ false
>>=-denied (pass a) f x h k e = k a e
>>=-denied (denied y) f x h k e = h (cc)

passed : {A : Type 0} (a : A) {x : Bytes} → pass a ≡ denied x → is_empty x ≡ false
passed a e = cc

module _ ⦃c : Unicode⦄ (s : Server) (x : Bytes) where
  authenticate_denied : (r : Request) → authenticate s r ≡ denied x → is_empty x ≡ false
  unfolding authenticate
  authenticate_denied r = guard_denied (is_method r.method) (codes "method not allowed") x _ refl (
      guard_denied (not (is_empty r.request_uri || same r.request_uri (codes "*")))
        (codes "no request target") x _ refl
        (require_denied (cut_prefix r.request_uri s.cfg.prefix) (codes "outside mount prefix") x _
          refl
          (λ rest.
            guard_denied (Auth.check s.auth r.header rest).1 (codes "authentication failed") x _
              refl (passed (Auth.check s.auth r.header rest).0))))

  resolve_denied : (rest : Bytes) → resolve s rest ≡ denied x → is_empty x ≡ false
  unfolding resolve
  resolve_denied rest =
      require_denied (parse_with_defaults rest s.cfg.default_hosts)
        (codes "not a proxyable GitHub URL") x _ refl
        (λ t.
          guard_denied (lists_allow s t) (codes "blocked by access list") x _ refl
            (passed (t, rest)))

  pub gate_denied : (r : Request) → gate s r ≡ denied x → is_empty x ≡ false
  unfolding gate
  gate_denied r = >>=-denied (authenticate s r) (resolve s) x (authenticate_denied r) resolve_denied
