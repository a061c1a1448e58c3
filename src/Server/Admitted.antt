-- ===== src/Server/Admitted.antt =====
-- internal/server/server.go: which requests pass the gate of `serve`, stated apart from the code.
mod Reasons
pub mod Stealth
pub mod Redirects
pub mod Loaded
pub mod StatusPage
use gh_proxy.Base.{
  Bool, true, false, not, ◌&&◌, ◌||◌, Option, none, some, List, [], ◌∷◌, ◌++◌, ◌≡◌, ◌≢◌, ◌⊎◌, ◌↔◌,
  inl, inr, refl, sym, ap, ◌∙◌, arith, if◌then◌else◌, Bytes, codes, Bool-cases, same, same_iff,
  is_empty,
}
use gh_proxy.GoLib.Strings.{Unicode, cut_prefix}
use gh_proxy.GoLib.Strings.Cut.{cut_prefix-append, append-cut_prefix}
use gh_proxy.Ghurl.Target.{Target}
use gh_proxy.Ghurl.Parse.{parse_with_defaults}
use gh_proxy.Ghurl.Rule.{Rule, rules_match}
use gh_proxy.Auth
use gh_proxy.Auth.Credential.{Grants}
use gh_proxy.Auth.Credential.Decide.{check_iff}
use gh_proxy.Server.{
  Server, Request, Gate, pass, denied, ◌>>=◌, ◌>>◌, guard, require, is_method, is_nonempty,
  lists_allow, authenticate, resolve, gate,
}

-- The four methods that the proxy serves.
abbrev pub IsMethod : Bytes → Type 0
IsMethod m = (m ≡ codes "GET") ⊎ ((m ≡ codes "HEAD") ⊎ ((m ≡ codes "POST") ⊎ (m ≡ codes "OPTIONS")))

-- Neither list forbids the target: an empty allow list allows all, and the deny list has the
-- last word.
abbrev pub IsListed : ⦃c : Unicode⦄ → Server → Target → Type 0
IsListed s t =
    ((s.cfg.allow_list ≡ []) ⊎ (rules_match s.cfg.allow_list t.owner t.repo ≡ true))
    × (rules_match s.cfg.deny_list t.owner t.repo ≡ false)

-- The request carries a credential behind the mount prefix, and `rest` is what remains.
abbrev pub IsAuthentic : ⦃c : Unicode⦄ → Server → Request → Bytes → Type 0
IsAuthentic s r rest =
    (after : Bytes) × (r.request_uri ≡ s.cfg.prefix ++ after) × Grants s.auth r.header after rest

pub record Admits ⦃c : Unicode⦄ (s : Server) (r : Request) (t : Target) (rest : Bytes)
    : Type 0 where
  pub method : IsMethod r.method
  pub uri_nonempty : r.request_uri ≢ []
  pub uri_not_star : r.request_uri ≢ codes "*"
  pub authentic : IsAuthentic s r rest
  pub parsed : parse_with_defaults rest s.cfg.default_hosts ≡ some t
  pub listed : IsListed s t

IsMethod-iff : (m : Bytes) → (is_method m ≡ true) ↔ IsMethod m
IsMethod-iff m = go (codes "GET") (codes "HEAD") (codes "POST") (codes "OPTIONS")
  where
    go :
        (a b d e : Bytes)
        → ((same m a || (same m b || (same m d || same m e))) ≡ true)
          ↔ ((m ≡ a) ⊎ ((m ≡ b) ⊎ ((m ≡ d) ⊎ (m ≡ e))))
    go a b d e = (
      λ h. ground (arith, same_iff m a, same_iff m b, same_iff m d, same_iff m e),
      λ h. ground (arith, same_iff m a, same_iff m b, same_iff m d, same_iff m e),
    )

uri_iff :
    (u : Bytes) → (not (is_empty u || same u (codes "*")) ≡ true) ↔ ((u ≢ []) × (u ≢ codes "*"))
uri_iff [] = (λ h. cc, λ h. absurd (h.0 refl))
uri_iff (x ∷ u) = (
  λ h. (λ e. cc, λ e. ground (arith, (same_iff (x ∷ u) (codes "*")).1 e)),
  λ h. ground (arith, same_iff (x ∷ u) (codes "*")),
)

module _ {ℓ} {B : Type ℓ} {b : B} where
  -- A guard that let the request through held.
  guard_then :
      (ok : Bool) (x : Bytes) (k : Gate B) → (guard ok x >> k) ≡ pass b → (ok ≡ true) × (k ≡ pass b)
  guard_then true x k h = (refl, h)
  guard_then false x k h = cc

  require_then :
      {A : Type 0} (o : Option A) (x : Bytes) (f : A → Gate B)
      → (require o x >>= f) ≡ pass b
      → (a : A) × (o ≡ some a) × (f a ≡ pass b)
  require_then none x f h = cc
  require_then (some a) x f h = (a, refl, h)

module _ {ℓ κ} {A : Type ℓ} {B : Type κ} where
  pub >>=-eq-pass :
      (m : Gate A) (f : A → Gate B) {b : B}
      → (m >>= f) ≡ pass b
      → (a : A) × (m ≡ pass a) × (f a ≡ pass b)
  >>=-eq-pass (pass a) f h = (a, refl, h)
  >>=-eq-pass (denied x) f h = cc

pass_inj {ℓ} : {A : Type ℓ} {a b : A} → pass a ≡ pass b → a ≡ b
pass_inj e = cc

lists_cases :
    (allow : List Rule) (a d : Bool)
    → ((if is_nonempty allow && not a then false else not d) ≡ true)
      ↔ (((allow ≡ []) ⊎ (a ≡ true)) × (d ≡ false))
lists_cases [] a d = (λ h. (inl refl, ground arith), λ h. ground arith)
lists_cases (x ∷ allow) a d = (λ h. (ground arith, ground arith), λ h. ground arith)

module _ ⦃c : Unicode⦄ (s : Server) where
  lists_iff : (t : Target) → (lists_allow s t ≡ true) ↔ IsListed s t
  unfolding lists_allow
  lists_iff t =
      lists_cases s.cfg.allow_list (rules_match s.cfg.allow_list t.owner t.repo)
        (rules_match s.cfg.deny_list t.owner t.repo)

  module _ (r : Request) where
    authenticate_sound :
        {rest : Bytes}
        → authenticate s r ≡ pass rest
        → IsMethod r.method
          × (r.request_uri ≢ [])
          × (r.request_uri ≢ codes "*")
          × IsAuthentic s r rest
    unfolding authenticate
    authenticate_sound {rest} h =
        let (method, h1) = guard_then (is_method r.method) _ _ h in
        let (uri, h2) =
          guard_then (not (is_empty r.request_uri || same r.request_uri (codes "*"))) _ _ h1 in
        let (after, prefixed, h3) = require_then (cut_prefix r.request_uri s.cfg.prefix) _ _ h2 in
        let (ok, h4) = guard_then (Auth.check s.auth r.header after).1 _ _ h3 in
        let (nonempty, not_star) = (uri_iff r.request_uri).0 uri in
        (
          (IsMethod-iff r.method).0 method,
          nonempty,
          not_star,
          (
            after,
            cut_prefix-append r.request_uri s.cfg.prefix prefixed,
            (check_iff s.auth r.header after rest).0 (λ i. (pass_inj h4 i, ok i)),
          ),
        )

    authenticate_complete :
        (rest : Bytes)
        → IsMethod r.method
        → r.request_uri ≢ []
        → r.request_uri ≢ codes "*"
        → IsAuthentic s r rest
        → authenticate s r ≡ pass rest
    unfolding authenticate
    authenticate_complete rest method nonempty not_star (after, e, granted) =
        let prefixed : cut_prefix r.request_uri s.cfg.prefix ≡ some after =
          rw e (append-cut_prefix s.cfg.prefix after) in
        rw
          (
            (IsMethod-iff r.method).1 method,
            (uri_iff r.request_uri).1 (nonempty, not_star),
            prefixed,
          )
          (rw ((check_iff s.auth r.header after rest).1 granted) refl)

  resolve_sound :
      (rest : Bytes) {t : Target} {rest' : Bytes}
      → resolve s rest ≡ pass (t, rest')
      → (rest ≡ rest') × (parse_with_defaults rest s.cfg.default_hosts ≡ some t) × IsListed s t
  unfolding resolve
  resolve_sound rest h =
      let (t', parsed, h5) = require_then (parse_with_defaults rest s.cfg.default_hosts) _ _ h in
      let (listed, h6) = guard_then (lists_allow s t') _ _ h5 in
      let made : t' ≡ _ = λ i. (pass_inj h6 i).0 in
      ((λ i. (pass_inj h6 i).1), rw made at parsed, rw made at ((lists_iff t').0 listed))

  resolve_complete :
      (rest : Bytes) (t : Target)
      → parse_with_defaults rest s.cfg.default_hosts ≡ some t
      → IsListed s t
      → resolve s rest ≡ pass (t, rest)
  unfolding resolve
  resolve_complete rest t parsed listed = rw (parsed, (lists_iff t).1 listed)

  -- A request passes the gate exactly when its method is served, it is authenticated under the
  -- mount prefix, what follows names a GitHub URL, and the access lists let that through.
  pub gate_iff :
      (r : Request) (t : Target) (rest : Bytes) → (gate s r ≡ pass (t, rest)) ↔ Admits s r t rest
  unfolding gate
  gate_iff r t rest = (sound, complete)
    where
      sound : gate s r ≡ pass (t, rest) → Admits s r t rest
      sound h =
          let (rest', front, back) = >>=-eq-pass (authenticate s r) (resolve s) h in
          let (same_rest, parsed, listed) = resolve_sound rest' back in
          let (method, nonempty, not_star, authentic) =
            authenticate_sound r (front ∙ ap pass same_rest) in
          record {
            method = method;
            uri_nonempty = nonempty;
            uri_not_star = not_star;
            authentic = authentic;
            parsed = rw same_rest at parsed;
            listed = listed;
          }

      complete : Admits s r t rest → gate s r ≡ pass (t, rest)
      complete a =
          rw (authenticate_complete r rest a.method a.uri_nonempty a.uri_not_star a.authentic)
            (resolve_complete rest t a.parsed a.listed)
