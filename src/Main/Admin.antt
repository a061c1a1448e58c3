-- ===== src/Main/Admin.antt =====
-- cmd/gh-proxy/main.go: the admin listener and the health check that asks it.
use gh_proxy.Base.{
  ℕ, ◌||◌, Option, none, some, [], ◌∷◌, ◌++◌, ◌≡◌, ◌==◌, inl, inr, refl, ◌∙◌, if◌then◌else◌,
  Option-cases, Bytes, codes, same, is_empty,
}
use gh_proxy.GoLib.Strings.{Unicode, has_prefix, trim_prefix}
use gh_proxy.Config.{Config}
use gh_proxy.Config.Normalize.{set_to}
use gh_proxy.Config.Env.{Environment, getenv, env}
use gh_proxy.Config.Load.{load}
use gh_proxy.Config.Load.Valid.{load-IsValid}
use gh_proxy.Server.{Response}
use gh_proxy.Status
use gh_proxy.Status.{Handler, Render}

abbrev healthz : Bytes → Response
healthz version = record {
  status = 200;
  header = (codes "Content-Type", codes "text/plain; charset=utf-8" ∷ []) ∷ [];
  body = codes "ok " ++ (version ++ codes "\n");
}

-- `adminHandler` on a path without dots and double slashes; `none` where `http.ServeMux` has no pattern
-- and answers by itself
unfoldable pub admin_handler :
    ⦃r : Render⦄ → Handler → Bytes → Bytes → Bytes → ℕ → ℕ → Option Response
unfolding same has_prefix trim_prefix Status.serve_http
admin_handler h version method path now minute =
    if same path (codes "/healthz")
    then some (healthz version)
    else if same path (codes "/status") || has_prefix path (codes "/status/")
    then some (Status.serve_http h method (trim_prefix path (codes "/status")) now minute)
    else if same path (codes "/metrics")
    then some (Status.serve_http h method path now minute)
    else none

-- How `healthcheck` ends
pub data Health : Type 0 where
  healthy : Health
  unreachable : Health
  bad_status : ℕ → Health

unfoldable pub health_address : ⦃e : Environment⦄ → Bytes
health_address =
    let addr = getenv (codes "GHP_ADMIN_LISTEN") in
    if is_empty addr then codes "127.0.0.1:8900" else addr

-- `healthcheck`, where `get` gives the status of the answer of a GET, or an error
unfoldable pub healthcheck : ⦃e : Environment⦄ → (Bytes → Option ℕ) → Health
unfolding health_address
healthcheck get = elim (get (codes "http://" ++ (health_address ++ codes "/healthz"))) [
  | none ↦ unreachable
  | some status ↦ if status == 200 then healthy else bad_status status
]

module _ ⦃e : Environment⦄ where
  health_address_lem : env (codes "GHP_ADMIN_LISTEN") (codes "127.0.0.1:8900") ≡ health_address
  unfolding health_address env
  health_address_lem = elim (Option-cases (e.lookup (codes "GHP_ADMIN_LISTEN"))) [
    | inl f ↦ rw (f, env) refl
    | inr (v, f) ↦ rw (f, env) refl
  ]

  -- The health check asks the listener that the configuration from the same environment names.
  pub load-health_address :
      ⦃c : Unicode⦄ {cfg : Config} → load ≡ set_to cfg → cfg.admin_listen ≡ health_address
  load-health_address loaded = (load-IsValid loaded).admin ∙ health_address_lem
