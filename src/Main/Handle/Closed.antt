-- ===== src/Main/Handle/Closed.antt =====
-- The public listener with a configuration that `Load` returned.
use gh_proxy.Base.{ℕ, ◌≤◌, Bool, false, Option, [], ◌≡◌, ◌≢◌, inl, inr, length}
use gh_proxy.GoLib.Strings.{Unicode}
use gh_proxy.Metrics.{Recorder}
use gh_proxy.Config.{Config}
use gh_proxy.Config.Normalize.{set_to}
use gh_proxy.Config.Env.{Environment}
use gh_proxy.Config.Load.{load}
use gh_proxy.Server.{respond, status_page, new}
use gh_proxy.Server.Admitted.Loaded.{HasCredential, load-serve}
use gh_proxy.Proxy.{Options}
use gh_proxy.Proxy.Redirect.{Transport}
use gh_proxy.Proxy.Reverse.{Network}
use gh_proxy.Status.{Handler, Render}
use gh_proxy.Main.Handle.{Incoming, as_request}
use gh_proxy.Main.Handle.Guard.{Answer-cases, answer, handled, quiet, serve_http-forward}

module _ ⦃c : Unicode⦄ ⦃d : Render⦄ ⦃v : Environment⦄ {W : Type 0} ⦃n : Network W⦄ (cfg : Config)
    (counted : Bool) (page : Handler) (o : Options) (base : Option (Transport W)) where
  -- The program is no open relay: with a configuration that `Load` returned and that does not allow
  -- anonymous requests, the token has sixteen bytes or more, and every request of a client that leads to one to GitHub
  -- carried it, whatever the parts of the handler are.
  pub load-handle :
      (w : W) (i : Incoming) (rec : Option Recorder) (now minute : ℕ) (hung_up : Bool)
      → load ≡ set_to cfg
      → cfg.allow_anonymous ≡ false
      → (handled (new cfg counted) page o base w i rec now minute hung_up).world.1 ≢ []
      → (16 ≤ length cfg.token) × HasCredential (new cfg counted) (as_request i)
  load-handle w i rec now minute hung_up loaded on asked =
      let s = new cfg counted in
      let still = quiet s page o base w i rec now minute hung_up in
      elim (Answer-cases (answer s page o base w i rec now minute hung_up)) [
        | inl (p, e) ↦ absurd (asked (still (respond p) e (λ u prefix k. cc)))
        | inr (inl e) ↦ absurd (asked (still status_page e (λ u prefix k. cc)))
        | inr (inr (u, prefix, e)) ↦
            load-serve cfg counted (as_request i) rec loaded on
              (serve_http-forward s (as_request i) rec e)
      ]
