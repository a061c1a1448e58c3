-- ===== src/Main/Handle/Guard.antt =====
-- The public listener as a whole: which requests lead to a request to GitHub, and what leaves then.
use gh_proxy.Base.{
  ℕ, Bool, false, ◌&&◌, Option, none, List, [], ◌++◌, ◌≡◌, ◌≢◌, ◌⊎◌, inl, inr, refl, ap, ◌∙◌,
  Bool-cases, Bytes,
}
use gh_proxy.GoLib.Strings.{Unicode}
use gh_proxy.GoLib.Url.{Url}
use gh_proxy.Ghurl.Target.{Target}
use gh_proxy.Ghurl.Safety.{IsForwardable}
use gh_proxy.Ghurl.Safety.Boundary.{parse_with_defaults-IsForwardable}
use gh_proxy.Metrics.{Recorder}
use gh_proxy.Server
use gh_proxy.Server.{
  Server, Request, Answer, respond, forward, status_page, not_found, serve, serve_status,
  status_allowed, on_status_path, new,
}
use gh_proxy.Server.Admitted.{Admits}
use gh_proxy.Server.Admitted.Stealth.{serve_lem}
use gh_proxy.Server.Admitted.Redirects.{forward_admitted, IsAuthentic-moved}
use gh_proxy.Proxy.{Options, Outgoing, with_target}
use gh_proxy.Proxy.Redirect.{Transport}
use gh_proxy.Proxy.Reverse.{Network, Served, wrote}
use gh_proxy.Proxy.Reverse.Sent.{recorder, Exchanged, serve_http-Exchanged}
use gh_proxy.Status.{Handler, Render}
use gh_proxy.Main.Handle.{Incoming, Site, as_request, as_outgoing, perform, handle}

pub Answer-cases :
    (a : Answer)
    → ((p : _) × (a ≡ respond p))
      ⊎ ((a ≡ status_page) ⊎ ((u : Url) × (base : Bytes) × (a ≡ forward u base)))
Answer-cases (respond p) = inl (p, refl)
Answer-cases status_page = inr (inl refl)
Answer-cases (forward u base) = inr (inr (u, base, refl))

module _ ⦃c : Unicode⦄ (s : Server) (r : Request) (rec : Option Recorder) where
  -- Only the pipeline forwards.
  pub serve_http-forward :
      {u : Url} {base : Bytes}
      → (Server.serve_http s r rec).0 ≡ forward u base
      → (serve s r rec).0 ≡ forward u base
  unfolding Server.serve_http serve_status
  serve_http-forward {u} {base} h = elim (Bool-cases (s.status && on_status_path s r.url_path)) [
    | inr e ↦ rw (e, Server.serve_http) at h
    | inl e ↦ elim (Bool-cases (status_allowed s r)) [
      | inl f ↦ absurd (page (rw (e, f, Server.serve_http) at h))
      | inr f ↦ absurd (rejected (rw (e, f, Server.serve_http) at h))
    ]
  ]
    where
      page : status_page ≡ forward u base → ⊥
      page k = cc

      rejected : respond not_found ≡ forward u base → ⊥
      rejected k = cc

  serve_http-off_page :
      (s.status && on_status_path s r.url_path) ≡ false → Server.serve_http s r rec ≡ serve s r rec
  unfolding Server.serve_http
  serve_http-off_page e = rw (e, Server.serve_http) refl

module _ ⦃c : Unicode⦄ ⦃d : Render⦄ {W : Type 0} ⦃n : Network W⦄ (s : Server) (page : Handler)
    (o : Options) (base : Option (Transport W)) where
  -- The public handler over a network that keeps what is sent
  abbrev pub site : Site (W × List Outgoing)
  site = record { server = s; proxy = recorder o base; page = page }

  -- What GitHub sees of a request, and what a stranger sees of the proxy
  pub record Guarded (w : W) (i : Incoming) (served : Served (W × List Outgoing)) : Type 0 where
    pub sent :
        (served.world.1 ≡ [])
        ⊎ ((t : Target) × (rest : Bytes) × (prefix : Bytes) × Admits s (as_request i) t rest
            × IsForwardable t
            × (i.request_uri ≡ prefix ++ rest)
            × Exchanged o
                (with_target (as_outgoing i) t.url prefix)
                (record { target = t.url; self_base = prefix })
                served.world.1)
    pub hidden :
        (s.status && on_status_path s i.url.path) ≡ false
        → ((t : Target) (rest : Bytes) → ¬ Admits s (as_request i) t rest)
        → served ≡ record { world = (w, []); written = wrote not_found; log = none }

  module _ (w : W) (i : Incoming) (rec : Option Recorder) (now minute : ℕ) (hung_up : Bool) where
    abbrev pub answer : Answer
    answer = (Server.serve_http s (as_request i) rec).0

    abbrev pub handled : Served (W × List Outgoing)
    handled = handle site (w, []) i rec now minute hung_up

    handled_lem : (a : Answer) → answer ≡ a → handled ≡ perform site (w, []) i now minute hung_up a
    unfolding handle
    handled_lem a e = ap (perform site (w, []) i now minute hung_up) e

    perform-quiet :
        (a : Answer)
        → ((u : Url) (prefix : Bytes) → a ≢ forward u prefix)
        → (perform site (w, []) i now minute hung_up a).world.1 ≡ []
    unfolding perform
    perform-quiet (respond p) h = refl
    perform-quiet status_page h = refl
    perform-quiet (forward u prefix) h = absurd (h u prefix refl)

    performed-Exchanged :
        (u : Url) (prefix : Bytes)
        → Exchanged o
            (with_target (as_outgoing i) u prefix)
            (record { target = u; self_base = prefix })
            (perform site (w, []) i now minute hung_up (forward u prefix)).world.1
    unfolding perform with_target
    performed-Exchanged u prefix =
        serve_http-Exchanged o base w (with_target (as_outgoing i) u prefix) hung_up _ refl

    forwarded_lem :
        (u : Url) (prefix : Bytes)
        → answer ≡ forward u prefix
        → (t : Target) × (rest : Bytes) × (prefix' : Bytes) × Admits s (as_request i) t rest
          × IsForwardable t
          × (i.request_uri ≡ prefix' ++ rest)
          × Exchanged o
              (with_target (as_outgoing i) t.url prefix')
              (record { target = t.url; self_base = prefix' })
              handled.world.1
    forwarded_lem u prefix e =
        let k = serve_http-forward s (as_request i) rec e in
        let (t, rest, a, other, same_url, same_base) = forward_admitted s (as_request i) rec k in
        (
          t,
          rest,
          prefix,
          a,
          parse_with_defaults-IsForwardable rest s.cfg.default_hosts a.parsed,
          rw same_base at ((IsAuthentic-moved s (as_request i) rest a.authentic).0),
          rw (handled_lem (forward u prefix) e, same_url) (performed-Exchanged u prefix),
        )

    pub quiet :
        (a : Answer)
        → answer ≡ a
        → ((u : Url) (prefix : Bytes) → a ≢ forward u prefix)
        → handled.world.1 ≡ []
    quiet a e h = ap (λ x. x.world.1) (handled_lem a e) ∙ perform-quiet a h

    rejected_lem :
        answer ≡ respond not_found
        → handled ≡ record { world = (w, []); written = wrote not_found; log = none }
    unfolding perform
    rejected_lem e = handled_lem (respond not_found) e

    -- Nothing is sent to GitHub for a request that is not admitted. For one that is, nothing, or a
    -- request for its target with the client's method, body and end-to-end headers, and then hops,
    -- none of them with a private header or another credential than the token for GitHub. Off the
    -- status page a request that is not admitted gets the bare 404.
    pub handle-Guarded : Guarded w i handled
    handle-Guarded = record {
      sent = elim (Answer-cases answer) [
        | inl (p, e) ↦ inl (quiet (respond p) e (λ u prefix k. cc))
        | inr (inl e) ↦ inl (quiet status_page e (λ u prefix k. cc))
        | inr (inr (u, prefix, e)) ↦ inr (forwarded_lem u prefix e)
      ];
      hidden = λ off un. elim (serve_lem s (as_request i) rec) [
        | inl (t, rest, a, e) ↦ absurd (un t rest a)
        | inr (un', (x, k, e)) ↦
            rejected_lem (ap (λ x. x.0) (serve_http-off_page s (as_request i) rec off ∙ e))
      ];
    }
