-- ===== src/Proxy/Reverse/Sent.antt =====
-- internal/proxy: every request to GitHub that one request of a client leads to.
use gh_proxy.Base.{
  suc, Option, ◌≤◌, Bool, true, false, none, some, List, [], ◌∷◌, ◌++◌, ◌≡◌, ◌⊎◌, inl, inr, refl,
  sym, ap, ◌∙◌, arith, Bool-cases, Option-cases, Bytes, codes, same, is_empty, length, All, ◌==◌,
  ◌&&◌,
}
use mathlib.Core.Path.{subst}
use mathlib.Core.Option
use gh_proxy.GoLib.Strings.{Unicode, equal_fold}
use gh_proxy.GoLib.Url.{hostname}
use gh_proxy.GoLib.Header.{values}
use gh_proxy.GoLib.Hop.{is_print, upgrade_type, equal_ascii}
use gh_proxy.Proxy.{Options, Outgoing, Info, upstream_token}
use gh_proxy.Proxy.Rewrite.{is_private}
use gh_proxy.Proxy.{Problem, round_trip_failed, cannot_upgrade}
use gh_proxy.Proxy.Redirect.{Transport, Outcome, replied, failed}
use gh_proxy.Proxy.Redirect.Trace.{recording, IsHop, Hops}
use gh_proxy.Proxy.Redirect.RoundTrip.{traced, round_trip-Followed}
use gh_proxy.Proxy.Reverse.{
  Network, ReverseProxy, Proxy, Served, new, with_defaults, default_transport, outgoing, fail,
  upgrade, deliver, serve, serve_http,
}
use gh_proxy.Proxy.Reverse.Fields.{SentFor, outgoing-SentFor}

module _ {W : Type 0} (rp : ReverseProxy W) where
  pub world-fail :
      (r : Outgoing) (problem : Problem) (hung_up : Bool) (w : W)
      → (fail rp r problem hung_up w).world ≡ w
  unfolding fail
  world-fail r problem hung_up w = elim (Option-cases (rp.error_handler r.info problem hung_up)) [
    | inl e ↦ rw (e, fail) refl
    | inr (a, e) ↦ rw (e, fail) refl
  ]

  pub world-deliver :
      (out : Outgoing) (hung_up : Bool) (w : W) (o : Outcome)
      → (deliver rp out hung_up (w, o)).world ≡ w
  unfolding deliver upgrade
  world-deliver out hung_up w (failed f) = world-fail out (round_trip_failed f) hung_up w
  world-deliver out hung_up w (replied p) = elim (Bool-cases (p.status == 101)) [
    | inr e ↦ rw (e, deliver) refl
    | inl e ↦
        let q = (rp.modify_response p).0 in
        elim (Bool-cases (
          is_print (upgrade_type q.header)
          && equal_ascii (upgrade_type out.header) (upgrade_type q.header)
          && q.status == 101)) [
            | inl f ↦ rw (e, deliver) (rw (f, upgrade) refl)
            | inr f ↦ rw (e, deliver) (rw (f, upgrade) (world-fail out cannot_upgrade hung_up w))
          ]
  ]

module _ ⦃c : Unicode⦄ where
  -- Nothing on the request tells of the client or of the proxy's own secret, and its credential is
  -- the token for GitHub, or there is none.
  pub record IsAnonymous (token : Bytes) (q : Outgoing) : Type 0 where
    pub private :
        (name : Bytes)
        → is_private name ≡ true
        → same (codes "Authorization") name ≡ false
        → values q.header name ≡ []
    pub credential :
        (values q.header (codes "Authorization") ≡ [])
        ⊎ (values q.header (codes "Authorization") ≡ (codes "Bearer " ++ token) ∷ [])

  SentFor-IsAnonymous :
      {o : Options} {r : Outgoing} {info : Info} {q : Outgoing}
      → SentFor o r info q
      → IsAnonymous (upstream_token o) q
  SentFor-IsAnonymous {o} s = record {
    private = s.private;
    credential = elim (Bool-cases (is_empty (upstream_token o))) [
      | inl e ↦ inl (rw e at s.credential)
      | inr e ↦ inr (rw e at s.credential)
    ];
  }

  IsHop-IsAnonymous :
      {token : Bytes} {hosts : List Bytes} {prev r : Outgoing}
      → IsAnonymous token prev
      → IsHop hosts prev r
      → IsAnonymous token r
  IsHop-IsAnonymous {prev = prev} {r = r} a h = record {
    private = λ name e f. h.headers name f ∙ a.private name e f;
    credential = elim (Bool-cases (equal_fold (hostname prev.url) (hostname r.url))) [
      | inr e ↦ inl (h.other_host e)
      | inl e ↦
          let k = ap (λ x. values x (codes "Authorization")) (h.same_host e) in
          elim a.credential [ inl f ↦ inl (k ∙ f) | inr f ↦ inr (k ∙ f) ]
    ];
  }

  Hops-IsAnonymous :
      {token : Bytes} (hosts : List Bytes) (prev : Outgoing) (rs : List Outgoing)
      → IsAnonymous token prev
      → Hops hosts prev rs
      → All (IsAnonymous token) rs
  Hops-IsAnonymous hosts prev [] a h = tt
  Hops-IsAnonymous hosts prev (r ∷ rs) a (h, hs) =
      let b = IsHop-IsAnonymous a h in (b, Hops-IsAnonymous hosts r rs b hs)

  -- What goes to GitHub for a request whose context names a target: nothing, or a request to that
  -- target and then hops to allowed hosts, all of them anonymous, and `max_redirects` hops at most.
  pub record Exchanged (o : Options) (r : Outgoing) (info : Info) (log : List Outgoing)
      : Type 0 where
    pub chain :
        (log ≡ [])
        ⊎ ((q : Outgoing) × (rest : List Outgoing) × (log ≡ q ∷ rest)
            × SentFor o r info q
            × Hops o.redirect_hosts q rest)
    pub anonymous : All (IsAnonymous (upstream_token o)) log
    pub at_most : length log ≤ suc o.max_redirects

  module _ {W : Type 0} (o : Options) (t : Transport W) (w : W) (r : Outgoing) (info : Info) where
    nothing : Exchanged o r info []
    nothing = record { chain = inl refl; anonymous = tt; at_most = omega arith }

    followed :
        (q : Outgoing)
        → SentFor o r info q
        → Exchanged o r info (traced t o.redirect_hosts o.max_redirects w q).0.1
    followed q s =
        let f = round_trip-Followed t o.redirect_hosts o.max_redirects w q in
        let a = SentFor-IsAnonymous s in
        subst (Exchanged o r info) (sym f.requests) (record {
          chain = inr (q, f.follow_ups, refl, s, f.each_hop);
          anonymous = (a, Hops-IsAnonymous o.redirect_hosts q f.follow_ups a f.each_hop);
          at_most = omega (arith, f.at_most);
        })

    serve-Exchanged :
        (rp : ReverseProxy (W × List Outgoing)) (hung_up : Bool)
        → ((q : Outgoing) → rp.transport (w, []) q ≡ traced t o.redirect_hosts o.max_redirects w q)
        → SentFor o r info (outgoing rp r)
        → Exchanged o r info (serve rp (w, []) r hung_up).world.1
    unfolding serve
    serve-Exchanged rp hung_up follows s = elim (Bool-cases (is_print (upgrade_type r.header))) [
      | inr e ↦ rw (e, serve) (rw (world-fail rp r cannot_upgrade hung_up (w, [])) nothing)
      | inl e ↦
          let q = outgoing rp r in
          let end = rp.transport (w, []) q in
          rw (e, serve)
            (rw (world-deliver rp q hung_up end.0 end.1) (rw (follows q) (followed q s)))
    ]

  module _ {W : Type 0} ⦃n : Network W⦄ (o : Options) where
    -- The proxy over a transport, its own or the one given, that keeps what it sends
    abbrev pub recorder : Option (Transport W) → Proxy (W × List Outgoing)
    recorder base =
        new ⦃n = record { connect = λ s. recording (n.connect s) }⦄ o (Option.map recording base)

    abbrev pub recorded : Option (Transport W) → W → Outgoing → Bool → Served (W × List Outgoing)
    recorded base w r hung_up = serve_http (recorder base) (w, []) r hung_up

    recorder-SentFor :
        (base : Option (Transport W)) (r : Outgoing) (info : Info)
        → r.info ≡ some info
        → SentFor o r info (outgoing (recorder base).rp r)
    recorder-SentFor base r info e =
        outgoing-SentFor ⦃n = record { connect = λ s. recording (n.connect s) }⦄ o
          (Option.map recording base) r info e

    -- What a request whose context names a target sends to GitHub.
    pub serve_http-Exchanged :
        (base : Option (Transport W)) (w : W) (r : Outgoing) (hung_up : Bool) (info : Info)
        → r.info ≡ some info
        → Exchanged o r info (recorded base w r hung_up).world.1
    unfolding serve_http new
    serve_http-Exchanged none w r hung_up info e =
        serve-Exchanged o (n.connect (default_transport (with_defaults o))) w r info
          (recorder none).rp hung_up (λ q. refl) (recorder-SentFor none r info e)
    serve_http-Exchanged (some t) w r hung_up info e =
        serve-Exchanged o t w r info (recorder (some t)).rp hung_up (λ q. refl)
          (recorder-SentFor (some t) r info e)
