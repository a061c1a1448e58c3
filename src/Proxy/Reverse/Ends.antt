-- ===== src/Proxy/Reverse/Ends.antt =====
-- internal/proxy: how a request that was handed to the proxy ends, whatever GitHub does, and what of
-- it is logged.
use gh_proxy.Base.{
  Bool, true, false, Option, none, some, ◌≡◌, ◌≢◌, ◌⊎◌, inl, inr, refl, sym, ◌∙◌, ◌&&◌, ◌==◌,
  if◌then◌else◌, Bool-cases, Option-cases, Bytes, codes,
}
use mathlib.Core.Option
use gh_proxy.GoLib.Strings.{Unicode}
use gh_proxy.GoLib.Hop.{is_print, upgrade_type, equal_ascii}
use gh_proxy.Proxy.{
  Options, Outgoing, Reply, Failure, Problem, round_trip_failed, cannot_upgrade, Logged,
  modify_response, error_handler, redirect_oversized, target_for_log, is_over,
}
use gh_proxy.Proxy.Redirect.{Transport, Outcome, replied, failed, round_trip}
use gh_proxy.Proxy.Reverse.{
  Network, Served, Written, silent, wrote, switched, new, with_defaults, default_transport,
  outgoing, fail, upgrade, deliver, serve, serve_http,
}
use gh_proxy.Proxy.Reverse.Answers.{
  Failed, Answered, reverse, fail-Failed, deliver_lem, deliver_failed_lem, deliver-Answered,
}
use gh_proxy.Proxy.Reverse.Sent.{world-fail, world-deliver}

-- No target stands in the log line; an error may.
abbrev pub Redacted : Option Logged → Type 0
Redacted log = (log ≡ none) ⊎ ((x : Option Problem) × (log ≡ some (codes "(redacted)", x)))

-- The error stands in the log line.
abbrev pub Explains : Problem → Option Logged → Type 0
Explains problem log = (t : Bytes) × (log ≡ some (t, some problem))

module _ ⦃c : Unicode⦄ {W : Type 0} ⦃n : Network W⦄ (o : Options)
    (base : Option (Transport W)) where
  -- `RoundTrip` over the transport given, or else the default one
  abbrev pub follow : W → Outgoing → W × Outcome
  follow w out =
      round_trip ⦃t = Option.get_or base (n.connect (default_transport (with_defaults o)))⦄
        o.redirect_hosts o.max_redirects w out

  -- How `ServeHTTP` ends
  pub record Ends (w : W) (r : Outgoing) (hung_up : Bool) (s : Served W) : Type 0 where
    pub unsent : is_print (upgrade_type r.header) ≡ false → (s.world ≡ w) × Failed hung_up s.written
    pub answered :
        is_print (upgrade_type r.header) ≡ true
        → let out = outgoing (reverse o base) r in
          (s.world ≡ (follow w out).0) × Answered o base out hung_up (follow w out).1 s.written
    pub told : hung_up ≡ false → s.written ≢ silent
    pub redacted : o.log_targets ≡ false → Redacted s.log
    pub explained :
        (f : Failure)
        → is_print (upgrade_type r.header) ≡ true
        → (follow w (outgoing (reverse o base) r)).1 ≡ failed f
        → hung_up ≡ false
        → Explains (round_trip_failed f) s.log

  wrote_silent : {p : _} → wrote p ≡ silent → ⊥
  wrote_silent e = cc

  switched_silent : {p : Reply} → switched p ≡ silent → ⊥
  switched_silent e = cc

  Failed-told : (hung_up : Bool) (x : Written) → Failed hung_up x → hung_up ≡ false → x ≢ silent
  Failed-told hung_up x f e g = wrote_silent (sym (rw e at f) ∙ g)

  Answered-told :
      {out : Outgoing} (hung_up : Bool) (outcome : Outcome) (x : Written)
      → Answered o base out hung_up outcome x
      → hung_up ≡ false
      → x ≢ silent
  Answered-told hung_up (failed f) x a e g = Failed-told hung_up x (a.failing f refl) e g
  Answered-told hung_up (replied p) x a e g = elim (Bool-cases (p.status == 101)) [
    | inr h ↦ wrote_silent (sym (a.passing p refl h).as_written ∙ g)
    | inl h ↦ elim (a.switching p refl h) [
      | inl k ↦ switched_silent (sym k.0 ∙ g)
      | inr k ↦ Failed-told hung_up x k e g
    ]
  ]

  fail-Redacted :
      (r : Outgoing) (problem : Problem) (hung_up : Bool) (w : W)
      → o.log_targets ≡ false
      → Redacted (fail (reverse o base) r problem hung_up w).log
  unfolding fail new with_defaults error_handler target_for_log
  fail-Redacted r problem true w e = inl refl
  fail-Redacted r problem false w e = inr (some problem, rw e refl)

  fail-Explains :
      (r : Outgoing) (problem : Problem) (w : W)
      → Explains problem (fail (reverse o base) r problem false w).log
  unfolding fail new with_defaults error_handler
  fail-Explains r problem w = (_, refl)

  deliver-Explains :
      (out : Outgoing) (hung_up : Bool) (w : W) (outcome : Outcome) (f : Failure)
      → outcome ≡ failed f
      → hung_up ≡ false
      → Explains (round_trip_failed f) (deliver (reverse o base) out hung_up (w, outcome)).log
  deliver-Explains out hung_up w outcome f e h =
      rw (e, h)
        (rw (deliver_failed_lem o base out false w f) (fail-Explains out (round_trip_failed f) w))

  modify_response-Redacted :
      (p : Reply)
      → o.log_targets ≡ false
      → Redacted (Option.map (λ t. (t, none)) (modify_response o p).1)
  unfolding modify_response redirect_oversized target_for_log
  modify_response-Redacted p e = elim (Bool-cases (is_over o.size_limit p.content_length)) [
    | inr f ↦ inl (rw (f, modify_response) refl)
    | inl f ↦ elim (Option-cases p.request) [
      | inl g ↦ inl (simp (f, g))
      | inr (r, g) ↦ inr (none, simp (f, g, e))
    ]
  ]

  upgrade-Redacted :
      (out : Outgoing) (p : Reply) (hung_up : Bool) (w : W) (log : Option Bytes)
      → o.log_targets ≡ false
      → Redacted (Option.map (λ t. (t, none)) log)
      → Redacted (upgrade (reverse o base) out p hung_up w log).log
  unfolding upgrade
  upgrade-Redacted out p hung_up w log e h =
      elim (Bool-cases (
        is_print (upgrade_type p.header)
        && equal_ascii (upgrade_type out.header) (upgrade_type p.header)
        && p.status == 101)) [
          | inl f ↦ rw (f, upgrade) h
          | inr f ↦ rw (f, upgrade) (fail-Redacted out cannot_upgrade hung_up w e)
        ]

  deliver-Redacted :
      (out : Outgoing) (hung_up : Bool) (w : W) (outcome : Outcome)
      → o.log_targets ≡ false
      → Redacted (deliver (reverse o base) out hung_up (w, outcome)).log
  deliver-Redacted out hung_up w (failed f) e =
      rw (deliver_failed_lem o base out hung_up w f)
        (fail-Redacted out (round_trip_failed f) hung_up w e)
  deliver-Redacted out hung_up w (replied p) e = elim (Bool-cases (p.status == 101)) [
    | inl f ↦
        rw (deliver_lem o base out hung_up w p, f)
          (upgrade-Redacted out (modify_response o p).0 hung_up w (modify_response o p).1 e
            (modify_response-Redacted p e))
    | inr f ↦ rw (deliver_lem o base out hung_up w p, f) (modify_response-Redacted _ e)
  ]

  serve_http_lem :
      (w : W) (r : Outgoing) (hung_up : Bool)
      → serve_http (new o base) w r hung_up ≡ (
          if is_print (upgrade_type r.header)
          then deliver
              (reverse o base)
              (outgoing (reverse o base) r)
              hung_up
              (follow w (outgoing (reverse o base) r))
          else fail (reverse o base) r cannot_upgrade hung_up w)
  unfolding serve_http serve new with_defaults
  serve_http_lem w r hung_up = refl

  clash : {b : Bool} → b ≡ true → b ≡ false → ⊥
  clash e f = cc

  -- Where the client asks for a protocol that cannot be written, nothing is sent and it gets the 502,
  -- whose one header is its `Content-Type`. Otherwise one round trip is made, and its outcome is
  -- answered: with the answer of GitHub behind `modifyResponse`, without the headers of one
  -- connection, with the connection handed over, or with the 502. A client that is still there always
  -- gets something. No target is logged unless that is asked for; the error of a failed round trip is
  -- logged in any case where the client is still there.
  pub serve_http-Ends :
      (w : W) (r : Outgoing) (hung_up : Bool)
      → Ends w r hung_up (serve_http (new o base) w r hung_up)
  serve_http-Ends w r hung_up =
      let out = outgoing (reverse o base) r in
      let (w', outcome) = follow w out in
      let failing = fail-Failed o base r cannot_upgrade hung_up w in
      let ending = deliver-Answered o base out hung_up w' outcome in
      elim (Bool-cases (is_print (upgrade_type r.header))) [
        | inl e ↦
            rw (serve_http_lem w r hung_up, e)
              (record {
                unsent = λ f. absurd (clash e f);
                answered = λ f. (world-deliver (reverse o base) out hung_up w' outcome, ending);
                told = Answered-told hung_up outcome _ ending;
                redacted = deliver-Redacted out hung_up w' outcome;
                explained = λ f g. deliver-Explains out hung_up w' outcome f;
              })
        | inr e ↦
            rw (serve_http_lem w r hung_up, e)
              (record {
                unsent = λ f. (world-fail (reverse o base) r cannot_upgrade hung_up w, failing);
                answered = λ f. absurd (clash f e);
                told = Failed-told hung_up _ failing;
                redacted = fail-Redacted r cannot_upgrade hung_up w;
                explained = λ f g. absurd (clash g e);
              })
      ]
