-- ===== src/Proxy/Reverse/Answers.antt =====
-- internal/proxy: what a client gets for a request that was handed to the proxy.
use gh_proxy.Base.{
  arith, Bool, true, false, Option, [], ◌∷◌, ◌≡◌, ◌⊎◌, inl, inr, refl, sym, ◌∙◌, ◌||◌, ◌==◌,
  if◌then◌else◌, any, Bool-cases, Bytes, codes, same, All,
}
use mathlib.Core.Path.{subst}
use gh_proxy.GoLib.Strings.{Unicode}
use gh_proxy.GoLib.Header.{Header, values}
use gh_proxy.GoLib.Hop.{
  is_print, upgrade_type, equal_ascii, hop_headers, connection_names, remove_hop_by_hop,
  values-remove_hop_by_hop,
}
use gh_proxy.Server.{Response}
use gh_proxy.Proxy.{
  Options, Outgoing, Reply, clean_header, modify_response, error_handler, redirect_oversized,
  target_for_log,
}
use gh_proxy.Proxy.Delivered.{Delivered, modify_response-Delivered}
use gh_proxy.Proxy.Respond.{is_written, modify_response_absent}
use gh_proxy.Proxy.{Failure, Problem, round_trip_failed, cannot_upgrade}
use gh_proxy.Proxy.Redirect.{Transport, Outcome, replied, failed}
use gh_proxy.Proxy.Reverse.{
  Network, ReverseProxy, Written, silent, wrote, switched, new, with_defaults, fail, upgrade,
  deliver, pass_on,
}

-- The answer where GitHub gave none
abbrev pub bad_gateway : Response
bad_gateway = record {
  status = 502;
  header = (codes "Content-Type", codes "text/plain; charset=utf-8" ∷ []) ∷ [];
  body = codes "upstream request failed\n";
}

-- The end of a request that failed: the client is told, if it is still there.
abbrev pub Failed : Bool → Written → Type 0
Failed hung_up w = w ≡ (if hung_up then silent else wrote bad_gateway)

hop_header :
    (h : Header) (name : Bytes)
    → any (λ n. same n name) hop_headers ≡ true
    → values (remove_hop_by_hop h) name ≡ []
hop_header h name e =
    values-remove_hop_by_hop h name
    ∙ simp (e, or_true (any (λ n. same n name) (connection_names (values h (codes "Connection")))))
  where
    or_true : (b : Bool) → (b || true) ≡ true
    or_true b = ground arith

module _ ⦃c : Unicode⦄ where
  -- A response as it was written: the one that `modifyResponse` makes of it behind the
  -- removal of what concerns one connection alone, of which nothing is left.
  pub record PassedOn (o : Options) (p : Reply) (w : Written) : Type 0 where
    pub reply : Reply
    pub as_written :
        w ≡ wrote (record { status = reply.status; header = reply.header; body = reply.body })
    pub delivered : Delivered o (record p { header = remove_hop_by_hop p.header }) reply
    pub end_to_end : All (λ n. values reply.header n ≡ []) hop_headers

  module _ {W : Type 0} ⦃n : Network W⦄ (o : Options) (base : Option (Transport W)) where
    abbrev pub reverse : ReverseProxy W
    reverse = (new o base).rp

    pub fail-Failed :
        (r : Outgoing) (problem : Problem) (hung_up : Bool) (w : W)
        → Failed hung_up (fail reverse r problem hung_up w).written
    unfolding fail new error_handler
    fail-Failed r problem true w = refl
    fail-Failed r problem false w = refl

    removed_lem :
        (p : Reply)
        → All
            (λ n.
              values
                (modify_response o (record p { header = remove_hop_by_hop p.header })).0.header
                n
              ≡ [])
            hop_headers
    unfolding same
    removed_lem p = (
      gone (codes "Connection") refl refl,
      (
        gone (codes "Proxy-Connection") refl refl,
        (
          gone (codes "Keep-Alive") refl refl,
          (
            gone (codes "Proxy-Authenticate") refl refl,
            (
              gone (codes "Proxy-Authorization") refl refl,
              (
                gone (codes "Te") refl refl,
                (
                  gone (codes "Trailer") refl refl,
                  (
                    gone (codes "Transfer-Encoding") refl refl,
                    (gone (codes "Upgrade") refl refl, tt),
                  ),
                ),
              ),
            ),
          ),
        ),
      ),
    )
      where
        gone :
            (name : Bytes)
            → any (λ n. same n name) hop_headers ≡ true
            → is_written name ≡ false
            → values
                (modify_response o (record p { header = remove_hop_by_hop p.header })).0.header
                name
              ≡ []
        gone name e f =
            modify_response_absent o (record p { header = remove_hop_by_hop p.header }) name f
              (hop_header p.header name e)

    -- What the proxy makes of the outcome of its round trip: the client gets the answer that came, or
    -- is told that there was none, unless it has hung up; the connection is handed over only where
    -- GitHub switches to the protocol that was asked for.
    pub record Answered (out : Outgoing) (hung_up : Bool) (outcome : Outcome) (w : Written)
        : Type 0 where
      pub failing : (f : Failure) → outcome ≡ failed f → Failed hung_up w
      pub passing : (p : Reply) → outcome ≡ replied p → (p.status == 101) ≡ false → PassedOn o p w
      pub switching :
          (p : Reply)
          → outcome ≡ replied p
          → (p.status == 101) ≡ true
          → ((w ≡ switched (modify_response o p).0)
              × (equal_ascii (upgrade_type out.header) (upgrade_type (modify_response o p).0.header)
                  ≡ true))
            ⊎ Failed hung_up w

    replied_inj : {p q : Reply} → replied p ≡ replied q → p ≡ q
    replied_inj e = cc

    clash : {b : Bool} → b ≡ true → b ≡ false → ⊥
    clash e f = cc

    failed_replied : {f : Failure} {p : Reply} → failed f ≡ replied p → ⊥
    failed_replied e = cc

    upgrade_lem :
        (out : Outgoing) (p : Reply) (hung_up : Bool) (w : W) (log : Option Bytes)
        → let answer = (upgrade reverse out p hung_up w log).written in
          ((answer ≡ switched p)
            × (equal_ascii (upgrade_type out.header) (upgrade_type p.header) ≡ true))
          ⊎ Failed hung_up answer
    unfolding upgrade
    upgrade_lem out p hung_up w log = elim (Bool-cases (is_print (upgrade_type p.header))) [
      | inr e ↦ inr (rw (e, upgrade) (fail-Failed out cannot_upgrade hung_up w))
      | inl e ↦ elim (Bool-cases (equal_ascii (upgrade_type out.header) (upgrade_type p.header))) [
        | inr f ↦ inr (rw (e, f, upgrade) (fail-Failed out cannot_upgrade hung_up w))
        | inl f ↦ elim (Bool-cases (p.status == 101)) [
          | inr g ↦ inr (rw (e, f, g, upgrade) (fail-Failed out cannot_upgrade hung_up w))
          | inl g ↦ inl (rw (e, f, g, upgrade) (refl, refl))
        ]
      ]
    ]

    pub deliver_failed_lem :
        (out : Outgoing) (hung_up : Bool) (w : W) (f : Failure)
        → deliver reverse out hung_up (w, failed f)
          ≡ fail reverse out (round_trip_failed f) hung_up w
    unfolding deliver
    deliver_failed_lem out hung_up w f = refl

    abbrev stripped : Reply → Reply
    stripped p = record p { header = remove_hop_by_hop p.header }

    pub deliver_lem :
        (out : Outgoing) (hung_up : Bool) (w : W) (p : Reply)
        → deliver reverse out hung_up (w, replied p) ≡ (
            if p.status == 101
            then upgrade reverse out (modify_response o p).0 hung_up w (modify_response o p).1
            else pass_on w (modify_response o (stripped p)))
    unfolding deliver new with_defaults remove_hop_by_hop modify_response clean_header
        redirect_oversized target_for_log
    deliver_lem out hung_up w p = refl

    switches :
        (out : Outgoing) (hung_up : Bool) (w : W) (p : Reply)
        → (p.status == 101) ≡ true
        → Answered out hung_up
            (replied p)
            (upgrade reverse out (modify_response o p).0 hung_up w (modify_response o p).1).written
    switches out hung_up w p e = record {
      failing = λ g f. absurd (failed_replied (sym f));
      passing = λ q f g. absurd (clash (rw (replied_inj f) at e) g);
      switching = λ q f g.
          rw (← replied_inj f)
            (upgrade_lem out (modify_response o p).0 hung_up w (modify_response o p).1);
    }

    passes :
        (out : Outgoing) (hung_up : Bool) (w : W) (p : Reply)
        → (p.status == 101) ≡ false
        → Answered out hung_up (replied p) (pass_on w (modify_response o (stripped p))).written
    passes out hung_up w p e = record {
      failing = λ g f. absurd (failed_replied (sym f));
      passing = λ q f g.
          subst (λ x. PassedOn o x (pass_on w (modify_response o (stripped p))).written)
            (replied_inj f)
            (record {
              reply = (modify_response o (stripped p)).0;
              as_written = refl;
              delivered = modify_response-Delivered o (stripped p);
              end_to_end = removed_lem p;
            });
      switching = λ q f g. absurd (clash g (rw (replied_inj f) at e));
    }

    pub deliver-Answered :
        (out : Outgoing) (hung_up : Bool) (w : W) (outcome : Outcome)
        → Answered out hung_up outcome (deliver reverse out hung_up (w, outcome)).written
    deliver-Answered out hung_up w (failed f) = record {
      failing = λ g e.
          rw (deliver_failed_lem out hung_up w f) (fail-Failed out (round_trip_failed f) hung_up w);
      passing = λ p e g. absurd (failed_replied e);
      switching = λ p e g. absurd (failed_replied e);
    }
    deliver-Answered out hung_up w (replied p) = elim (Bool-cases (p.status == 101)) [
      | inl e ↦ rw (deliver_lem out hung_up w p, e) (switches out hung_up w p e)
      | inr e ↦ rw (deliver_lem out hung_up w p, e) (passes out hung_up w p e)
    ]
