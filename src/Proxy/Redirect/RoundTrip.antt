-- ===== src/Proxy/Redirect/RoundTrip.antt =====
-- internal/proxy/redirect.go: `RoundTrip` as a whole, for every transport underneath.
use gh_proxy.Base.{
  ℕ, zero, suc, ◌≤◌, Bool, true, false, not, ◌&&◌, List, [], ◌∷◌, ◌++◌, ◌≡◌, ◌⊎◌, inl, inr, refl,
  ap, arith, some, ◌≢◌, List-cases, Bool-cases, Option-cases, Bytes, codes, same, length,
}
use gh_proxy.GoLib.Strings.{Unicode, to_lower}
use gh_proxy.Proxy.{Outgoing, Reply}
use gh_proxy.Proxy.{Failure, transport_failed}
use gh_proxy.Proxy.Delivered.{Redirects, is_redirect_iff}
use gh_proxy.GoLib.Url.{Url, hostname}
use gh_proxy.GoLib.Url.Resolve.{resolve}
use gh_proxy.GoLib.Header.{get}
use gh_proxy.Proxy.Redirect.{
  Transport, stay, refuse, hop, judge, is_allowed, next_request, Outcome, replied, failed,
  next_move, chase, round_trip,
}
use gh_proxy.Proxy.Redirect.Trace.{recording, last, Hops, Guarded, Hops-Guarded}
use gh_proxy.Proxy.Redirect.Chased.{Chased, chase_lem, Move-cases}

-- A method whose redirects are followed
abbrev pub is_replayed : Bytes → Bool
is_replayed m = not (not (same m (codes "GET")) && not (same m (codes "HEAD")))

-- A response that leads nowhere: it is no redirect, or names no place that can be made out.
abbrev pub LeadsNowhere : ⦃c : Unicode⦄ → Outgoing → Reply → Type 0
LeadsNowhere cur p =
    (u : Url)
    → Redirects p.status
    → get p.header (codes "Location") ≢ []
    → resolve cur.url (get p.header (codes "Location")) ≡ some u
    → ⊥

module _ ⦃c : Unicode⦄ where
  judge-moves : (hosts : List Bytes) (u : Url) → judge hosts u ≡ stay → ⊥
  unfolding judge
  judge-moves hosts u h =
      elim (Bool-cases
        (not (same u.scheme (codes "http")) && not (same u.scheme (codes "https")))) [
          | inl e ↦ moves (rw (e, judge) at h)
          | inr e ↦ elim (Bool-cases (not (is_allowed hosts (to_lower (hostname u))))) [
            | inl g ↦ moves (rw (e, g, judge) at h)
            | inr g ↦ hops (rw (e, g, judge) at h)
          ]
        ]
    where
      moves : {f : Failure} → refuse f ≡ stay → ⊥
      moves k = cc

      hops : {v : Url} → hop v ≡ stay → ⊥
      hops k = cc

  stay-LeadsNowhere :
      (hosts : List Bytes) (cur : Outgoing) (p : Reply)
      → next_move hosts cur p ≡ stay
      → LeadsNowhere cur p
  unfolding next_move
  stay-LeadsNowhere hosts cur p h u far named found =
      elim (List-cases (get p.header (codes "Location"))) [
        | inl e ↦ named e
        | inr (x, xs, e) ↦
            let redirect = (is_redirect_iff p.status).1 far in
            let at_loc = rw e at found in
            judge-moves hosts u (rw (redirect, e, at_loc, next_move) at h)
      ]

module _ ⦃c : Unicode⦄ {W : Type 0} (t : Transport W) (hosts : List Bytes) where
  -- `RoundTrip` over a transport that keeps what it is given, from an empty log
  abbrev pub traced : ℕ → W → Outgoing → (W × List Outgoing) × Outcome
  traced max w req = round_trip ⦃t = recording t⦄ hosts max (w, []) req

  -- What was sent, and why it ended: the request itself and then hops, at most `max`, and none for a
  -- method that is not replayed; for one that is, a response handed back leads nowhere, or the hops are
  -- used up.
  pub record Followed (max : ℕ) (req : Outgoing) (out : (W × List Outgoing) × Outcome)
      : Type 0 where
    pub follow_ups : List Outgoing
    pub requests : out.0.1 ≡ req ∷ follow_ups
    pub each_hop : Hops hosts req follow_ups
    pub at_most : length follow_ups ≤ max
    pub unreplayed : is_replayed req.method ≡ false → follow_ups ≡ []
    pub done :
        (p : Reply)
        → out.1 ≡ replied p
        → is_replayed req.method ≡ true
        → LeadsNowhere (last req follow_ups) p ⊎ (length follow_ups ≡ max)

  alone :
      {max : ℕ} (req : Outgoing) (w : W) (o : Outcome)
      → ((p : Reply) → o ≡ replied p → is_replayed req.method ≡ true → ⊥)
      → Followed max req ((w, req ∷ []), o)
  alone req w o ended = record {
    follow_ups = [];
    requests = refl;
    each_hop = tt;
    at_most = omega arith;
    unreplayed = λ e. refl;
    done = λ p e f. absurd (ended p e f);
  }

  chain :
      {max : ℕ} (req : Outgoing) {out : (W × List Outgoing) × Outcome}
      → is_replayed req.method ≡ true
      → Chased t hosts max req (req ∷ []) out
      → Followed max req out
  chain req replays rest = record {
    follow_ups = rest.sent;
    requests = rest.logged;
    each_hop = rest.hops;
    at_most = rest.bounded;
    unreplayed = λ e. cc;
    done = λ p e f. elim (rest.settled p e) [
      | inl stays ↦ inl (stay-LeadsNowhere hosts (last req rest.sent) p stays)
      | inr used ↦ inr used
    ];
  }

  -- `RoundTrip` sends the request that it is given and then hops alone: each goes over the web to an
  -- allowed host, with the headers of the one before but for `Authorization` where the host changes.
  -- They are `max` at most, and none for a method that is not replayed. A response that it returns
  -- for one that is, is no redirect or names no place that can be made out, or the hops are used up.
  pub round_trip-Followed : (max : ℕ) (w : W) (req : Outgoing) → Followed max req (traced max w req)
  unfolding round_trip
  round_trip-Followed max w req = elim (Option-cases (t.send w req).1) [
    | inl e ↦
        rw (e, round_trip) (alone req (t.send w req).0 (failed transport_failed) (λ p f g. cc))
    | inr (p, e) ↦
        elim (Bool-cases
          (not (same req.method (codes "GET")) && not (same req.method (codes "HEAD")))) [
            | inl f ↦
                rw (e, f, round_trip)
                  (alone req (t.send w req).0 (replied p) (λ q g h. replays_not f h))
            | inr f ↦
                rw (e, f, round_trip)
                  (chain req (ap not f) (chase_lem t hosts max (t.send w req).0 (req ∷ []) req p))
          ]
  ]
    where
      replays_not :
          (not (same req.method (codes "GET")) && not (same req.method (codes "HEAD"))) ≡ true
          → is_replayed req.method ≡ true
          → ⊥
      replays_not f h = cc

  -- No more than `max` redirects are followed, whatever the other side answers: `RoundTrip` sends at
  -- most one request more than that.
  pub round_trip-bound :
      (max : ℕ) (w : W) (req : Outgoing) → length (traced max w req).0.1 ≤ suc max
  round_trip-bound max w req =
      let f = round_trip-Followed max w req in rw f.requests (omega (arith, f.at_most))

  -- The requests sent are the one given and then follow-ups, and a follow-up has no `Authorization`
  -- header once a hop before it, or the one to it, has changed the host.
  pub round_trip-Guarded :
      (max : ℕ) (w : W) (req : Outgoing)
      → (rs : List Outgoing) × ((traced max w req).0.1 ≡ req ∷ rs) × Guarded true req rs
  round_trip-Guarded max w req =
      let f = round_trip-Followed max w req in
      (f.follow_ups, f.requests, Hops-Guarded hosts true req f.follow_ups (λ e. cc) f.each_hop)

  chase-recording :
      (k : ℕ) (w : W) (log : List Outgoing) (cur : Outgoing) (p : Reply)
      → (
        (chase ⦃t = recording t⦄ hosts k (w, log) cur p).0.0,
        (chase ⦃t = recording t⦄ hosts k (w, log) cur p).1,
      )
        ≡ chase ⦃t = t⦄ hosts k w cur p
  unfolding chase
  chase-recording zero w log cur p = refl
  chase-recording (suc k) w log cur p = elim (Move-cases (next_move hosts cur p)) [
    | inl e ↦ rw (e, chase) refl
    | inr (inl (f, e)) ↦ rw (e, chase) refl
    | inr (inr (u, e)) ↦
        let r = next_request cur u in
        elim (Option-cases (t.send w r).1) [
          | inl g ↦ rw (e, chase) (rw g refl)
          | inr (q, g) ↦ rw (e, chase) (rw g (chase-recording k (t.send w r).0 (log ++ r ∷ []) r q))
        ]
  ]

  -- Keeping the requests changes neither the world nor the outcome.
  pub round_trip-recording :
      (max : ℕ) (w : W) (req : Outgoing)
      → ((traced max w req).0.0, (traced max w req).1) ≡ round_trip ⦃t = t⦄ hosts max w req
  unfolding round_trip
  round_trip-recording max w req = elim (Option-cases (t.send w req).1) [
    | inl e ↦ rw (e, round_trip) refl
    | inr (p, e) ↦
        elim (Bool-cases
          (not (same req.method (codes "GET")) && not (same req.method (codes "HEAD")))) [
            | inl f ↦ rw (e, f, round_trip) refl
            | inr f ↦ rw (e, f, round_trip) (chase-recording max (t.send w req).0 (req ∷ []) req p)
          ]
  ]
