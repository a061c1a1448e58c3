-- ===== src/Metrics/Traffic.antt =====
-- internal/metrics/metrics.go under requests that run side by side: each call of the collector and
-- of a recorder is one step, and the steps of different requests come in any order.
use gh_proxy.Base.{
  ℕ, suc, ◌+◌, ◌-◌, ◌%◌, arith, List, [], ◌∷◌, ◌++◌, ◌≡◌, refl, Bytes, Bool-cases, inl, inr, not,
  is_empty, length, length-append,
}
use gh_proxy.Metrics.{
  Metrics, Recorder, Closing, u64, new, start_recording, deny, target, mark_preflight, finish,
  finish_totals, finish_outcome, finish_target, finish_recent, finish_history,
}
use gh_proxy.Metrics.Counters.{Consistent, new-Consistent, finish-Consistent}

-- What a request does to its own recorder
pub data Marked (r : Recorder) : Recorder → Type 0 where
  denied : (reason : Bytes) → Marked r (deny r reason)
  targeted : (kind repo : Bytes) → Marked r (target r kind repo)
  preflighted : Marked r (mark_preflight r)

-- A collector after some steps: how many requests have ended, and the recorders of those that run
pub data Busy : ℕ → Metrics → List Recorder → Type 0 where
  idle : (version : Bytes) (now : ℕ) → Busy 0 (new version now) []
  arrives :
      {n : ℕ} {m : Metrics} {rs : List Recorder} (now : ℕ) (method : Bytes)
      → Busy n m rs
      → Busy n (start_recording m now method).0 ((start_recording m now method).1 ∷ rs)
  marks :
      {n : ℕ} {m : Metrics} (pre : List Recorder) (r r' : Recorder) (post : List Recorder)
      → Busy n m (pre ++ r ∷ post)
      → Marked r r'
      → Busy n m (pre ++ r' ∷ post)
  leaves :
      {n : ℕ} {m : Metrics} (pre : List Recorder) (r : Recorder) (post : List Recorder)
      (c : Closing)
      → Busy n m (pre ++ r ∷ post)
      → Busy (suc n) (finish m r c) (pre ++ post)

-- The gauge shows the requests that run, the total those that have ended, and the counters agree.
pub record Balanced (n : ℕ) (m : Metrics) (rs : List Recorder) : Type 0 where
  pub gauge : m.in_flight ≡ length rs % u64
  pub ended : m.total ≡ n % u64
  pub consistent : Consistent m

in_flight-finish :
    (m : Metrics) (r : Recorder) (c : Closing)
    → ((finish m r c).in_flight ≡ (m.in_flight + (u64 - 1)) % u64)
      × ((finish m r c).total ≡ (m.total + 1) % u64)
unfolding finish finish_totals finish_outcome finish_target finish_recent finish_history
in_flight-finish m r c = elim (Bool-cases (not (is_empty r.reason))) [
  | inl e ↦ rw e (refl, refl)
  | inr e ↦ elim (Bool-cases r.options) [
    | inl o ↦ rw (e, o) (refl, refl)
    | inr o ↦ rw (e, o) (refl, refl)
  ]
]

start-Consistent :
    (m : Metrics) (now : ℕ) (method : Bytes)
    → Consistent m
    → Consistent (start_recording m now method).0
unfolding start_recording
start-Consistent m now method h = record {
  outcomes = h.outcomes;
  by_status = h.by_status;
  by_reason = h.by_reason;
  repos_bounded = h.repos_bounded;
  history_sized = h.history_sized;
  status_distinct = h.status_distinct;
  reasons_distinct = h.reasons_distinct;
  kinds_distinct = h.kinds_distinct;
  repos_distinct = h.repos_distinct;
}

idle_lem : (version : Bytes) (now : ℕ) → Balanced 0 (new version now) []
unfolding new
idle_lem version now = record {
  gauge = refl;
  ended = refl;
  consistent = new-Consistent version now;
}

arrives_lem :
    {n : ℕ} {m : Metrics} {rs : List Recorder} (now : ℕ) (method : Bytes)
    → Balanced n m rs
    → Balanced n (start_recording m now method).0 ((start_recording m now method).1 ∷ rs)
unfolding start_recording
arrives_lem now method b = record {
  gauge = omega (arith, b.gauge);
  ended = b.ended;
  consistent = start-Consistent _ now method b.consistent;
}

leaves_lem :
    {n : ℕ} {m : Metrics} (pre : List Recorder) (r : Recorder) (post : List Recorder) (c : Closing)
    → Balanced n m (pre ++ r ∷ post)
    → Balanced (suc n) (finish m r c) (pre ++ post)
leaves_lem {m = m} pre r post c b = record {
  gauge = omega (
    arith,
    b.gauge,
    (in_flight-finish m r c).0,
    length-append pre (r ∷ post),
    length-append pre post,
  );
  ended = omega (arith, b.ended, (in_flight-finish m r c).1);
  consistent = finish-Consistent m r c b.consistent;
}

-- Whatever order the steps of requests that run side by side come in, the gauge of requests in
-- flight shows, up to the wrap-around of its counter, the requests that have arrived and not left,
-- the total those that have left, the counters agree with one another, and the tables are bounded
-- and without duplicate keys.
pub Busy-Balanced : {n : ℕ} {m : Metrics} {rs : List Recorder} → Busy n m rs → Balanced n m rs
Busy-Balanced (idle version now) = idle_lem version now
Busy-Balanced (arrives now method b) = arrives_lem now method (Busy-Balanced b)
Busy-Balanced (marks pre r r' post b mark) =
    let before = Busy-Balanced b in
    record {
      gauge =
          omega (arith, before.gauge, length-append pre (r ∷ post), length-append pre (r' ∷ post));
      ended = before.ended;
      consistent = before.consistent;
    }
Busy-Balanced (leaves pre r post c b) = leaves_lem pre r post c (Busy-Balanced b)
