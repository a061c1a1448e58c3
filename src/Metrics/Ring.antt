-- ===== src/Metrics/Ring.antt =====
-- internal/metrics/metrics.go: the ring of recent events holds the last requests, newest first.
use gh_proxy.Base.{
  ℕ, zero, suc, ◌+◌, ◌-◌, ◌%◌, ◌<◌, ◌≤◌, ◌≡◌, ◌≢◌, refl, sym, ap, ap₂, ◌∙◌, arith, not, List, [],
  ◌∷◌, ltb, Bool-cases, inl, inr, length, get_or, set, take, is_empty, length-set, get_or-set_self,
  get_or-set_ne, Bytes,
}
use gh_proxy.Metrics.{
  recent_cap, Event, zero_event, Metrics, Recorder, Closing, new, finish_totals, finish_outcome,
  finish_target, event_of, finish_recent, finish_history, finish,
}
use gh_proxy.Metrics.Snapshot.{recent_loop, recent_events}

-- `es` are the events recorded so far, newest first, and the ring holds the last of them.
pub record Holds (m : Metrics) (es : List Event) : Type 0 where
  pub counted : m.recent_n ≡ length es
  pub sized : length m.recent ≡ recent_cap
  pub held :
      (i : ℕ)
      → i < recent_cap
      → i < length es
      → get_or m.recent ((m.recent_n - (i + 1)) % recent_cap) zero_event ≡ get_or es i zero_event

pub new-Holds : (version : Bytes) (now : ℕ) → Holds (new version now) []
unfolding new
new-Holds version now = record {
  counted = refl;
  sized = refl;
  held = λ i lt h. absurd (omega arith);
}

finish_recent-Holds :
    (m : Metrics) (e : Event) (es : List Event) → Holds m es → Holds (finish_recent m e) (e ∷ es)
unfolding finish_recent
finish_recent-Holds m e es h = record {
  counted = omega (arith, h.counted);
  sized = length-set m.recent (m.recent_n % recent_cap) e ∙ h.sized;
  held = go;
}
  where
    go :
        (i : ℕ)
        → i < recent_cap
        → i < suc (length es)
        → get_or
            (set m.recent (m.recent_n % recent_cap) e)
            ((m.recent_n + 1 - (i + 1)) % recent_cap)
            zero_event
          ≡ get_or (e ∷ es) i zero_event
    go zero lt k =
        let same_slot : (m.recent_n + 1 - (zero + 1)) % recent_cap ≡ m.recent_n % recent_cap =
          omega arith in
        rw same_slot (get_or-set_self m.recent _ e zero_event (omega (arith, h.sized)))
    go (suc i) lt k =
        let other : m.recent_n % recent_cap ≢ (m.recent_n + 1 - (suc i + 1)) % recent_cap =
          omega (arith, h.counted) in
        let same_slot : (m.recent_n + 1 - (suc i + 1)) % recent_cap
            ≡ (m.recent_n - (i + 1)) % recent_cap =
          omega arith in
        get_or-set_ne m.recent _ _ e zero_event other
        ∙ rw same_slot (h.held i (omega arith) (omega arith))

-- The other parts of `Finish` leave the ring alone.
Holds-by :
    (m m' : Metrics) (es : List Event)
    → m'.recent ≡ m.recent
    → m'.recent_n ≡ m.recent_n
    → Holds m es
    → Holds m' es
Holds-by m m' es r n h = record {
  counted = n ∙ h.counted;
  sized = rw r h.sized;
  held = rw (r, n) h.held;
}

outcome_keeps :
    (m : Metrics) (r : Recorder) (d : ℕ)
    → ((finish_outcome m r d).recent ≡ m.recent) × ((finish_outcome m r d).recent_n ≡ m.recent_n)
unfolding finish_outcome
outcome_keeps m r d = elim (Bool-cases (not (is_empty r.reason))) [
  | inl e ↦ rw e (refl, refl)
  | inr e ↦ elim (Bool-cases r.options) [
    | inl o ↦ rw (e, o) (refl, refl)
    | inr o ↦ rw (e, o) (refl, refl)
  ]
]

totals_keeps :
    (m : Metrics) (c : Closing) (es : List Event) → Holds m es → Holds (finish_totals m c) es
unfolding finish_totals
totals_keeps m c es h = Holds-by m _ es refl refl h

target_keeps :
    (m : Metrics) (r : Recorder) (es : List Event) → Holds m es → Holds (finish_target m r) es
unfolding finish_target
target_keeps m r es h = Holds-by m _ es refl refl h

history_keeps :
    (m : Metrics) (c : Closing) (es : List Event) → Holds m es → Holds (finish_history m c) es
unfolding finish_history
history_keeps m c es h = Holds-by m _ es refl refl h

-- A finished request is put in front of the events that the ring holds.
pub finish-Holds :
    (m : Metrics) (r : Recorder) (c : Closing) (es : List Event)
    → Holds m es
    → Holds (finish m r c) (event_of r c ∷ es)
unfolding finish
finish-Holds m r c es h =
    let d = c.now - r.start in
    let t = finish_totals m c in
    let (same_recent, same_n) = outcome_keeps t r d in
    let counted = Holds-by t (finish_outcome t r d) es same_recent same_n (totals_keeps m c es h) in
    history_keeps _ c _ (finish_recent-Holds _ (event_of r c) es (target_keeps _ r es counted))

-- Requests recorded one after the other, each with its own end; the newest first.
abbrev pub record_all : Metrics → List (Recorder × Closing) → Metrics
record_all m [] = m
record_all m ((r, c) ∷ log) = finish (record_all m log) r c

abbrev pub events_of : List (Recorder × Closing) → List Event
events_of [] = []
events_of ((r, c) ∷ log) = event_of r c ∷ events_of log

record_all-Holds :
    (m : Metrics) (log : List (Recorder × Closing))
    → Holds m []
    → Holds (record_all m log) (events_of log)
record_all-Holds m [] h = h
record_all-Holds m ((r, c) ∷ log) h =
    finish-Holds (record_all m log) r c (events_of log) (record_all-Holds m log h)

recent_loop-take :
    (m : Metrics) (k i : ℕ) (rest : List Event)
    → ((j : ℕ)
        → j < k
        → j < length rest
        → get_or m.recent ((m.recent_n - (i + j)) % recent_cap) zero_event
          ≡ get_or rest j zero_event)
    → k ≤ length rest
    → recent_loop m k i ≡ take k rest
unfolding recent_loop
recent_loop-take m zero i rest held fits = refl
recent_loop-take m (suc k) i [] held fits = absurd (omega arith)
recent_loop-take m (suc k) i (e ∷ rest) held fits =
    let first : m.recent_n - (i + 0) ≡ m.recent_n - i = omega arith in
    ap₂ ◌∷◌ (rw first at (held 0 (omega arith) (omega arith))) (
      recent_loop-take m k (i + 1) rest
        (λ j lt in_range.
          let next : m.recent_n - (i + 1 + j) ≡ m.recent_n - (i + suc j) = omega arith in
          rw next (held (suc j) (omega arith) (omega arith)))
        (omega arith))

take_all : (k : ℕ) (es : List Event) → length es ≤ k → take k es ≡ es
take_all zero [] h = refl
take_all zero (e ∷ es) h = absurd (omega arith)
take_all (suc k) [] h = refl
take_all (suc k) (e ∷ es) h = ap (◌∷◌ e) (take_all k es (omega arith))

-- The slots behind the newest, counted from one as the source counts them.
held_from_one :
    (m : Metrics) (es : List Event)
    → Holds m es
    → (j : ℕ) → j < recent_cap
    → j < length es
    → get_or m.recent ((m.recent_n - (1 + j)) % recent_cap) zero_event ≡ get_or es j zero_event
held_from_one m es h j lt fits =
    let same_index : m.recent_n - (1 + j) ≡ m.recent_n - (j + 1) = omega arith in
    rw same_index (h.held j lt fits)

recent_events-take :
    (m : Metrics) (es : List Event) → Holds m es → recent_events m ≡ take recent_cap es
unfolding recent_events
recent_events-take m es h = elim (Bool-cases (ltb recent_cap m.recent_n)) [
  | inl full ↦
      rw full
        (recent_loop-take m recent_cap 1 es (held_from_one m es h) (ground (arith, h.counted)))
  | inr room ↦
      let few : length es ≤ recent_cap = ground (arith, h.counted) in
      rw room (
        recent_loop-take m m.recent_n 1 es
          (λ j lt fits. held_from_one m es h j (omega (arith, h.counted)) fits)
          (omega (arith, h.counted)))
      ∙ ap (λ k. take k es) h.counted
      ∙ take_all (length es) es (omega arith)
      ∙ sym (take_all recent_cap es few)
]

-- The page's list is the last requests that were finished, newest first and at most twenty-five,
-- whatever their number and outcome.
pub recent_events-record_all :
    (version : Bytes) (now : ℕ) (log : List (Recorder × Closing))
    → recent_events (record_all (new version now) log) ≡ take recent_cap (events_of log)
recent_events-record_all version now log =
    recent_events-take _ (events_of log)
      (record_all-Holds (new version now) log (new-Holds version now))
