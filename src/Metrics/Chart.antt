-- ===== src/Metrics/Chart.antt =====
-- internal/metrics/metrics.go: the chart counts the requests of each minute of the last hour.
pub mod Record
use gh_proxy.Base.{
  ℕ, zero, suc, ◌+◌, ◌-◌, ◌%◌, ◌<◌, ◌≤◌, ◌≡◌, ◌≢◌, refl, sym, ap, ap₂, ◌∙◌, arith, not, Bool, true,
  false, List, [], ◌∷◌, ◌==◌, if◌then◌else◌, Bool-cases, inl, inr, length, get_or, set, is_empty,
  replicate, length-set, length-replicate, get_or-set_self, get_or-set_ne, Bytes,
}
use gh_proxy.Metrics.{
  add64, history_minutes, Bucket, empty_bucket, Metrics, Recorder, Closing, clamp, count_minute,
  new, finish_totals, finish_outcome, finish_target, event_of, finish_recent, finish_history,
  finish,
}
use gh_proxy.Metrics.Snapshot.{minute_of, history_loop, history_from}
use gh_proxy.Metrics.Ring.{record_all}

abbrev pub Log : Type 0
Log = List (Recorder × Closing)

-- The minute of the last request.
abbrev pub latest : Log → ℕ
latest [] = 0
latest ((r, c) ∷ log) = c.minute

-- The clock does not run backwards.
abbrev pub Ordered : Log → Type 0
Ordered [] = Unit
Ordered ((r, c) ∷ log) = (latest log ≤ c.minute) × Ordered log

-- The requests of one minute, and their bytes, counted out of the log.
unfoldable pub tally : ℕ → Log → Bucket
unfolding count_minute
tally minute [] = empty_bucket minute
tally minute ((r, c) ∷ log) =
    let rest = tally minute log in
    if c.minute == minute then count_minute rest minute (clamp c.bytes) else rest

-- The last `k` minutes up to `cur`, oldest first.
unfoldable pub chart : Log → ℕ → ℕ → List Bucket
unfolding tally
chart log cur zero = []
chart log cur (suc k) = tally (cur - k) log ∷ chart log cur k

outcome-history : (m : Metrics) (r : Recorder) (d : ℕ) → (finish_outcome m r d).history ≡ m.history
unfolding finish_outcome
outcome-history m r d = elim (Bool-cases (not (is_empty r.reason))) [
  | inl e ↦ rw e refl
  | inr e ↦ elim (Bool-cases r.options) [ inl o ↦ rw (e, o) refl | inr o ↦ rw (e, o) refl ]
]

abbrev pub slot : List Bucket → ℕ → Bucket
slot h minute = get_or h (minute % history_minutes) (empty_bucket 0)

abbrev pub counted : List Bucket → Closing → List Bucket
counted h c =
    set h (c.minute % history_minutes) (count_minute (slot h c.minute) c.minute (clamp c.bytes))

pub finish-history :
    (m : Metrics) (r : Recorder) (c : Closing) → (finish m r c).history ≡ counted m.history c
unfolding finish finish_totals finish_target finish_recent finish_history
finish-history m r c =
    ap (λ h. counted h c) (outcome-history (finish_totals m c) r (c.now - r.start))

unfoldable pub fresh : Bucket → ℕ → Bucket
fresh b minute = if b.minute == minute then b else empty_bucket minute

-- The slots after a log: none is of a later minute, and each minute of the last hour is tallied, as
-- is each that is to come.
pub record Charts (h : List Bucket) (log : Log) : Type 0 where
  pub sized : length h ≡ history_minutes
  pub past : (minute : ℕ) → (slot h minute).minute ≤ latest log
  pub tallied :
      (minute : ℕ)
      → latest log < minute + history_minutes
      → fresh (slot h minute) minute ≡ tally minute log

fresh-minute : (b : Bucket) (minute : ℕ) → (fresh b minute).minute ≡ minute
unfolding fresh
fresh-minute b minute = elim (Bool-cases (b.minute == minute)) [
  | inl e ↦ rw e (ground arith)
  | inr e ↦ rw e refl
]

pub count_minute-minute : (b : Bucket) (minute n : ℕ) → (count_minute b minute n).minute ≡ minute
unfolding count_minute fresh
count_minute-minute b minute n = fresh-minute b minute

pub eq_refl : (n : ℕ) → (n == n) ≡ true
eq_refl n = ground arith

pub fresh_own : (b : Bucket) (minute : ℕ) → b.minute ≡ minute → fresh b minute ≡ b
unfolding fresh
fresh_own b minute e = rw e (rw (eq_refl minute) refl)

pub count_minute-fresh :
    (b : Bucket) (minute n : ℕ) → count_minute (fresh b minute) minute n ≡ count_minute b minute n
unfolding count_minute fresh
count_minute-fresh b minute n =
    ap (λ (x : Bucket). record x { requests = add64 x.requests 1; bytes = add64 x.bytes n })
      (fresh_own (fresh b minute) minute (fresh-minute b minute))

-- A slot of another minute shows nothing.
pub fresh_stale :
    (b : Bucket) (minute : ℕ) → b.minute ≢ minute → fresh b minute ≡ empty_bucket minute
unfolding fresh
fresh_stale b minute ne = elim (Bool-cases (b.minute == minute)) [
  | inl e ↦ absurd (ne (ground arith))
  | inr e ↦ rw e refl
]
