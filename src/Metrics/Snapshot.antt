-- ===== src/Metrics/Snapshot.antt =====
-- internal/metrics/metrics.go: what the page reads out of the collector.
use gh_proxy.Base.{
  ℕ, zero, suc, ◌+◌, ◌-◌, ◌/◌, ◌%◌, Bool, true, false, not, ◌||◌, ◌&&◌, List, [], ◌∷◌, ◌==◌, ltb,
  if◌then◌else◌, Bytes, get_or, take,
}
use gh_proxy.Metrics.{
  recent_cap, history_minutes, Counts, Event, zero_event, Bucket, empty_bucket, Metrics,
}

-- The loop of `recentEvents`: `k` rounds left, `i` is the source's index.
unfoldable pub recent_loop : Metrics → ℕ → ℕ → List Event
recent_loop m zero i = []
recent_loop m (suc k) i =
    get_or m.recent ((m.recent_n - i) % recent_cap) zero_event ∷ recent_loop m k (i + 1)

-- `recentEvents`
unfoldable pub recent_events : Metrics → List Event
unfolding recent_loop
recent_events m = recent_loop m (if ltb recent_cap m.recent_n then recent_cap else m.recent_n) 1

-- One round of `historyFrom`, for a minute since the epoch.
unfoldable pub minute_of : Metrics → ℕ → Bucket
minute_of m minute =
    let b = get_or m.history (minute % history_minutes) (empty_bucket 0) in
    if b.minute == minute then b else empty_bucket minute

-- The loop of `historyFrom`: `k` rounds left, the next one for `i = k - 1`.
unfoldable pub history_loop : Metrics → ℕ → ℕ → List Bucket
unfolding minute_of
history_loop m cur zero = []
history_loop m cur (suc k) = minute_of m (cur - k) ∷ history_loop m cur k

-- `historyFrom`
unfoldable pub history_from : Metrics → ℕ → List Bucket
unfolding history_loop
history_from m cur = history_loop m cur history_minutes

-- `a < b` on strings: by bytes
unfoldable pub less : Bytes → Bytes → Bool
less [] [] = false
less [] (y ∷ b) = true
less (x ∷ a) [] = false
less (x ∷ a) (y ∷ b) = ltb x y || (x == y && less a b)

abbrev pub by_name : Bytes × ℕ → Bytes × ℕ → Bool
by_name p q = less p.0 q.0

-- The order of `sortByCount`
unfoldable pub by_count : Bytes × ℕ → Bytes × ℕ → Bool
unfolding less
by_count p q = if not (p.1 == q.1) then ltb q.1 p.1 else less p.0 q.0

-- `sort.Slice`, as insertion; with no two equal items every sort gives this list.
unfoldable pub insert_by : (Bytes × ℕ → Bytes × ℕ → Bool) → Bytes × ℕ → Counts → Counts
insert_by lt p [] = p ∷ []
insert_by lt p (q ∷ qs) = let rest = insert_by lt p qs in if lt q p then q ∷ rest else p ∷ (q ∷ qs)

unfoldable pub sort_by : (Bytes × ℕ → Bytes × ℕ → Bool) → Counts → Counts
unfolding insert_by
sort_by lt [] = []
sort_by lt (p ∷ ps) = insert_by lt p (sort_by lt ps)

pub record Snapshot : Type 0 where
  pub version : Bytes
  pub started_at : ℕ
  pub now : ℕ
  pub uptime : ℕ
  pub in_flight : ℕ
  pub total : ℕ
  pub proxied : ℕ
  pub denied : ℕ
  pub preflight : ℕ
  pub bytes : ℕ
  pub avg_micros : ℕ
  pub max_micros : ℕ
  pub status : Counts
  pub reasons : Counts
  pub kinds : Counts
  pub top_repos : Counts
  pub recent : List Event
  pub history : List Bucket

-- `Snapshot` at a time in nanoseconds and its minute; the averages are whole microseconds, of which
-- the source shows a thousandth.
unfoldable pub snapshot : Metrics → ℕ → ℕ → Snapshot
unfolding sort_by by_count less recent_events history_from
snapshot m now cur = record {
  version = m.version;
  started_at = m.start;
  now = now;
  uptime = now - m.start;
  in_flight = m.in_flight;
  total = m.total;
  proxied = m.proxied;
  denied = m.denied;
  preflight = m.preflight;
  bytes = m.bytes;
  avg_micros = if ltb 0 m.proxied then m.dur_sum / m.proxied / 1000 else 0;
  max_micros = m.dur_max / 1000;
  status = sort_by by_name m.status;
  reasons = sort_by by_count m.reasons;
  kinds = sort_by by_count m.kinds;
  top_repos = take 10 (sort_by by_count m.repos);
  recent = recent_events m;
  history = history_from m cur;
}
