-- ===== src/Metrics.antt =====
-- internal/metrics/metrics.go: the collector's state, and the recording of one request. Times are
-- nanoseconds and minutes since the epoch, handed in by the caller. A map is an association list.
pub mod Snapshot
pub mod Counters
pub mod Ring
pub mod Chart
pub mod Sorted
pub mod Traffic
mod Tests
use gh_proxy.Base.{
  ℕ, zero, suc, ◌+◌, ◌-◌, ◌*◌, ◌/◌, ◌%◌, ◌^◌, Bool, true, false, not, ◌&&◌, ◌||◌, Option, none,
  some, List, [], ◌∷◌, ◌==◌, ltb, if◌then◌else◌, Bytes, codes, same, is_empty, length, set,
  replicate, get_or, ℤ, pos, negsuc,
}

abbrev pub recent_cap : ℕ
recent_cap = 25

abbrev pub repos_cap : ℕ
repos_cap = 1000

abbrev pub history_minutes : ℕ
history_minutes = 60

-- uint64 and int64 addition, on bit patterns
abbrev pub u64 : ℕ
u64 = 2 ^ 64

abbrev pub add64 : ℕ → ℕ → ℕ
add64 a b = (a + b) % u64

-- `map[string]uint64`
abbrev pub Counts : Type 0
Counts = List (Bytes × ℕ)

unfoldable pub has_key : Bytes → Counts → Bool
unfolding same
has_key k [] = false
has_key k ((j, n) ∷ m) = same j k || has_key k m

-- `m[k]++`
unfoldable pub bump : Bytes → Counts → Counts
unfolding same
bump k [] = (k, 1) ∷ []
bump k ((j, n) ∷ m) = let rest = bump k m in if same j k then (j, add64 n 1) ∷ m else (j, n) ∷ rest

pub record Event : Type 0 where
  pub at : ℕ
  pub method : Bytes
  pub kind : Bytes
  pub repo : Bytes
  pub status : ℕ
  pub bytes : ℕ
  pub micros : ℕ
  pub reason : Bytes

abbrev pub zero_event : Event
zero_event = record {
  at = 0;
  method = [];
  kind = [];
  repo = [];
  status = 0;
  bytes = 0;
  micros = 0;
  reason = [];
}

pub record Bucket : Type 0 where
  pub minute : ℕ
  pub requests : ℕ
  pub bytes : ℕ

abbrev pub empty_bucket : ℕ → Bucket
empty_bucket minute = record { minute = minute; requests = 0; bytes = 0 }

pub record Metrics : Type 0 where
  pub version : Bytes
  pub start : ℕ
  pub in_flight : ℕ
  pub total : ℕ
  pub proxied : ℕ
  pub denied : ℕ
  pub preflight : ℕ
  pub bytes : ℕ
  pub dur_sum : ℕ
  pub dur_max : ℕ
  pub status : Counts
  pub reasons : Counts
  pub kinds : Counts
  pub repos : Counts
  pub recent : List Event
  pub recent_n : ℕ
  pub history : List Bucket

-- `New`
unfoldable pub new : Bytes → ℕ → Metrics
new version now = record {
  version = version;
  start = now;
  in_flight = 0;
  total = 0;
  proxied = 0;
  denied = 0;
  preflight = 0;
  bytes = 0;
  dur_sum = 0;
  dur_max = 0;
  status = [];
  reasons = [];
  kinds = [];
  repos = [];
  recent = replicate recent_cap zero_event;
  recent_n = 0;
  history = replicate history_minutes (empty_bucket 0);
}

-- One request's outcome; the collector is passed beside it.
pub record Recorder : Type 0 where
  pub start : ℕ
  pub method : Bytes
  pub kind : Bytes
  pub repo : Bytes
  pub reason : Bytes
  pub options : Bool

-- `Start` of a collector that is there
unfoldable pub start_recording : Metrics → ℕ → Bytes → Metrics × Recorder
start_recording m now method = (
  record m { in_flight = add64 m.in_flight 1 },
  record { start = now; method = method; kind = []; repo = []; reason = []; options = false },
)

-- `Deny`
unfoldable pub deny : Recorder → Bytes → Recorder
deny r reason = record r { reason = reason }

-- `Target`
unfoldable pub target : Recorder → Bytes → Bytes → Recorder
target r kind repo = record r { kind = kind; repo = repo }

-- `Preflight`
unfoldable pub mark_preflight : Recorder → Recorder
mark_preflight r = record r { options = true }

-- `statusClass`
unfoldable pub status_class : ℕ → Bytes
status_class status =
    let class = status / 100 in
    if class == 1
    then codes "1xx"
    else if class == 2
    then codes "2xx"
    else if class == 3
    then codes "3xx"
    else if class == 4
    then codes "4xx"
    else if class == 5
    then codes "5xx"
    else codes "other"

-- `if bytes < 0 { bytes = 0 }`
abbrev pub clamp : ℤ → ℕ
clamp (pos n) = n
clamp (negsuc n) = 0

-- What a call of `Finish` sees: the status, the bytes, and the clock.
pub record Closing : Type 0 where
  pub status : ℕ
  pub bytes : ℤ
  pub now : ℕ
  pub minute : ℕ

-- The counters that every request moves.
unfoldable pub finish_totals : Metrics → Closing → Metrics
finish_totals m c = record m {
  in_flight = add64 m.in_flight (u64 - 1);
  total = add64 m.total 1;
  bytes = add64 m.bytes (clamp c.bytes);
  status = bump (status_class c.status) m.status;
}

-- The switch on the outcome.
unfoldable pub finish_outcome : Metrics → Recorder → ℕ → Metrics
finish_outcome m r d =
    if not (is_empty r.reason)
    then record m { denied = add64 m.denied 1; reasons = bump r.reason m.reasons }
    else if r.options
    then record m { preflight = add64 m.preflight 1 }
    else record m {
      proxied = add64 m.proxied 1;
      dur_sum = m.dur_sum + d;
      dur_max = if ltb m.dur_max d then d else m.dur_max;
    }

-- The kind and the repository; a full table takes no new repository.
unfoldable pub finish_target : Metrics → Recorder → Metrics
finish_target m r = record m {
  kinds = if not (is_empty r.kind) then bump r.kind m.kinds else m.kinds;
  repos =
      if not (is_empty r.repo) && (has_key r.repo m.repos || ltb (length m.repos) repos_cap)
      then bump r.repo m.repos
      else m.repos;
}

unfoldable pub event_of : Recorder → Closing → Event
event_of r c = record {
  at = c.now;
  method = r.method;
  kind = r.kind;
  repo = r.repo;
  status = c.status;
  bytes = clamp c.bytes;
  micros = (c.now - r.start) / 1000;
  reason = r.reason;
}

-- The ring of recent events.
unfoldable pub finish_recent : Metrics → Event → Metrics
finish_recent m e = record m {
  recent = set m.recent (m.recent_n % recent_cap) e;
  recent_n = m.recent_n + 1;
}

-- A slot of the chart, after one more request in `minute`.
unfoldable pub count_minute : Bucket → ℕ → ℕ → Bucket
count_minute b minute n =
    let fresh = if b.minute == minute then b else empty_bucket minute in
    record fresh { requests = add64 fresh.requests 1; bytes = add64 fresh.bytes n }

unfoldable pub finish_history : Metrics → Closing → Metrics
unfolding count_minute
finish_history m c =
    let i = c.minute % history_minutes in
    let slot = get_or m.history i (empty_bucket 0) in
    record m { history = set m.history i (count_minute slot c.minute (clamp c.bytes)) }

-- `Finish`
unfoldable pub finish : Metrics → Recorder → Closing → Metrics
finish m r c =
    let counted = finish_outcome (finish_totals m c) r (c.now - r.start) in
    finish_history (finish_recent (finish_target counted r) (event_of r c)) c
