-- ===== src/Metrics/Tests.antt =====
-- Runs of internal/metrics, and its properties at concrete requests.
use gh_proxy.Base.{codes, List, false, ◌≡◌, refl, [], ◌∷◌, pos, negsuc, take}
use gh_proxy.Metrics.{
  Metrics, Recorder, Closing, recent_cap, new, start_recording, deny, target, finish, finish_totals,
  finish_outcome, finish_target, finish_recent, finish_history, status_class, bump, has_key,
}
use gh_proxy.Metrics.Sorted.{TablesInOrder, snapshot-TablesInOrder}
use gh_proxy.Metrics.Snapshot.{snapshot, recent_events, sort_by, insert_by, by_count, less}
use gh_proxy.Metrics.Traffic.{denied, Busy, idle, arrives, marks, leaves, Balanced, Busy-Balanced}
use gh_proxy.Metrics.Ring.{record_all, events_of, recent_events-record_all}

abbrev recorder : Recorder
recorder = record {
  start = 1000;
  method = codes "GET";
  kind = codes "raw";
  repo = codes "cli/cli";
  reason = [];
  options = false;
}

abbrev closing : Closing
closing = record { status = 206; bytes = pos 512; now = 91000; minute = 75 }

abbrev cut_short : Closing
cut_short = record { status = 503; bytes = negsuc 3; now = 92000; minute = 75 }

abbrev fresh : Metrics
fresh = new (codes "v1") 0

abbrev log : List (Recorder × Closing)
log = (recorder, cut_short) ∷ ((recorder, closing) ∷ [])

finish_tests :
    ((record_all fresh log).total ≡ 2)
    × ((record_all fresh log).bytes ≡ 512)
    × ((record_all fresh log).dur_max ≡ 91000)
    × ((record_all fresh log).status ≡ (codes "2xx", 1) ∷ ((codes "5xx", 1) ∷ []))
    × ((record_all fresh log).repos ≡ (codes "cli/cli", 2) ∷ [])
unfolding new finish finish_totals finish_outcome finish_target finish_recent finish_history
    status_class bump has_key
finish_tests = (refl, refl, refl, refl, refl)

abbrev first : Metrics × Recorder
first = start_recording fresh 1000 (codes "GET")

abbrev second : Metrics × Recorder
second = start_recording first.0 2000 (codes "HEAD")

abbrev refused : Recorder
refused = deny first.1 (codes "unauthorized")

-- Two requests side by side, of which the first is denied and leaves
abbrev busy : Busy 1 (finish second.0 refused closing) (second.1 ∷ [])
busy = leaves (second.1 ∷ []) refused [] closing (
    marks (second.1 ∷ []) first.1 refused []
      (arrives 2000 (codes "HEAD") (arrives 1000 (codes "GET") (idle (codes "v1") 0)))
      (denied (codes "unauthorized")))

Busy-Balanced_example : Balanced 1 (finish second.0 refused closing) (second.1 ∷ [])
Busy-Balanced_example = Busy-Balanced busy

recent_events-record_all_example :
    recent_events (record_all fresh log) ≡ take recent_cap (events_of log)
recent_events-record_all_example = recent_events-record_all (codes "v1") 0 log

-- Three kinds, with counts 1, 2 and 1
abbrev mixed : List (Recorder × Closing)
mixed =
    (target recorder (codes "raw") (codes "a/b"), closing)
    ∷ ((target recorder (codes "git") (codes "c/d"), closing)
        ∷ ((target recorder (codes "blob") (codes "a/b"), closing)
            ∷ ((target recorder (codes "git") (codes "a/b"), cut_short) ∷ [])))

sorted_tests :
    ((snapshot (record_all fresh mixed) 95000 76).kinds
      ≡ (codes "git", 2) ∷ ((codes "blob", 1) ∷ ((codes "raw", 1) ∷ [])))
    × ((snapshot (record_all fresh mixed) 95000 76).top_repos
        ≡ (codes "a/b", 3) ∷ ((codes "c/d", 1) ∷ []))
unfolding snapshot sort_by insert_by by_count less new finish finish_totals finish_outcome
    finish_target finish_recent finish_history bump has_key target
sorted_tests = (refl, refl)

snapshot-TablesInOrder_example :
    TablesInOrder (record_all fresh mixed) (snapshot (record_all fresh mixed) 95000 76)
snapshot-TablesInOrder_example = snapshot-TablesInOrder (record_all fresh mixed) 95000 76
