-- ===== src/Metrics/Counters.antt =====
-- internal/metrics/metrics.go: what the counters and the tables always satisfy.
use gh_proxy.Base.{
  ℕ, ◌+◌, ◌-◌, ◌%◌, ◌≤◌, ◌≡◌, refl, ◌∙◌, arith, Bool, false, not, ◌||◌, ◌&&◌, [], ◌∷◌,
  if◌then◌else◌, ltb, Bool-cases, inl, inr, length, is_empty, length-set, Bytes, same, same_iff,
}
use gh_proxy.Metrics.{
  u64, add64, repos_cap, history_minutes, Counts, has_key, bump, Event, Metrics, Recorder, Closing,
  new, status_class, finish_totals, finish_outcome, finish_target, event_of, finish_recent,
  finish_history, finish,
}

-- The sum of a table's counters, as uint64 adds them.
abbrev pub sum64 : Counts → ℕ
sum64 [] = 0
sum64 ((k, n) ∷ m) = add64 n (sum64 m)

-- No key twice.
abbrev pub Distinct : Counts → Type 0
Distinct [] = Unit
Distinct ((k, n) ∷ m) = (has_key k m ≡ false) × Distinct m

pub record Consistent (m : Metrics) : Type 0 where
  pub outcomes : m.total % u64 ≡ (m.proxied + m.denied + m.preflight) % u64
  pub by_status : sum64 m.status ≡ m.total % u64
  pub by_reason : sum64 m.reasons ≡ m.denied % u64
  pub repos_bounded : length m.repos ≤ repos_cap
  pub history_sized : length m.history ≡ history_minutes
  pub status_distinct : Distinct m.status
  pub reasons_distinct : Distinct m.reasons
  pub kinds_distinct : Distinct m.kinds
  pub repos_distinct : Distinct m.repos

sum64-bump : (k : Bytes) (m : Counts) → sum64 (bump k m) ≡ add64 (sum64 m) 1
unfolding bump
sum64-bump k [] = refl
sum64-bump k ((j, n) ∷ m) = elim (Bool-cases (same j k)) [
  | inl e ↦ rw e (omega arith)
  | inr e ↦ rw e (omega (arith, sum64-bump k m))
]

same-false_symm : (a b : Bytes) → same a b ≡ false → same b a ≡ false
same-false_symm a b h = ground (arith, same_iff a b, same_iff b a)

has_key-bump :
    (j k : Bytes) (m : Counts)
    → has_key j m ≡ false
    → same k j ≡ false
    → has_key j (bump k m) ≡ false
unfolding has_key bump
has_key-bump j k [] h ne = ground arith
has_key-bump j k ((i, n) ∷ m) h ne = elim (Bool-cases (same i k)) [
  | inl e ↦ rw e (ground arith)
  | inr e ↦ rw e (ground (arith, has_key-bump j k m))
]

bump-Distinct : (k : Bytes) (m : Counts) → Distinct m → Distinct (bump k m)
unfolding bump has_key
bump-Distinct k [] d = (refl, tt)
bump-Distinct k ((j, n) ∷ m) (fresh, d) = elim (Bool-cases (same j k)) [
  | inl e ↦ rw e (fresh, d)
  | inr e ↦ rw e (has_key-bump j k m fresh (same-false_symm j k e), bump-Distinct k m d)
]

length-bump :
    (k : Bytes) (m : Counts) → length (bump k m) ≡ (if has_key k m then length m else length m + 1)
unfolding bump has_key
length-bump k [] = refl
length-bump k ((j, n) ∷ m) = elim (Bool-cases (same j k)) [
  | inl e ↦ rw e refl
  | inr e ↦ rw e (ground (arith, length-bump k m))
]

module _ (m : Metrics) (h : Consistent m) where
  counted-Consistent :
      (c : Closing) (r : Recorder) (d : ℕ) → Consistent (finish_outcome (finish_totals m c) r d)
  unfolding finish_outcome finish_totals
  counted-Consistent c r d = elim (Bool-cases (not (is_empty r.reason))) [
    | inl e ↦ rw e (record {
      outcomes = omega (arith, h.outcomes);
      by_status = omega (arith, h.by_status, sum64-bump (status_class c.status) m.status);
      by_reason = omega (arith, h.by_reason, sum64-bump r.reason m.reasons);
      repos_bounded = h.repos_bounded;
      history_sized = h.history_sized;
      status_distinct = bump-Distinct _ m.status h.status_distinct;
      reasons_distinct = bump-Distinct _ m.reasons h.reasons_distinct;
      kinds_distinct = h.kinds_distinct;
      repos_distinct = h.repos_distinct;
    })
    | inr e ↦ elim (Bool-cases r.options) [
      | inl o ↦
          rw (e, o)
            (record {
              outcomes = omega (arith, h.outcomes);
              by_status = omega (arith, h.by_status, sum64-bump (status_class c.status) m.status);
              by_reason = h.by_reason;
              repos_bounded = h.repos_bounded;
              history_sized = h.history_sized;
              status_distinct = bump-Distinct _ m.status h.status_distinct;
              reasons_distinct = h.reasons_distinct;
              kinds_distinct = h.kinds_distinct;
              repos_distinct = h.repos_distinct;
            })
      | inr o ↦
          rw (e, o)
            (record {
              outcomes = omega (arith, h.outcomes);
              by_status = omega (arith, h.by_status, sum64-bump (status_class c.status) m.status);
              by_reason = h.by_reason;
              repos_bounded = h.repos_bounded;
              history_sized = h.history_sized;
              status_distinct = bump-Distinct _ m.status h.status_distinct;
              reasons_distinct = h.reasons_distinct;
              kinds_distinct = h.kinds_distinct;
              repos_distinct = h.repos_distinct;
            })
    ]
  ]

  target-Consistent : (r : Recorder) → Consistent (finish_target m r)
  unfolding finish_target
  target-Consistent r = record {
    outcomes = h.outcomes;
    by_status = h.by_status;
    by_reason = h.by_reason;
    repos_bounded = bounded;
    history_sized = h.history_sized;
    status_distinct = h.status_distinct;
    reasons_distinct = h.reasons_distinct;
    kinds_distinct = kinds;
    repos_distinct = repos;
  }
    where
      takes : Bool
      takes = not (is_empty r.repo) && (has_key r.repo m.repos || ltb (length m.repos) repos_cap)

      bounded : length (if takes then bump r.repo m.repos else m.repos) ≤ repos_cap
      bounded = ground (arith, h.repos_bounded, length-bump r.repo m.repos)

      repos : Distinct (if takes then bump r.repo m.repos else m.repos)
      repos = elim (Bool-cases takes) [
        | inl e ↦ rw e (bump-Distinct r.repo m.repos h.repos_distinct)
        | inr e ↦ rw e h.repos_distinct
      ]

      kinds : Distinct (if not (is_empty r.kind) then bump r.kind m.kinds else m.kinds)
      kinds = elim (Bool-cases (not (is_empty r.kind))) [
        | inl e ↦ rw e (bump-Distinct r.kind m.kinds h.kinds_distinct)
        | inr e ↦ rw e h.kinds_distinct
      ]

  recent-Consistent : (e : Event) → Consistent (finish_recent m e)
  unfolding finish_recent
  recent-Consistent e = record {
    outcomes = h.outcomes;
    by_status = h.by_status;
    by_reason = h.by_reason;
    repos_bounded = h.repos_bounded;
    history_sized = h.history_sized;
    status_distinct = h.status_distinct;
    reasons_distinct = h.reasons_distinct;
    kinds_distinct = h.kinds_distinct;
    repos_distinct = h.repos_distinct;
  }

  history-Consistent : (c : Closing) → Consistent (finish_history m c)
  unfolding finish_history
  history-Consistent c = record {
    outcomes = h.outcomes;
    by_status = h.by_status;
    by_reason = h.by_reason;
    repos_bounded = h.repos_bounded;
    history_sized = length-set m.history _ _ ∙ h.history_sized;
    status_distinct = h.status_distinct;
    reasons_distinct = h.reasons_distinct;
    kinds_distinct = h.kinds_distinct;
    repos_distinct = h.repos_distinct;
  }

-- `Finish` keeps the counters consistent with one another and the tables bounded.
pub finish-Consistent :
    (m : Metrics) (r : Recorder) (c : Closing) → Consistent m → Consistent (finish m r c)
unfolding finish
finish-Consistent m r c h =
    let counted = counted-Consistent m h c r (c.now - r.start) in
    history-Consistent _ (recent-Consistent _ (target-Consistent _ counted r) (event_of r c)) c

pub new-Consistent : (version : Bytes) (now : ℕ) → Consistent (new version now)
unfolding new
new-Consistent version now = record {
  outcomes = refl;
  by_status = refl;
  by_reason = refl;
  repos_bounded = omega arith;
  history_sized = refl;
  status_distinct = tt;
  reasons_distinct = tt;
  kinds_distinct = tt;
  repos_distinct = tt;
}
