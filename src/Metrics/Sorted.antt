-- ===== src/Metrics/Sorted.antt =====
-- internal/metrics/metrics.go: the sorted tables of a snapshot.
use gh_proxy.Base.{
  ℕ, Bool, true, false, ◌&&◌, ◌||◌, ◌==◌, ltb, [], ◌∷◌, ◌≡◌, refl, arith, Bool-cases, inl, inr,
  Bytes, take,
}
use mathlib.Core.List.{Mem, Perm, Pairwise, Pairwise-singleton, forall_mem-cons, mem-cons_self}
use mathlib.Core.List.Pairwise
use mathlib.Core.List.Perm
use mathlib.Core.Path.{ap₂}
use gh_proxy.Metrics.{Counts, Metrics}
use gh_proxy.Metrics.Snapshot.{less, by_name, by_count, insert_by, sort_by, Snapshot, snapshot}

abbrev pub Item : Type 0
Item = Bytes × ℕ

-- A name is another one or stands before it, byte by byte.
abbrev pub at_most : Bytes → Bytes → Bool
at_most [] b = true
at_most (x ∷ a) [] = false
at_most (x ∷ a) (y ∷ b) = ltb x y || (x == y && at_most a b)

-- The order of the page: by name, or the greater count first and equal counts by name
abbrev pub named_before : Item → Item → Bool
named_before (a, n) (b, k) = at_most a b

abbrev pub ranked_before : Item → Item → Bool
ranked_before (a, n) (b, k) = ltb k n || (n == k && at_most a b)

-- Every item is before all that come after it.
abbrev pub InOrder : (Item → Item → Bool) → Counts → Type 0
InOrder le = Pairwise (λ p q. le p q ≡ true)

at_most_refl : (a : Bytes) → at_most a a ≡ true
at_most_refl [] = refl
at_most_refl (x ∷ a) = ground (arith, at_most_refl a)

at_most_trans : (a b d : Bytes) → at_most a b ≡ true → at_most b d ≡ true → at_most a d ≡ true
at_most_trans [] b d h k = refl
at_most_trans (x ∷ a) [] d h k = absurd cc
at_most_trans (x ∷ a) (y ∷ b) [] h k = absurd cc
at_most_trans (x ∷ a) (y ∷ b) (z ∷ d) h k = ground (arith, at_most_trans a b d)

at_most_antisymm : (a b : Bytes) → at_most a b ≡ true → at_most b a ≡ true → a ≡ b
at_most_antisymm [] [] h k = refl
at_most_antisymm [] (y ∷ b) h k = absurd cc
at_most_antisymm (x ∷ a) [] h k = absurd cc
at_most_antisymm (x ∷ a) (y ∷ b) h k =
    let heads : x ≡ y = ground arith in
    let below : at_most a b ≡ true = ground arith in
    let above : at_most b a ≡ true = ground arith in
    ap₂ ◌∷◌ heads (at_most_antisymm a b below above)

less-at_most :
    (a b : Bytes) → (less a b ≡ true → at_most a b ≡ true) × (less a b ≡ false → at_most b a ≡ true)
unfolding less
less-at_most [] [] = (λ h. refl, λ h. refl)
less-at_most [] (y ∷ b) = (λ h. refl, λ h. absurd cc)
less-at_most (x ∷ a) [] = (λ h. absurd cc, λ h. refl)
less-at_most (x ∷ a) (y ∷ b) =
    let (before, behind) = less-at_most a b in
    (λ h. ground (arith, before), λ h. ground (arith, behind))

ranked_trans :
    (p q r : Item) → ranked_before p q ≡ true → ranked_before q r ≡ true → ranked_before p r ≡ true
ranked_trans (a, n) (b, k) (d, m) h g = ground (arith, at_most_trans a b d)

ranked_antisymm : (p q : Item) → ranked_before p q ≡ true → ranked_before q p ≡ true → p ≡ q
ranked_antisymm (a, n) (b, k) h g =
    let counts : n ≡ k = ground arith in
    let below : at_most a b ≡ true = ground arith in
    let above : at_most b a ≡ true = ground arith in
    ap₂ (λ x y. (x, y)) (at_most_antisymm a b below above) counts

-- A test of the code agrees with an order of the page.
record Agrees (lt le : Item → Item → Bool) : Type 0 where
  before : (p q : Item) → lt p q ≡ true → le p q ≡ true
  behind : (p q : Item) → lt p q ≡ false → le q p ≡ true
  trans : (p q r : Item) → le p q ≡ true → le q r ≡ true → le p r ≡ true

by_name-Agrees : Agrees by_name named_before
by_name-Agrees = record {
  before = λ p q. (less-at_most p.0 q.0).0;
  behind = λ p q. (less-at_most p.0 q.0).1;
  trans = λ p q r. at_most_trans p.0 q.0 r.0;
}

by_count-Agrees : Agrees by_count ranked_before
unfolding by_count
by_count-Agrees = record {
  before = λ p q h. ground (arith, less-at_most p.0 q.0);
  behind = λ p q h. ground (arith, less-at_most p.0 q.0);
  trans = ranked_trans;
}

module _ (lt : Item → Item → Bool) where
  insert_by-Perm : (p : Item) (qs : Counts) → Perm (insert_by lt p qs) (p ∷ qs)
  unfolding insert_by
  insert_by-Perm p [] = Perm.refl (p ∷ [])
  insert_by-Perm p (q ∷ qs) = elim (Bool-cases (lt q p)) [
    | inl e ↦ rw e (Perm.trans (Perm.cons q (insert_by-Perm p qs)) (Perm.swap p q qs))
    | inr e ↦ rw e (Perm.refl (p ∷ (q ∷ qs)))
  ]

  sort_by-Perm : (ps : Counts) → Perm (sort_by lt ps) ps
  unfolding sort_by
  sort_by-Perm [] = Perm.refl []
  sort_by-Perm (p ∷ ps) =
      Perm.trans (insert_by-Perm p (sort_by lt ps)) (Perm.cons p (sort_by-Perm ps))

module _ (le : Item → Item → Bool) where
  -- An item is before all of a list.
  abbrev Ahead : Item → Counts → Type 0
  Ahead p qs = (q : Item) → Mem q qs → le p q ≡ true

  Ahead-cons : {p q : Item} {qs : Counts} → le p q ≡ true → Ahead p qs → Ahead p (q ∷ qs)
  Ahead-cons {p} {q} {qs} first rest = (forall_mem-cons (λ x. hlevel)).1 (first, rest)

  Ahead-perm : {p : Item} {qs rs : Counts} → Perm qs rs → Ahead p rs → Ahead p qs
  Ahead-perm same_items h q m = h q ((Perm.mem_iff same_items).0 m)

module _ (lt le : Item → Item → Bool) (agrees : Agrees lt le) where
  insert_by-InOrder : (p : Item) (qs : Counts) → InOrder le qs → InOrder le (insert_by lt p qs)
  unfolding insert_by
  insert_by-InOrder p [] h = Pairwise-singleton _ p
  insert_by-InOrder p (q ∷ qs) (Pairwise.cons ahead rest) = elim (Bool-cases (lt q p)) [
    | inl e ↦ rw e (
        Pairwise.cons
          (Ahead-perm le (insert_by-Perm lt p qs) (Ahead-cons le (agrees.before q p e) ahead))
          (insert_by-InOrder p qs rest))
    | inr e ↦
        let first = agrees.behind q p e in
        rw e (
          Pairwise.cons (Ahead-cons le first λ r m. agrees.trans p q r first (ahead r m))
            (Pairwise.cons ahead rest))
  ]

  sort_by-InOrder : (ps : Counts) → InOrder le (sort_by lt ps)
  unfolding sort_by
  sort_by-InOrder [] = Pairwise.nil
  sort_by-InOrder (p ∷ ps) = insert_by-InOrder p (sort_by lt ps) (sort_by-InOrder ps)

module _ (le : Item → Item → Bool) (reflexive : (p : Item) → le p p ≡ true)
    (antisymm : (p q : Item) → le p q ≡ true → le q p ≡ true → p ≡ q) where
  heads_lem :
      {p q : Item} {ps qs : Counts} → InOrder le (p ∷ ps) → Perm (q ∷ qs) (p ∷ ps) → le p q ≡ true
  heads_lem {p} {q} (Pairwise.cons ahead rest) same_items =
      Ahead-perm le same_items (Ahead-cons le (reflexive p) ahead) q mem-cons_self

  -- A table has one rearrangement in order.
  InOrder-eq_of_perm : (ps qs : Counts) → InOrder le ps → InOrder le qs → Perm ps qs → ps ≡ qs
  InOrder-eq_of_perm [] qs h k m = Perm.nil-eq m
  InOrder-eq_of_perm (p ∷ ps) [] h k m = Perm.eq-nil m
  InOrder-eq_of_perm (p ∷ ps) (q ∷ qs) h k m =
      let heads = antisymm p q (heads_lem h (Perm.symm m)) (heads_lem k m) in
      let tails = Perm.cons_inv (Perm.trans m (Perm.symm (Perm.cons' heads Perm.rfl))) in
      ap₂ ◌∷◌ heads (InOrder-eq_of_perm ps qs (Pairwise.of_cons h) (Pairwise.of_cons k) tails)

ranked_refl : (p : Item) → ranked_before p p ≡ true
ranked_refl (a, n) = ground (arith, at_most_refl a)

-- `out` is the table with the greater counts first, and whatever sorts the table so gives `out`.
pub record IsRanked (table out : Counts) : Type 0 where
  pub order : InOrder ranked_before out
  pub kept : Perm out table
  pub only : (other : Counts) → InOrder ranked_before other → Perm other table → other ≡ out

-- The tables of the snapshot against those of the collector
pub record TablesInOrder (m : Metrics) (s : Snapshot) : Type 0 where
  pub status_order : InOrder named_before s.status
  pub status_kept : Perm s.status m.status
  pub reasons : IsRanked m.reasons s.reasons
  pub kinds : IsRanked m.kinds s.kinds
  pub repos_top : (every : Counts) × IsRanked m.repos every × (s.top_repos ≡ take 10 every)

ranked : (table : Counts) → IsRanked table (sort_by by_count table)
ranked table =
    let order = sort_by-InOrder by_count ranked_before by_count-Agrees table in
    let kept = sort_by-Perm by_count table in
    record {
      order = order;
      kept = kept;
      only = λ other sorted same_items.
          InOrder-eq_of_perm ranked_before ranked_refl ranked_antisymm other
            (sort_by by_count table) sorted order (Perm.trans same_items (Perm.symm kept));
    }

-- The tables of a snapshot are those of the collector, in order: the status classes by name; the
-- reasons and the kinds with the greater count first and equal counts by name, the one rearrangement
-- that is so; and the repositories the first ten of that.
pub snapshot-TablesInOrder : (m : Metrics) (now cur : ℕ) → TablesInOrder m (snapshot m now cur)
unfolding snapshot
snapshot-TablesInOrder m now cur = record {
  status_order = sort_by-InOrder by_name named_before by_name-Agrees m.status;
  status_kept = sort_by-Perm by_name m.status;
  reasons = ranked m.reasons;
  kinds = ranked m.kinds;
  repos_top = (sort_by by_count m.repos, ranked m.repos, refl);
}
