-- ===== src/GoLib/Strings/CutAt.antt =====
-- Laws of `strings.Cut` at a substring.
use gh_proxy.Base.{
  ℕ, ◌≤◌, none, some, [], ◌∷◌, ◌++◌, ◌≡◌, sym, ap, ◌∙◌, arith, inl, inr, Option-cases, Bytes,
  length, some_inj,
}
use gh_proxy.GoLib.Strings.{cut_prefix, cut_at}
use gh_proxy.GoLib.Strings.Cut.{cut_prefix-append, append-cut_prefix}

-- The text is its first part, the separator and the rest, and the separator stands in no earlier place.
pub record IsCutAt (sep s before after : Bytes) : Type 0 where
  pub split : s ≡ before ++ (sep ++ after)
  pub first : (b a : Bytes) → s ≡ b ++ (sep ++ a) → length before ≤ length b

-- The separator stands nowhere in the text.
abbrev pub IsApart : Bytes → Bytes → Type 0
IsApart sep s = (b a : Bytes) → s ≡ b ++ (sep ++ a) → ⊥

tail_lem : {c d : ℕ} {s t : Bytes} → c ∷ s ≡ d ∷ t → s ≡ t
tail_lem e = cc

-- A text that does not start with the separator has it in its rest, or nowhere.
not_first : (sep s a : Bytes) → cut_prefix s sep ≡ none → s ≡ sep ++ a → ⊥
not_first sep s a e h = clash (sym e ∙ (ap (λ x. cut_prefix x sep) h ∙ append-cut_prefix sep a))
  where
    clash : {x : Bytes} → none ≡ some x → ⊥
    clash k = cc

pub cut_at-IsApart : (sep s : Bytes) → cut_at sep s ≡ none → IsApart sep s
unfolding cut_at
cut_at-IsApart sep [] h [] a e = elim (Option-cases (cut_prefix [] sep)) [
  | inl k ↦ not_first sep [] a k e
  | inr (r, k) ↦ absurd (some_none (rw (k, cut_at) at h))
]
  where
    some_none : {x : Bytes × Bytes} → some x ≡ none → ⊥
    some_none k = cc
cut_at-IsApart sep [] h (x ∷ b) a e = absurd cc
cut_at-IsApart sep (c ∷ s) h b a e = elim (Option-cases (cut_prefix (c ∷ s) sep)) [
  | inr (r, k) ↦ absurd (some_none (rw (k, cut_at) at h))
  | inl k ↦ elim (Option-cases (cut_at sep s)) [
    | inr (r, m) ↦ absurd (some_none (rw (k, m, cut_at) at h))
    | inl m ↦ within k (cut_at-IsApart sep s m) b e
  ]
]
  where
    some_none : {x : Bytes × Bytes} → some x ≡ none → ⊥
    some_none k = cc

    within :
        cut_prefix (c ∷ s) sep ≡ none → IsApart sep s → (b : Bytes) → c ∷ s ≡ b ++ (sep ++ a) → ⊥
    within k apart [] f = not_first sep (c ∷ s) a k f
    within k apart (x ∷ b) f = apart b a (tail_lem f)

pub cut_at-IsCutAt :
    (sep s : Bytes) {before after : Bytes}
    → cut_at sep s ≡ some (before, after)
    → IsCutAt sep s before after
unfolding cut_at
cut_at-IsCutAt sep [] {before} {after} h = elim (Option-cases (cut_prefix [] sep)) [
  | inl k ↦ absurd (nothing (rw (k, cut_at) at h))
  | inr (r, k) ↦
      let made = some_inj (rw (k, cut_at) at h) in
      record {
        split = cut_prefix-append [] sep k ∙ (λ i. (made i).0 ++ (sep ++ (made i).1));
        first = λ b a e. let front : [] ≡ before = λ i. (made i).0 in rw (← front) (omega arith);
      }
]
  where
    nothing : {x : Bytes × Bytes} → none ≡ some x → ⊥
    nothing k = cc
cut_at-IsCutAt sep (c ∷ s) {before} {after} h = elim (Option-cases (cut_prefix (c ∷ s) sep)) [
  | inr (r, k) ↦
      let made = some_inj (rw (k, cut_at) at h) in
      record {
        split = cut_prefix-append (c ∷ s) sep k ∙ (λ i. (made i).0 ++ (sep ++ (made i).1));
        first = λ b a e. let front : [] ≡ before = λ i. (made i).0 in rw (← front) (omega arith);
      }
  | inl k ↦ elim (Option-cases (cut_at sep s)) [
    | inl m ↦ absurd (nothing (rw (k, m, cut_at) at h))
    | inr ((b0, a0), m) ↦
        let made = some_inj (rw (k, m, cut_at) at h) in
        let inner = cut_at-IsCutAt sep s m in
        record {
          split = ap (◌∷◌ c) inner.split ∙ (λ i. (made i).0 ++ (sep ++ (made i).1));
          first = λ b a e.
              let front : c ∷ b0 ≡ before = λ i. (made i).0 in
              rw (← front) (earlier k b0 (λ b a. inner.first b a) b a e);
        }
  ]
]
  where
    nothing : {x : Bytes × Bytes} → none ≡ some x → ⊥
    nothing k = cc

    earlier :
        cut_prefix (c ∷ s) sep ≡ none
        → (b0 : Bytes) → ((b a : Bytes) → s ≡ b ++ (sep ++ a) → length b0 ≤ length b)
        → (b a : Bytes) → c ∷ s ≡ b ++ (sep ++ a)
        → length (c ∷ b0) ≤ length b
    earlier k b0 inner [] a f = absurd (not_first sep (c ∷ s) a k f)
    earlier k b0 inner (x ∷ b) a f = let shorter = inner b a (tail_lem f) in omega (arith, shorter)
