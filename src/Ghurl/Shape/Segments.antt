-- ===== src/Ghurl/Shape/Segments.antt =====
-- The segments that internal/ghurl/ghurl.go splits off a path: `firstSegment`, `ownerRepo`.
use gh_proxy.Base.{
  Bool, true, some, [], ◌∷◌, ◌≡◌, ◌≢◌, refl, ap₂, ◌∙◌, arith, ◌==◌, inl, inr, Bool-cases,
  Option-cases, Bytes,
}
use gh_proxy.GoLib.Strings.Cut.{IsCut-found, cut-IsCut, cut-append}
use gh_proxy.Ghurl.Matchers.{cut, first_segment, owner_repo, segment_of, repo_of}
use gh_proxy.Ghurl.Shape.{IsSegment, slash}

module _ {seg rest : Bytes} where
  segment_of-inv :
      (b a : Bytes) (found : Bool)
      → segment_of (b, a, found) ≡ some (seg, rest)
      → (found ≡ true) × (b ≡ seg) × (a ≡ rest) × (seg ≢ [])
  unfolding segment_of
  segment_of-inv [] a found h = absurd (ground arith)
  segment_of-inv (x ∷ b) a found h = (ground arith, ground arith, ground arith, λ e. ground arith)

  pub first_segment_sound :
      (p : Bytes)
      → first_segment p ≡ some (seg, rest)
      → (p ≡ slash seg (b'/' ∷ rest)) × IsSegment seg
  unfolding first_segment
  first_segment_sound [] h = cc
  first_segment_sound (c ∷ p) h = elim (Bool-cases (c == b'/')) [
    | inl e ↦
        let (found, eb, ea, ne) = segment_of-inv _ _ _ (rw e at h) in
        let (split, lacks) = IsCut-found _ _ (cut p) (cut-IsCut b'/' p) found in
        (ap₂ ◌∷◌ (ground arith) (rw (← eb, ← ea) split), (ne, rw (← eb) lacks))
    | inr e ↦ absurd (ground arith)
  ]

module _ {o r rest : Bytes} where
  repo_of-inv :
      (owner b a : Bytes) (found : Bool)
      → repo_of owner (b, a, found) ≡ some (o, r, rest)
      → (found ≡ true) × (owner ≡ o) × (b ≡ r) × (a ≡ rest) × (r ≢ []) × (rest ≢ [])
  unfolding repo_of
  repo_of-inv owner (x ∷ b) (y ∷ a) found h =
      (ground arith, ground arith, ground arith, ground arith, λ e. ground arith, λ e. ground arith)
  repo_of-inv owner [] a found h = absurd (ground arith)
  repo_of-inv owner b [] found h = absurd (ground arith)

  pub owner_repo_sound :
      (p : Bytes)
      → owner_repo p ≡ some (o, r, rest)
      → (p ≡ slash o (slash r (b'/' ∷ rest))) × IsSegment o × IsSegment r × (rest ≢ [])
  unfolding owner_repo
  owner_repo_sound p h = elim (Option-cases (first_segment p)) [
    | inl e ↦ absurd (ground arith)
    | inr ((owner, after), e) ↦
        let (found, eo, eb, ea, ne, ne') = repo_of-inv owner _ _ _ (rw (e, owner_repo) at h) in
        let (whole, is_owner) = first_segment_sound p e in
        let (split, lacks) = IsCut-found _ _ (cut after) (cut-IsCut b'/' after) found in
        (
          whole ∙ ap₂ (λ x y. slash x (b'/' ∷ y)) eo (rw (← eb, ← ea) split),
          rw (← eo) is_owner,
          (ne, rw (← eb) lacks),
          ne',
        )
  ]

pub first_segment_complete :
    (o rest : Bytes) → IsSegment o → first_segment (slash o (b'/' ∷ rest)) ≡ some (o, rest)
unfolding first_segment segment_of
first_segment_complete [] rest (ne, l) = absurd (ne refl)
first_segment_complete (x ∷ o) rest (ne, l) = rw (cut-append b'/' (x ∷ o) rest l)

pub owner_repo_complete :
    (o r rest : Bytes)
    → IsSegment o
    → IsSegment r
    → rest ≢ []
    → owner_repo (slash o (slash r (b'/' ∷ rest))) ≡ some (o, r, rest)
unfolding owner_repo repo_of
owner_repo_complete o [] rest io (ne, l) nr = absurd (ne refl)
owner_repo_complete o (x ∷ r) [] io ir nr = absurd (nr refl)
owner_repo_complete o (x ∷ r) (y ∷ rest) io (ne, l) nr =
    rw (first_segment_complete o _ io, owner_repo) (rw (cut-append b'/' (x ∷ r) (y ∷ rest) l))
