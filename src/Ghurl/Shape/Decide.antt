-- ===== src/Ghurl/Shape/Decide.antt =====
-- The matchers of internal/ghurl/ghurl.go decide the path grammar.
use gh_proxy.Base.{
  ℕ, Bool, true, false, ◌||◌, Option, none, some, List, [], ◌∷◌, ◌++◌, ◌≡◌, ◌≢◌, refl, sym, ◌∙◌,
  arith, ◌⊎◌, inl, inr, ◌↔◌, Bytes, Lacks, codes, same, same_iff, same_refl,
}
use gh_proxy.GoLib.Strings.Cut.{IsCut, IsCut-found, cut-IsCut, cut-append}
use gh_proxy.Ghurl.Matchers.{
  Kind, invalid, release, blob, git, tags, raw, gist, cut, first_segment, owner_repo, owner_repo_if,
  word_and_tail, tail_of, match_release, match_blob, match_git, match_tags, match_raw, match_gist,
}
use gh_proxy.Ghurl.Shape.Segments.{
  first_segment_sound, first_segment_complete, owner_repo_sound, owner_repo_complete,
}
use gh_proxy.Ghurl.Shape.{IsSegment, slash, Follows, HasTail, TagsRest, Rest, Shape}
use gh_proxy.Ghurl.Shape.Segments.{
  first_segment_sound, first_segment_complete, owner_repo_sound, owner_repo_complete,
}

tail_of-inv : (r : Bytes × Bytes × Bool) → tail_of r ≡ true → (r.2 ≡ true) × (r.1 ≢ [])
unfolding tail_of
tail_of-inv (seg, [], found) h = absurd (ground arith)
tail_of-inv (seg, x ∷ tail, found) h = (ground arith, λ e. ground arith)

tail_of_iff : (rest : Bytes) → (tail_of (cut rest) ≡ true) ↔ HasTail rest
unfolding cut tail_of
tail_of_iff rest = (sound, complete)
  where
    sound : tail_of (cut rest) ≡ true → HasTail rest
    sound h =
        let (found, ne) = tail_of-inv (cut rest) h in
        let (split, lacks) = IsCut-found b'/' rest (cut rest) (cut-IsCut b'/' rest) found in
        ((cut rest).0, lacks, ((cut rest).1, ne, split))

    complete : HasTail rest → tail_of (cut rest) ≡ true
    complete (ref, lacks, ([], ne, e)) = absurd (ne refl)
    complete (ref, lacks, (x ∷ tail, ne, e)) = rw (e, cut-append b'/' ref (x ∷ tail) lacks)

word_and_tail-inv :
    (a b : Bytes) (r : Bytes × Bytes × Bool)
    → word_and_tail a b r ≡ true
    → (r.2 ≡ true) × (r.1 ≢ []) × ((r.0 ≡ a) ⊎ (r.0 ≡ b))
unfolding word_and_tail
word_and_tail-inv a b (seg, [], found) h = absurd (ground arith)
word_and_tail-inv a b (seg, x ∷ tail, found) h =
    (ground arith, λ e. ground arith, ground (arith, same_iff seg a, same_iff seg b))

word_and_tail_iff :
    (a b rest : Bytes)
    → Lacks b'/' a
    → Lacks b'/' b
    → (word_and_tail a b (cut rest) ≡ true) ↔ (Follows a rest ⊎ Follows b rest)
unfolding cut
word_and_tail_iff a b rest la lb = (sound, complete)
  where
    sound : word_and_tail a b (cut rest) ≡ true → Follows a rest ⊎ Follows b rest
    sound h =
        let (found, ne, word) = word_and_tail-inv a b (cut rest) h in
        let (split, lacks) = IsCut-found b'/' rest (cut rest) (cut-IsCut b'/' rest) found in
        elim word [
          | inl e ↦ inl ((cut rest).1, ne, rw e at split)
          | inr e ↦ inr ((cut rest).1, ne, rw e at split)
        ]

    complete : Follows a rest ⊎ Follows b rest → word_and_tail a b (cut rest) ≡ true
    complete (inl ([], ne, e)) = absurd (ne refl)
    complete (inr ([], ne, e)) = absurd (ne refl)
    complete (inl (x ∷ tail, ne, e)) =
        rw (e, cut-append b'/' a (x ∷ tail) la)
          (unfold word_and_tail in ground (arith, same_refl a))
    complete (inr (x ∷ tail, ne, e)) =
        rw (e, cut-append b'/' b (x ∷ tail) lb)
          (unfold word_and_tail in ground (arith, same_refl b))

tags_iff : (rest : Bytes) → (same (cut rest).0 (codes "tags") ≡ true) ↔ TagsRest rest
unfolding cut
tags_iff rest = (λ h. sound (cut rest) (cut-IsCut b'/' rest) ((same_iff _ _).0 h), complete)
  where
    sound : (r : Bytes × Bytes × Bool) → IsCut b'/' rest r → r.0 ≡ codes "tags" → TagsRest rest
    sound (b, a, true) (e, l) h = inr (a, rw h at e)
    sound (b, a, false) (e, n, l) h = inl (e ∙ h)

    complete : TagsRest rest → same (cut rest).0 (codes "tags") ≡ true
    complete (inl e) = rw e (same_refl (codes "tags"))
    complete (inr (tail, e)) = rw e (same_refl (codes "tags"))

module _ (accept : Bytes → Bool) (R : Bytes → Type 0)
    (decides : (s : Bytes) → (accept s ≡ true) ↔ R s) where
  owner_repo_if_iff :
      (p o r : Bytes)
      → ((s : Bytes) → R s → s ≢ [])
      → (owner_repo_if accept p ≡ o ∷ r ∷ []) ↔ (
          (rest : Bytes) × (p ≡ slash o (slash r (b'/' ∷ rest)))
          × IsSegment o
          × IsSegment r
          × R rest)
  unfolding owner_repo_if
  owner_repo_if_iff p o r nonempty = (sound (owner_repo p) refl, complete)
    where
      sound :
          (found : Option (Bytes × Bytes × Bytes))
          → owner_repo p ≡ found
          → owner_repo_if accept p ≡ o ∷ r ∷ []
          → (rest : Bytes) × (p ≡ slash o (slash r (b'/' ∷ rest)))
            × IsSegment o
            × IsSegment r
            × R rest
      sound none e h = absurd (ground arith)
      sound (some (o', r', rest)) e h =
          let eo : o' ≡ o = ground arith in
          let er : r' ≡ r = ground arith in
          let (whole, io, ir, ne) = owner_repo_sound p (rw (eo, er) at e) in
          (rest, whole, io, ir, (decides rest).0 (ground arith))

      complete :
          (rest : Bytes) × (p ≡ slash o (slash r (b'/' ∷ rest)))
            × IsSegment o
            × IsSegment r
            × R rest
          → owner_repo_if accept p ≡ o ∷ r ∷ []
      complete (rest, e, io, ir, ok) =
          rw (e, owner_repo_complete o r rest io ir (nonempty rest ok), owner_repo_if)
            (rw ((decides rest).1 ok))

-- The matcher of each kind, as the candidates pair them.
abbrev pub matcher : Kind → Bytes → List Bytes
matcher release p = match_release p
matcher blob p = match_blob p
matcher git p = match_git p
matcher tags p = match_tags p
matcher raw p = match_raw p
matcher gist p = match_gist p
matcher invalid p = []

-- What a matcher captures: a gist has no repository.
abbrev pub captures : Kind → Bytes → Bytes → List Bytes
captures gist o r = o ∷ []
captures _ o r = o ∷ r ∷ []

nonempty_append : (a : Bytes) (c : ℕ) (s : Bytes) → a ++ c ∷ s ≢ []
nonempty_append [] c s e = cc
nonempty_append (x ∷ a) c s e = cc

Rest-nonempty : (k : Kind) (s : Bytes) → Rest k s → s ≢ []
Rest-nonempty release s (inl (t, n, e)) z = cc
Rest-nonempty release s (inr (t, n, e)) z = cc
Rest-nonempty blob s (inl (t, n, e)) z = cc
Rest-nonempty blob s (inr (t, n, e)) z = cc
Rest-nonempty git s h z = ground arith
Rest-nonempty tags s (inl e) z = cc
Rest-nonempty tags s (inr (t, e)) z = cc
Rest-nonempty raw s (ref, l, (t, n, e)) z = nonempty_append ref _ t (sym e ∙ z)
Rest-nonempty _ s h z = absurd h

one_of_three :
    (s a b c : Bytes)
    → ((same s a || (same s b || same s c)) ≡ true) ↔ ((s ≡ a) ⊎ ((s ≡ b) ⊎ (s ≡ c)))
one_of_three s a b c = (
  λ h. ground (arith, same_iff s a, same_iff s b, same_iff s c),
  λ h. ground (arith, same_iff s a, same_iff s b, same_iff s c),
)

gist_iff : (p o r : Bytes) → (match_gist p ≡ o ∷ []) ↔ Shape gist p o r
unfolding match_gist
gist_iff p o r = (sound (first_segment p) refl, complete)
  where
    sound :
        (found : Option (Bytes × Bytes))
        → first_segment p ≡ found
        → match_gist p ≡ o ∷ []
        → Shape gist p o r
    sound none e h = absurd (ground arith)
    sound (some (o', rest)) e h =
        let eo : o' ≡ o = ground arith in
        let (whole, io) = first_segment_sound p (rw eo at e) in
        (rest, whole, io, (tail_of_iff rest).0 (ground arith))

    complete : Shape gist p o r → match_gist p ≡ o ∷ []
    complete (rest, e, io, tail) =
        rw (e, first_segment_complete o rest io, match_gist) (rw ((tail_of_iff rest).1 tail))

-- A matcher captures exactly the owner and the repository of the paths of its kind.
pub matcher_iff : (k : Kind) (p o r : Bytes) → (matcher k p ≡ captures k o r) ↔ Shape k p o r
unfolding match_release match_blob match_git match_tags match_raw
matcher_iff invalid p o r = (λ h. absurd (cc), λ h. absurd (h.4))
matcher_iff release p o r =
    owner_repo_if_iff _ (Rest release) (λ s. word_and_tail_iff _ _ s (omega arith) (omega arith)) p
      o r (Rest-nonempty release)
matcher_iff blob p o r =
    owner_repo_if_iff _ (Rest blob) (λ s. word_and_tail_iff _ _ s (omega arith) (omega arith)) p o r
      (Rest-nonempty blob)
matcher_iff git p o r =
    owner_repo_if_iff _ (Rest git) (λ s. one_of_three s _ _ _) p o r (Rest-nonempty git)
matcher_iff tags p o r = owner_repo_if_iff _ (Rest tags) tags_iff p o r (Rest-nonempty tags)
matcher_iff raw p o r = owner_repo_if_iff _ (Rest raw) tail_of_iff p o r (Rest-nonempty raw)
matcher_iff gist p o r = gist_iff p o r
