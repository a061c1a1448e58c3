-- ===== src/Ghurl/Safety/Hosts.antt =====
-- The host allow list of internal/ghurl/ghurl.go (`hostCandidates`) and the loop over candidates.
use gh_proxy.Base.{
  Bool, true, ◌||◌, Option, none, some, List, [], ◌∷◌, ◌≡◌, refl, sym, map, arith, ◌⊎◌, inl, inr,
  Bool-cases, Option-cases, Bytes, All, codes, same, same_iff, List-cases, some_inj,
}
use gh_proxy.GoLib.Url.{Url}
use gh_proxy.Ghurl.Matchers.{
  Kind, invalid, release, blob, git, tags, raw, gist, owner_repo, owner_repo_if, first_segment,
  match_release, match_blob, match_git, match_tags, match_raw, match_gist,
}
use gh_proxy.Ghurl.Shape.{Shape}
use gh_proxy.Ghurl.Shape.Decide.{matcher, captures, matcher_iff}
use gh_proxy.Ghurl.Target.{Target, Candidate, host_candidates, first_match, new_target, second}
use gh_proxy.Ghurl.Safety.{Serves}

abbrev pub candidate : Kind → Candidate
candidate k = record { kind = k; match_path = matcher k }

two_captures :
    (accept : Bytes → Bool) (p : Bytes) {o : Bytes} (m : List Bytes)
    → owner_repo_if accept p ≡ o ∷ m
    → (owner_repo_if accept p ≡ o ∷ second m ∷ [])
unfolding owner_repo_if
two_captures accept p m h = elim (Option-cases (owner_repo p)) [
  | inl e ↦ absurd (ground arith)
  | inr ((o', r', rest), e) ↦ ground arith
]

matcher-captures :
    (k : Kind) (p : Bytes) {o : Bytes} (m : List Bytes)
    → matcher k p ≡ o ∷ m
    → matcher k p ≡ captures k o (second m)
unfolding match_release match_blob match_git match_tags match_raw match_gist
matcher-captures release p m h = two_captures _ p m h
matcher-captures blob p m h = two_captures _ p m h
matcher-captures git p m h = two_captures _ p m h
matcher-captures tags p m h = two_captures _ p m h
matcher-captures raw p m h = two_captures _ p m h
matcher-captures gist p m h = elim (Option-cases (first_segment p)) [
  | inl e ↦ absurd (ground arith)
  | inr ((o', rest), e) ↦ ground arith
]
matcher-captures invalid p m h = cc

module _ (P : Kind → Type 0) where
  pub first_match_sound :
      (ks : List Kind) (u : Url) {t : Target}
      → All P ks
      → first_match (map candidate ks) u ≡ some t
      → P t.kind × Shape t.kind u.path t.owner t.repo × (t.url ≡ u)
  unfolding first_match new_target
  first_match_sound [] u h e = cc
  first_match_sound (k ∷ ks) u {t} (pk, h) e = elim (List-cases (matcher k u.path)) [
    | inl em ↦ first_match_sound ks u h (rw (em, first_match) at e)
    | inr (o, m, em) ↦
        let made : new_target k o m u ≡ t = some_inj (rw (em, first_match) at e) in
        rw (← made)
          (pk, (matcher_iff k u.path o (second m)).0 (matcher-captures k u.path m em), refl)
  ]

one_of_two : (s a b : Bytes) → (same s a || same s b) ≡ true → (s ≡ a) ⊎ (s ≡ b)
one_of_two s a b h = ground (arith, same_iff s a, same_iff s b)

-- The candidates of a known host are of kinds that it serves.
pub host_candidates_sound :
    (h : Bytes) {host : Bytes} {cs : List Candidate}
    → host_candidates h ≡ some (host, cs)
    → (ks : List Kind) × (cs ≡ map candidate ks) × All (λ k. Serves k host) ks
unfolding host_candidates
host_candidates_sound h {host} {cs} e =
    elim (Bool-cases (same h (codes "github.com") || same h (codes "www.github.com"))) [
      | inl t ↦
          let found = some_inj (rw (t, host_candidates) at e) in
          let is_host = sym (λ i. (found i).0) in
          (
            release ∷ blob ∷ git ∷ tags ∷ [],
            sym (λ i. (found i).1),
            (is_host, (is_host, (is_host, (is_host, tt)))),
          )
      | inr t ↦
          elim (Bool-cases
            (same h (codes "raw.githubusercontent.com") || same h (codes "raw.github.com"))) [
              | inl t' ↦
                  let found = some_inj (rw (t, t', host_candidates) at e) in
                  (
                    raw ∷ [],
                    sym (λ i. (found i).1),
                    (rw (sym (λ i. (found i).0)) (one_of_two _ _ _ t'), tt),
                  )
              | inr t' ↦
                  elim (Bool-cases (
                    same h (codes "gist.github.com")
                    || same h (codes "gist.githubusercontent.com"))) [
                      | inl t'' ↦
                          let found = some_inj (rw (t, t', t'', host_candidates) at e) in
                          (
                            gist ∷ [],
                            sym (λ i. (found i).1),
                            (rw (sym (λ i. (found i).0)) (one_of_two _ _ _ t''), tt),
                          )
                      | inr t'' ↦ absurd (none_ne (rw (t, t', t'', host_candidates) at e))
                    ]
            ]
    ]
  where
    none_ne : ◌≡◌ {A = Option (Bytes × List Candidate)} none (some (host, cs)) → ⊥
    none_ne p = cc
