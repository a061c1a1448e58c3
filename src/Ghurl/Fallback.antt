-- ===== src/Ghurl/Fallback.antt =====
-- internal/ghurl/ghurl.go: when `ParseWithDefaults` falls back on the configured default hosts.
pub mod Bare
use gh_proxy.Base.{
  Bool, true, false, ◌||◌, Option, none, some, List, [], ◌∷◌, ◌++◌, ◌≡◌, ◌↔◌, inl, inr, refl, sym,
  ap, ◌∙◌, arith, Bool-cases, Option-cases, Bytes, All, codes, same, same_iff, some_inj, Lacks, ◌≢◌,
  ◌⊎◌, ◌>>=◌, any, ◌==◌, ℕ, if◌then◌else◌,
}
use mathlib.Core.Option
use gh_proxy.GoLib.Strings.{Unicode, to_lower, contains_any, trim_prefix, cut_prefix}
use gh_proxy.GoLib.Url.{Url, hostname, escaped_path}
use gh_proxy.Ghurl.Target.{
  Target, Candidate, github_candidates, raw_candidates, gist_candidates, host_candidates,
  known_host, first_match, match,
}
use gh_proxy.Ghurl.Parse.{
  prepare, hostless, names_a_host, try_default, try_defaults, fall_back, parse_with_defaults, parse,
}

-- A text with a dot or a colon is no owner's name.
pub is_dotted : Bytes → Bool
is_dotted h = contains_any h (codes ".:")

-- A byte stands in a text.
abbrev pub HasByte : ℕ → Bytes → Type 0
HasByte b s = (before after : Bytes) × (s ≡ before ++ b ∷ after)

known-dotted :
    (h : Bytes) {host : Bytes} {cs : List Candidate}
    → host_candidates h ≡ some (host, cs)
    → is_dotted host ≡ true
unfolding host_candidates is_dotted
known-dotted h {host} {cs} e =
    elim (Bool-cases (same h (codes "github.com") || same h (codes "www.github.com"))) [
      | inl t ↦
          host_is (codes "github.com") github_candidates refl
            (some_inj (rw (t, host_candidates) at e))
      | inr t ↦
          elim (Bool-cases
            (same h (codes "raw.githubusercontent.com") || same h (codes "raw.github.com"))) [
              | inl t2 ↦
                  host_is h raw_candidates
                    (one_of (codes "raw.githubusercontent.com") (codes "raw.github.com") refl refl
                      t2)
                    (some_inj (rw (t, t2, host_candidates) at e))
              | inr t2 ↦
                  elim (Bool-cases (
                    same h (codes "gist.github.com")
                    || same h (codes "gist.githubusercontent.com"))) [
                      | inl t3 ↦
                          host_is h gist_candidates
                            (one_of (codes "gist.github.com") (codes "gist.githubusercontent.com")
                              refl refl t3)
                            (some_inj (rw (t, t2, t3, host_candidates) at e))
                      | inr t3 ↦ absurd (nothing (rw (t, t2, t3, host_candidates) at e))
                    ]
            ]
    ]
  where
    nothing : {p : Bytes × List Candidate} → none ≡ some p → ⊥
    nothing k = cc

    host_is :
        (x : Bytes) (ks : List Candidate)
        → is_dotted x ≡ true
        → ◌≡◌ {A = Bytes × List Candidate} (x, ks) (host, cs)
        → is_dotted host ≡ true
    host_is x ks d k = sym (λ i. is_dotted (k i).0) ∙ d

    one_of :
        (a b : Bytes)
        → is_dotted a ≡ true
        → is_dotted b ≡ true
        → (same h a || same h b) ≡ true
        → is_dotted h ≡ true
    one_of a b da db k = elim (Bool-cases (same h a)) [
      | inl ea ↦ ap is_dotted ((same_iff h a).0 ea) ∙ da
      | inr na ↦ ap is_dotted ((same_iff h b).0 (ground arith)) ∙ db
    ]

module _ ⦃c : Unicode⦄ where
  dotted-named : (u : Url) → is_dotted u.host ≡ true → names_a_host u ≡ true
  unfolding names_a_host is_dotted
  dotted-named u h = elim (Bool-cases (known_host u)) [ inl e ↦ rw e refl | inr e ↦ rw (e, h) refl ]

  -- A URL that names a host still does after `match` has made the host canonical.
  match_named :
      (u : Url) → names_a_host u ≡ true → (match u).0 ≡ none → names_a_host (match u).1 ≡ true
  unfolding match
  match_named u h = elim (Option-cases (host_candidates (to_lower (hostname u)))) [
    | inl e ↦ rw (e, match) (λ m. h)
    | inr ((host, cs), e) ↦
        rw (e, match)
          (elim (Option-cases (first_match cs (record u { host = host }))) [
            | inl f ↦ rw f (λ m.
                dotted-named (record u { host = host }) (known-dotted (to_lower (hostname u)) e))
            | inr (t, f) ↦ rw f (λ m. cc)
          ])
  ]

  fall_back_named :
      (ds : List Bytes) (r : Option Target × Url)
      → (r.0 ≡ none → names_a_host r.1 ≡ true)
      → fall_back ds r ≡ fall_back [] r
  unfolding fall_back
  fall_back_named ds (some t, u) h = refl
  fall_back_named ds (none, u) h = rw (h refl) refl

  any-found :
      (p : ℕ → Bool) (before : Bytes) (b : ℕ) (after : Bytes)
      → p b ≡ true
      → any p (before ++ b ∷ after) ≡ true
  any-found p [] b after h = ground arith
  any-found p (x ∷ before) b after h = ground (arith, any-found p before b after h)

  has-dotted : (s : Bytes) → HasByte b'.' s ⊎ HasByte b':' s → is_dotted s ≡ true
  unfolding is_dotted
  has-dotted s (inl (before, after, e)) = rw e (any-found _ before b'.' after refl)
  has-dotted s (inr (before, after, e)) = rw e (any-found _ before b':' after refl)

  -- A target whose host has a dot or a port is never given another host: the default hosts do not
  -- matter.
  pub parse_with_defaults-named :
      (s : Bytes) (u : Url) (ds : List Bytes)
      → prepare s ≡ some u
      → HasByte b'.' u.host ⊎ HasByte b':' u.host
      → parse_with_defaults s ds ≡ parse s
  unfolding parse parse_with_defaults
  parse_with_defaults-named s u ds e h =
      rw e (fall_back_named ds (match u) (match_named u (dotted-named u (has-dotted u.host h))))
