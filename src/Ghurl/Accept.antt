-- ===== src/Ghurl/Accept.antt =====
-- internal/ghurl/ghurl.go: which targets `ParseWithDefaults` accepts at least.
use gh_proxy.Base.{
  arith, Option-cases, ap, ◌||◌, Bool, true, false, Option, none, some, List, [], ◌∷◌, ◌++◌, ◌≡◌,
  ◌⊎◌, inl, inr, refl, ◌∙◌, any, all, List-cases, Bytes, codes, same,
}
use gh_proxy.GoLib.Strings.{Unicode, cut_at, to_lower}
use gh_proxy.GoLib.Url
use gh_proxy.GoLib.Url.{Url, escaped_path, is_ctl, empty_url, hostname}
use gh_proxy.GoLib.Url.Plain.{is_plain}
use gh_proxy.Ghurl.Matchers.{
  match_release, match_blob, match_git, match_tags, match_raw, match_gist, Kind, invalid, release,
  blob, git, tags, raw, gist,
}
use gh_proxy.Ghurl.Shape.{Shape}
use gh_proxy.Ghurl.Shape.Decide.{matcher, captures, matcher_iff}
use gh_proxy.Ghurl.Target.{
  Target, Candidate, github_candidates, raw_candidates, gist_candidates, new_target, finish_target,
  rewrite_blob_to_raw, first_match, match, host_candidates,
}
use gh_proxy.Ghurl.Parse.{parse_with_defaults, fall_back}
use gh_proxy.Ghurl.Safety.{IsForwardable}
use gh_proxy.Ghurl.Safety.Boundary.{parse_with_defaults-IsForwardable}
use gh_proxy.Ghurl.Spelling.{
  Host, Spelling, github, www, raw_content, raw_old, gist_page, gist_content, whole, host_text,
  spell, plain_url,
}
use gh_proxy.Ghurl.Spelling.Parsed.{prepared_lem}

-- The kinds that a host serves
abbrev pub ServedAt : Host → Kind → Type 0
ServedAt github k = (k ≡ release) ⊎ ((k ≡ blob) ⊎ ((k ≡ git) ⊎ (k ≡ tags)))
ServedAt www k = (k ≡ release) ⊎ ((k ≡ blob) ⊎ ((k ≡ git) ⊎ (k ≡ tags)))
ServedAt raw_content k = k ≡ raw
ServedAt raw_old k = k ≡ raw
ServedAt gist_page k = k ≡ gist
ServedAt gist_content k = k ≡ gist

-- The host that is asked in the end, and what it serves
abbrev pub asked : Host → Bytes
asked www = codes "github.com"
asked h = host_text h

abbrev candidates : Host → List Candidate
candidates github = github_candidates
candidates www = github_candidates
candidates raw_content = raw_candidates
candidates raw_old = raw_candidates
candidates gist_page = gist_candidates
candidates gist_content = gist_candidates

abbrev captured : List Bytes → Bool
captured [] = false
captured (o ∷ m) = true

first_match-some :
    (cs : List Candidate) (u : Url)
    → any (λ x. captured (x.match_path u.path)) cs ≡ true
    → (t : Target) × (first_match cs u ≡ some t) × (t.url ≡ u)
unfolding first_match new_target
first_match-some [] u h = cc
first_match-some (x ∷ cs) u h = elim (List-cases (x.match_path u.path)) [
  | inl e ↦ let (t, f, k) = first_match-some cs u (rw e at h) in (t, rw (e, first_match) f, k)
  | inr (o, m, e) ↦ (new_target x.kind o m u, rw (e, first_match) refl, refl)
]

captures-captured : (k : Kind) (o r : Bytes) → captured (captures k o r) ≡ true
captures-captured gist o r = refl
captures-captured k o r = refl

module _ (path : Bytes) where
  Captures : Kind → Type 0
  Captures k = captured (matcher k path) ≡ true

  Fits : List Candidate → Type 0
  Fits cs = any (λ x. captured (x.match_path path)) cs ≡ true

  github_lem :
      (k : Kind)
      → (k ≡ release) ⊎ ((k ≡ blob) ⊎ ((k ≡ git) ⊎ (k ≡ tags)))
      → Captures k
      → Fits github_candidates
  unfolding Captures Fits
  github_lem k served e = elim served [
    | inl f ↦ chosen (inl (rw f at e))
    | inr (inl f) ↦ chosen (inr (inl (rw f at e)))
    | inr (inr (inl f)) ↦ chosen (inr (inr (inl (rw f at e))))
    | inr (inr (inr f)) ↦ chosen (inr (inr (inr (rw f at e))))
  ]
    where
      four :
          (a b d f : Bool)
          → (a ≡ true) ⊎ ((b ≡ true) ⊎ ((d ≡ true) ⊎ (f ≡ true)))
          → (a || (b || (d || (f || false)))) ≡ true
      four a b d f h = ground arith

      chosen :
          Captures release ⊎ (Captures blob ⊎ (Captures git ⊎ Captures tags))
          → Fits github_candidates
      chosen =
          four (captured (match_release path)) (captured (match_blob path))
            (captured (match_git path)) (captured (match_tags path))

  one : (b : Bool) → b ≡ true → (b || false) ≡ true
  one b h = ground arith

  served_lem : (h : Host) (k : Kind) → ServedAt h k → Captures k → Fits (candidates h)
  unfolding Captures Fits
  served_lem github k served e = github_lem k served e
  served_lem www k served e = github_lem k served e
  served_lem raw_content k served e = one (captured (match_raw path)) (rw served at e)
  served_lem raw_old k served e = one (captured (match_raw path)) (rw served at e)
  served_lem gist_page k served e = one (captured (match_gist path)) (rw served at e)
  served_lem gist_content k served e = one (captured (match_gist path)) (rw served at e)

module _ ⦃c : Unicode⦄ (path : Bytes) where
  -- The first component of `match`, where a candidate fits
  Matches : Host → Type 0
  Matches h =
      (t : Target)
      → first_match (candidates h) (plain_url (codes "https") (asked h) path) ≡ some t
      → (match (plain_url (codes "https") (host_text h) path)).0 ≡ some (finish_target t)

  match_lem : (h : Host) → Matches h
  unfolding Matches match hostname host_candidates same to_lower
  match_lem github t e = rw e refl
  match_lem www t e = rw e refl
  match_lem raw_content t e = rw e refl
  match_lem raw_old t e = rw e refl
  match_lem gist_page t e = rw e refl
  match_lem gist_content t e = rw e refl

  fall_back-some :
      (defaults : List Bytes) (r : Option Target × Url) {t : Target}
      → r.0 ≡ some t
      → fall_back defaults r ≡ some t
  unfolding fall_back
  fall_back-some defaults (some t', u) e = e
  fall_back-some defaults (none, u) e = absurd cc

rewrite-host : ⦃c : Unicode⦄ (u : Url) → (rewrite_blob_to_raw u).host ≡ u.host
unfolding rewrite_blob_to_raw
rewrite-host u = elim (Option-cases (cut_at (codes "/blob/") (escaped_path u))) [
  | inl e ↦ rw (e, rewrite_blob_to_raw) refl
  | inr ((before, after), e) ↦
      elim (Option-cases (Url.parse (before ++ (codes "/raw/" ++ after)))) [
        | inl f ↦ rw (e, rewrite_blob_to_raw) (rw f refl)
        | inr (pu, f) ↦ rw (e, rewrite_blob_to_raw) (rw f refl)
      ]
]

finish-host : ⦃c : Unicode⦄ (t : Target) → (finish_target t).url.host ≡ t.url.host
unfolding finish_target
finish-host t = go t.kind refl
  where
    go : (k : Kind) → t.kind ≡ k → (finish_target t).url.host ≡ t.url.host
    go blob e = rw e (rewrite-host t.url)
    go release e = rw e refl
    go git e = rw e refl
    go tags e = rw e refl
    go raw e = rw e refl
    go gist e = rw e refl
    go invalid e = rw e refl

-- A URL of a kind that its host serves, with nothing but letters, digits, slashes and -_.~ in its
-- path, is accepted in each spelling and with whatever default hosts: all of them give one target,
-- which may be fetched from that host.
pub parse_with_defaults-accepts :
    ⦃c : Unicode⦄ (h : Host) (k : Kind) (s o r : Bytes)
    → all is_plain s ≡ true
    → ServedAt h k
    → Shape k (b'/' ∷ s) o r
    → (t : Target) × ((sp : Spelling) (defaults : List Bytes)
        → parse_with_defaults (spell sp (host_text h ++ (b'/' ∷ s))) defaults ≡ some t)
      × IsForwardable t
      × (t.url.host ≡ asked h)
unfolding parse_with_defaults Matches Fits Captures
parse_with_defaults-accepts h k s o r plain served shape =
    let path = b'/' ∷ s in
    let u = plain_url (codes "https") (asked h) path in
    let fits : captured (matcher k path) ≡ true =
      rw ((matcher_iff k path o r).1 shape) (captures-captured k o r) in
    let (t, e, same_url) = first_match-some (candidates h) u (served_lem path h k served fits) in
    let accepted : (sp : Spelling) (defaults : List Bytes)
        → parse_with_defaults (spell sp (host_text h ++ path)) defaults ≡ some (finish_target t) =
      λ sp defaults. rw (prepared_lem s plain sp h) (
        fall_back-some path defaults (match (plain_url (codes "https") (host_text h) path))
          (match_lem path h t e)) in
    (
      finish_target t,
      accepted,
      parse_with_defaults-IsForwardable (spell whole (host_text h ++ path)) [] (accepted whole []),
      finish-host t ∙ ap (λ x. x.host) same_url,
    )
