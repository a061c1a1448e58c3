-- ===== src/Ghurl/Safety/Boundary.antt =====
-- `match`, `prepare` and `ParseWithDefaults` of internal/ghurl/ghurl.go return nothing but requests
-- that the proxy may send.
use gh_proxy.Base.{
  not, ◌&&◌, Option, none, some, List, [], ◌∷◌, ◌++◌, ◌≡◌, refl, ap, sym, ◌∙◌, arith, >>=-eq-some,
  inl, inr, Bool-cases, Option-cases, Bytes, codes, same, some_inj,
}
use gh_proxy.GoLib.Strings.{Unicode, to_lower, cut_at}
use gh_proxy.GoLib.Strings.CutAt.{cut_at-IsCutAt, cut_at-IsApart}
use gh_proxy.GoLib.Url
use gh_proxy.GoLib.Url.{Url, hostname, escaped_path}
use gh_proxy.Ghurl.Matchers.{Kind, blob}
use gh_proxy.Ghurl.Shape.{Shape}
use gh_proxy.Ghurl.Target.{
  Target, host_candidates, first_match, rewrite_blob_to_raw, finish_target, match,
}
use gh_proxy.Ghurl.Parse.{
  normalize, prepare, try_default, try_defaults, fall_back, names_a_host, hostless,
  parse_with_defaults,
}
use gh_proxy.Ghurl.Repair.{repair_scheme}
use gh_proxy.Ghurl.Safety.{Serves, IsRaw, IsForwardable}
use gh_proxy.Ghurl.Safety.Hosts.{first_match_sound, host_candidates_sound}

module _ ⦃c : Unicode⦄ where
  -- The rewrite of a blob URL changes its path alone.
  pub rewrite_keeps :
      (u : Url)
      → ((rewrite_blob_to_raw u).scheme ≡ u.scheme)
        × ((rewrite_blob_to_raw u).user ≡ u.user)
        × ((rewrite_blob_to_raw u).host ≡ u.host)
  unfolding rewrite_blob_to_raw
  rewrite_keeps u = elim (Option-cases (cut_at (codes "/blob/") (escaped_path u))) [
    | inl e ↦ rw (e, rewrite_blob_to_raw) (refl, refl, refl)
    | inr ((before, after), e) ↦
        elim (Option-cases (Url.parse (before ++ (codes "/raw/" ++ after)))) [
          | inl e' ↦ rw (e, rewrite_blob_to_raw) (rw e' (refl, refl, refl))
          | inr (pu, e') ↦ rw (e, rewrite_blob_to_raw) (rw e' (refl, refl, refl))
        ]
  ]

  rewrite-IsRaw : (u : Url) → IsRaw u (rewrite_blob_to_raw u)
  unfolding rewrite_blob_to_raw
  rewrite-IsRaw u = elim (Option-cases (cut_at (codes "/blob/") (escaped_path u))) [
    | inl e ↦
        inr (cut_at-IsApart (codes "/blob/") (escaped_path u) e, rw (e, rewrite_blob_to_raw) refl)
    | inr ((before, after), e) ↦ inl (
      before,
      after,
      cut_at-IsCutAt (codes "/blob/") (escaped_path u) e,
      elim (Option-cases (Url.parse (before ++ (codes "/raw/" ++ after)))) [
        | inl e' ↦ inr (e', rw (e, rewrite_blob_to_raw) (rw e' refl))
        | inr (pu, e') ↦ inl (pu, e', rw (e, rewrite_blob_to_raw) (rw e' refl))
      ],
    )
  ]

  finish_sound :
      (k : Kind) (o r : Bytes) (u : Url)
      → u.scheme ≡ codes "https"
      → u.user ≡ none
      → Serves k u.host
      → Shape k u.path o r
      → IsForwardable (finish_target (record { kind = k; owner = o; repo = r; url = u }))
  unfolding finish_target
  finish_sound blob o r u s n h p =
      let (same_scheme, same_user, same_host) = rewrite_keeps u in
      record {
        https = same_scheme ∙ s;
        no_user = same_user ∙ n;
        host_known = same_host ∙ h;
        path_known = (u, p, rewrite-IsRaw u);
      }
  finish_sound k o r u s n h p = record { https = s; no_user = n; host_known = h; path_known = p }

  match_sound :
      (u : Url) {t : Target}
      → u.scheme ≡ codes "https"
      → u.user ≡ none
      → (match u).0 ≡ some t
      → IsForwardable t
  unfolding match
  match_sound u {t} s n e = elim (Option-cases (host_candidates (to_lower (hostname u)))) [
    | inl e1 ↦ absurd (ground arith)
    | inr ((host, cs), e1) ↦
        let u' = record u { host = host } in
        let (ks, same_cs, served) = host_candidates_sound (to_lower (hostname u)) e1 in
        elim (Option-cases (first_match cs u')) [
          | inl e2 ↦ absurd (ground arith)
          | inr (t0, e2) ↦
              let (hosted, shape, same_url) =
                first_match_sound (λ k. Serves k host) ks u' served (rw same_cs at e2) in
              let made : finish_target t0 ≡ t = some_inj (rw e2 at (rw (e1, match) at e)) in
              rw (← made) (
                finish_sound t0.kind t0.owner t0.repo t0.url (ap (λ x. x.scheme) same_url ∙ s)
                  (ap (λ x. x.user) same_url ∙ n) (rw same_url hosted) (rw same_url shape))
        ]
  ]

  normalize_sound :
      (p : Url) {u : Url} → normalize p ≡ some u → (u.scheme ≡ codes "https") × (u.user ≡ none)
  unfolding normalize
  normalize_sound p {u} e =
      elim (Bool-cases
        (not (same p.scheme (codes "http")) && not (same p.scheme (codes "https")))) [
          | inl t ↦ absurd (none_ne (rw (t, normalize) at e))
          | inr t ↦
              let made = some_inj (rw (t, normalize) at e) in
              (sym (λ i. (made i).scheme), sym (λ i. (made i).user))
        ]
    where
      none_ne : ◌≡◌ {A = Option Url} none (some u) → ⊥
      none_ne q = cc

  pub prepare_sound :
      (s : Bytes) {u : Url} → prepare s ≡ some u → (u.scheme ≡ codes "https") × (u.user ≡ none)
  unfolding prepare
  prepare_sound s {u} e =
      let (parsed, _, made) = >>=-eq-some (Url.parse (repair_scheme s)) normalize e in
      normalize_sound parsed made

  try_defaults_sound :
      (u : Url) (hs : List Bytes) {t : Target} → try_defaults u hs ≡ some t → IsForwardable t
  unfolding try_defaults try_default
  try_defaults_sound u [] e = cc
  try_defaults_sound u (h ∷ hs) {t} e = elim (Option-cases (try_default u h)) [
    | inl e1 ↦ try_defaults_sound u hs (rw (e1, try_defaults) at e)
    | inr (t', e1) ↦
        let (u2, prepared, matched) = >>=-eq-some _ (λ u2. (match u2).0) e1 in
        let (https, no_user) = prepare_sound (h ++ b'/' ∷ hostless u) prepared in
        let made : t' ≡ t = some_inj (rw (e1, try_defaults) at e) in
        rw (← made) (match_sound u2 https no_user matched)
  ]

  fall_back_sound :
      (defaults : List Bytes) (r : Option Target × Url) {t : Target}
      → ((t' : Target) → r.0 ≡ some t' → IsForwardable t')
      → fall_back defaults r ≡ some t
      → IsForwardable t
  unfolding fall_back
  fall_back_sound defaults (some t', u) {t} h e = h t e
  fall_back_sound defaults (none, u) {t} h e = elim (Bool-cases (names_a_host u)) [
    | inl named ↦ absurd (ground arith)
    | inr bare ↦ try_defaults_sound u defaults (rw bare at e)
  ]

  -- Whatever `ParseWithDefaults` returns for whatever input, the request goes over TLS, with no
  -- credentials in the URL, to a host of the kind's own, at a path of the kind's grammar; for a blob
  -- it is that path with the first `/blob/` of its escaped form turned into `/raw/`.
  pub parse_with_defaults-IsForwardable :
      (s : Bytes) (defaults : List Bytes) {t : Target}
      → parse_with_defaults s defaults ≡ some t
      → IsForwardable t
  unfolding parse_with_defaults
  parse_with_defaults-IsForwardable s defaults e =
      let (u, prepared, rest) = >>=-eq-some (prepare s) (λ u. fall_back defaults (match u)) e in
      let (https, no_user) = prepare_sound s prepared in
      fall_back_sound defaults (match u) (λ t' matched. match_sound u https no_user matched) rest
