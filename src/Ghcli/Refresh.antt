-- ===== src/Ghcli/Refresh.antt =====
-- internal/ghcli/ghcli.go: the credential in hand, from `Load` through every tick of `Refresh`.
use gh_proxy.Base.{
  ◌≤◌, false, not, none, some, List, [], ◌∷◌, ◌++◌, ◌≡◌, ◌≢◌, ◌⊎◌, inl, inr, refl, sym, ap, ◌∙◌,
  arith, any, if◌then◌else◌, Bool-cases, Option-cases, Bytes, is_empty, All,
}
use mathlib.Core.Path.{subst}
use gh_proxy.Ghcli.Hosts.{from_hosts_file-HostToken}
use gh_proxy.GoLib.Strings.{Unicode, trim_space, trim_func}
use gh_proxy.Ghcli.{
  empty_token, bad_token, gh_failed, Options, Gh, Run, printed, run_failed, Trouble, Found, found,
  missing, Source, clean, is_visible, is_quote, from_binary, hosts_path, fetch, first_line, load,
  tick, ticks, refresh, is_positive, store,
}

-- A text that may stand in the header: it is not empty, and each byte is a visible one of ASCII.
abbrev pub IsHeaderValue : Bytes → Type 0
IsHeaderValue s = (s ≢ []) × All (λ b. (b'!' ≤ b) × (b ≤ b'~')) s

pub missing_found : {t : Trouble} {s : Bytes} → missing t ≡ found s → ⊥
missing_found e = cc

pub found_inj : {s t : Bytes} → found s ≡ found t → s ≡ t
found_inj e = cc

visible_text :
    (s : Bytes) → any (λ b. not (is_visible b)) s ≡ false → All (λ b. (b'!' ≤ b) × (b ≤ b'~')) s
visible_text [] h = tt
visible_text (x ∷ s) h = (ground (arith, h), visible_text s (ground (arith, h)))

pub Found-cases : (f : Found) → ((t : Trouble) × (f ≡ missing t)) ⊎ ((s : Bytes) × (f ≡ found s))
Found-cases (found s) = inr (s, refl)
Found-cases (missing t) = inl (t, refl)

module _ ⦃c : Unicode⦄ where
  pub clean-IsHeaderValue :
      (text : Bytes) {token : Bytes} → clean text ≡ found token → IsHeaderValue token
  unfolding clean
  clean-IsHeaderValue text {token} h = checked (trim_space text) h
    where
      checked :
          (s : Bytes)
          → (if is_empty s
              then missing empty_token
              else if any (λ b. not (is_visible b)) s
              then missing bad_token
              else found s)
            ≡ found token
          → IsHeaderValue token
      checked [] k = absurd (missing_found k)
      checked (x ∷ s) k = elim (Bool-cases (any (λ b. not (is_visible b)) (x ∷ s))) [
        | inl e ↦ absurd (missing_found (rw e at k))
        | inr e ↦
            subst IsHeaderValue (found_inj (rw e at k)) ((λ z. absurd cc), visible_text (x ∷ s) e)
      ]

  -- A credential that `fetch` returns, from the binary or the file, may stand in the header.
  pub fetch-IsHeaderValue :
      (gh : Gh) (o : Options) {token : Bytes} → fetch gh o ≡ found token → IsHeaderValue token
  unfolding fetch from_binary
  fetch-IsHeaderValue gh o {token} h = elim (Option-cases (gh.look_path o.bin)) [
    | inl e ↦
        let (text, failed, opened, held) =
          from_hosts_file-HostToken gh o.host (hosts_path gh o) (rw (e, fetch) at h) in
        let (indented, key, value, pair, is_key, cleaned) = held.holds in
        clean-IsHeaderValue (trim_func is_quote (trim_space value)) cleaned
    | inr (bin, e) ↦ from_run (gh.run bin o.host o.config_dir) (rw (e, fetch) at h)
  ]
    where
      from_run :
          (r : Run)
          → elim r [
            | printed out ↦ clean out
            | run_failed why stderr ↦
                let detail = first_line stderr in
                missing (gh_failed (if is_empty detail then why else detail))
          ]
            ≡ found token
          → IsHeaderValue token
      from_run (printed out) k = clean-IsHeaderValue out k
      from_run (run_failed why stderr) k = absurd (missing_found k)

  -- What the last read that found a credential found, and the reads behind it found none.
  pub record Latest (o : Options) (ghs : List Gh) (token : Bytes) : Type 0 where
    pub before : List Gh
    pub at : Gh
    pub after : List Gh
    pub reads : ghs ≡ before ++ at ∷ after
    pub here : fetch at o ≡ found token
    pub none_behind : All (λ gh. (t : Trouble) × (fetch gh o ≡ missing t)) after

  tick_lem :
      (o : Options) (s : Source) (gh : Gh)
      → ((t : Trouble) × (fetch gh o ≡ missing t) × ((tick o s gh).0 ≡ s))
        ⊎ ((token : Bytes) × (fetch gh o ≡ found token) × ((tick o s gh).0.token ≡ token))
  unfolding tick store
  tick_lem o s gh = elim (Found-cases (fetch gh o)) [
    | inl (t, e) ↦ inl (t, e, rw (e, tick) refl)
    | inr (token, e) ↦ inr (token, e, rw (e, tick) refl)
  ]

  -- Whatever the ticks of `Refresh` read, the credential in hand is that of the last read that
  -- found one, and the first one where none did: a failure loses nothing.
  pub ticks-Latest :
      (o : Options) (s : Source) (ghs : List Gh)
      → (All (λ gh. (t : Trouble) × (fetch gh o ≡ missing t)) ghs × (ticks o s ghs ≡ s))
        ⊎ Latest o ghs (ticks o s ghs).token
  unfolding ticks
  ticks-Latest o s [] = inl (tt, refl)
  ticks-Latest o s (gh ∷ ghs) = elim (ticks-Latest o (tick o s gh).0 ghs) [
    | inr l ↦ inr (record {
      before = gh ∷ l.before;
      at = l.at;
      after = l.after;
      reads = ap (λ x. gh ∷ x) l.reads;
      here = l.here;
      none_behind = l.none_behind;
    })
    | inl (failed, e) ↦ elim (tick_lem o s gh) [
      | inl (t, f, kept) ↦ inl (((t, f), failed), e ∙ kept)
      | inr (token, f, stored) ↦ inr (record {
        before = [];
        at = gh;
        after = ghs;
        reads = refl;
        here = f ∙ ap found (sym stored ∙ ap (λ x. x.token) (sym e));
        none_behind = failed;
      })
    ]
  ]

  ticks-IsHeaderValue :
      (o : Options) (s : Source) (ghs : List Gh)
      → IsHeaderValue s.token
      → IsHeaderValue (ticks o s ghs).token
  ticks-IsHeaderValue o s ghs good = elim (ticks-Latest o s ghs) [
    | inl (failed, e) ↦ rw e good
    | inr l ↦ fetch-IsHeaderValue l.at o l.here
  ]

  -- Once `Load` has succeeded, and whatever `Refresh` reads after it, the credential in hand may
  -- stand in the header: it is never empty, and the proxy never falls back to none.
  pub load-refresh :
      (o : Options) (s : Source) (gh : Gh) (ghs : List Gh)
      → (load o s gh).1.0 ≡ none
      → IsHeaderValue (refresh o (load o s gh).0 ghs).token
  unfolding load refresh store
  load-refresh o s gh ghs h = elim (Found-cases (fetch gh o)) [
    | inl (t, e) ↦ absurd (failed (rw (e, load) at h))
    | inr (token, e) ↦
        let good : IsHeaderValue token = fetch-IsHeaderValue gh o e in
        elim (Bool-cases (is_positive o.refresh)) [
          | inl f ↦
              rw (e, load)
                (rw (f, refresh) (ticks-IsHeaderValue o (record { token = token }) ghs good))
          | inr f ↦ rw (e, load) (rw (f, refresh) good)
        ]
  ]
    where
      failed : {t : Trouble} → some t ≡ none → ⊥
      failed k = cc
