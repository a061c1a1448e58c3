-- ===== src/Main/Sent.antt =====
-- cmd/gh-proxy/main.go: the credential that a request to GitHub carries, from the gh CLI through
-- `Refresh` and `rewrite`.
use gh_proxy.Base.{
  false, not, none, some, List, [], ◌∷◌, ◌++◌, ◌≡◌, ◌≢◌, inl, inr, refl, ◌∙◌, Bool-cases,
  Option-cases, Bytes, codes, same, is_empty,
}
use mathlib.Core.Path.{subst}
use gh_proxy.GoLib.Strings.{Unicode}
use gh_proxy.GoLib.Header.{Header, values}
use gh_proxy.Config.{Config, upstream_source_gh}
use gh_proxy.Ghcli
use gh_proxy.Ghcli.{Gh, System, Source, load, refresh}
use gh_proxy.Ghcli.Refresh.{IsHeaderValue, load-refresh}
use gh_proxy.Proxy.{Outgoing, Info, rewrite, upstream_token}
use gh_proxy.Proxy.Rewrite.{let_out, rewrite-LetOut}
use gh_proxy.Main.{
  fixed, sourced, unavailable, gh_options, upstream_credential, token_func, proxy_options,
}

abbrev empty_source : Source
empty_source = record { token = [] }

nonempty : (t : Bytes) → t ≢ [] → is_empty t ≡ false
nonempty [] ne = absurd (ne refl)
nonempty (x ∷ t) ne = refl

sourced_inj :
    {o o' : Ghcli.Options} {s s' : Source} → sourced o s ≡ sourced o' s' → (o ≡ o') × (s ≡ s')
sourced_inj e = (cc, cc)

module _ ⦃c : Unicode⦄ where
  sourced_lem :
      (sys : System) (cfg : Config) (gh : Gh) {o : Ghcli.Options} {s : Source}
      → upstream_credential sys cfg gh ≡ sourced o s
      → ((load o empty_source gh).1.0 ≡ none) × ((load o empty_source gh).0 ≡ s)
  unfolding upstream_credential
  sourced_lem sys cfg gh {o} {s} h =
      elim (Bool-cases (not (same cfg.upstream_source upstream_source_gh))) [
        | inl e ↦ absurd (no_source (rw (e, upstream_credential) at h))
        | inr e ↦ elim (Option-cases (load (gh_options sys cfg) empty_source gh).1.0) [
          | inr (t, f) ↦ absurd (lost (rw (e, f, upstream_credential) at h))
          | inl f ↦
              let k : sourced (gh_options sys cfg) (load (gh_options sys cfg) empty_source gh).0
                  ≡ sourced o s =
                rw (e, f, upstream_credential) at h in
              let (same_options, same_source) = sourced_inj k in
              (
                subst (λ x. (load x empty_source gh).1.0 ≡ none) same_options f,
                subst (λ x. (load x empty_source gh).0 ≡ s) same_options same_source,
              )
        ]
      ]
    where
      no_source : fixed ≡ sourced o s → ⊥
      no_source k = cc

      lost : {t : _} → unavailable t ≡ sourced o s → ⊥
      lost k = cc

  let_out-authorization :
      (token : Bytes) (h : Header)
      → is_empty token ≡ false
      → let_out token h (codes "Authorization") ≡ (codes "Bearer " ++ token) ∷ []
  unfolding same
  let_out-authorization token h e = rw e refl

  -- With a credential from the gh CLI the request that `rewrite` makes of one with a target carries
  -- one, whatever the refresh has read in the meantime: its `Authorization` is `Bearer` and a token
  -- that may stand in a header, and nothing that the client has sent under that name.
  pub upstream_credential-rewrite :
      (sys : System) (cfg : Config) (gh : Gh) (ghs : List Gh) (o : Ghcli.Options) (s : Source)
      (r : Outgoing) (info : Info)
      → upstream_credential sys cfg gh ≡ sourced o s
      → r.info ≡ some info
      → (token : Bytes) × IsHeaderValue token
        × (values (rewrite (proxy_options cfg (sourced o s) ghs) r).header (codes "Authorization")
            ≡ (codes "Bearer " ++ token) ∷ [])
  unfolding proxy_options token_func upstream_token
  upstream_credential-rewrite sys cfg gh ghs o s r info h e =
      let (found, same_source) = sourced_lem sys cfg gh h in
      let good : IsHeaderValue (refresh o s ghs).token =
        subst (λ x. IsHeaderValue (refresh o x ghs).token) same_source
          (load-refresh o empty_source gh ghs found) in
      (
        (refresh o s ghs).token,
        good,
        (rewrite-LetOut (proxy_options cfg (sourced o s) ghs) r info e).headers
              (codes "Authorization")
            ∙ let_out-authorization (refresh o s ghs).token r.header
                (nonempty (refresh o s ghs).token good.0),
      )
