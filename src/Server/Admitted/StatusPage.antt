-- ===== src/Server/Admitted/StatusPage.antt =====
-- internal/server/server.go: who sees the status page.
use gh_proxy.Base.{
  Bool, true, false, [], ◌≡◌, ◌⊎◌, ◌↔◌, inl, inr, refl, sym, ◌∙◌, if◌then◌else◌, Bytes, codes,
  Bool-cases, same, same_iff,
}
use gh_proxy.GoLib.Strings.{Unicode}
use gh_proxy.GoLib.Query.{query_get}
use gh_proxy.Config.{status_auth_none}
use gh_proxy.Auth
use gh_proxy.Auth.Credential.{IsToken, Grants}
use gh_proxy.Auth.Credential.Path.{equal_iff}
use gh_proxy.Auth.Credential.Decide.{check_iff}
use gh_proxy.Server.{Server, Request, respond, status_page, not_found, status_allowed, serve_status}

-- The page is open to all, or the request carries a credential in a header, or the token in the
-- query.
abbrev pub MaySee : ⦃c : Unicode⦄ → Server → Request → Type 0
MaySee s r =
    (s.cfg.status_auth ≡ status_auth_none)
    ⊎ (((rest : Bytes) × Grants s.auth r.header [] rest)
        ⊎ IsToken s.auth (query_get r.raw_query (codes "token")))

three_tests :
    (a b d : Bool)
    → ((if a then true else if b then true else d) ≡ true)
      ↔ ((a ≡ true) ⊎ ((b ≡ true) ⊎ (d ≡ true)))
three_tests true b d = (λ h. inl refl, λ h. refl)
three_tests false true d = (λ h. inr (inl refl), λ h. refl)
three_tests false false d = (λ h. inr (inr h), last)
  where
    last : (false ≡ true) ⊎ ((false ≡ true) ⊎ (d ≡ true)) → d ≡ true
    last (inl e) = cc
    last (inr (inl e)) = cc
    last (inr (inr e)) = e

match_iff : (s : Server) (x : Bytes) → (Auth.match s.auth x ≡ true) ↔ IsToken s.auth x
unfolding Auth.match
match_iff s x = equal_iff s.auth x

module _ ⦃c : Unicode⦄ (s : Server) (r : Request) where
  header_iff :
      ((Auth.check s.auth r.header []).1 ≡ true) ↔ ((rest : Bytes) × Grants s.auth r.header [] rest)
  header_iff = (
    λ e. (
      (Auth.check s.auth r.header []).0,
      (check_iff s.auth r.header [] _).0 (λ i. ((Auth.check s.auth r.header []).0, e i)),
    ),
    λ (rest, g) i. ((check_iff s.auth r.header [] rest).1 g i).1,
  )

  status_allowed_iff : (status_allowed s r ≡ true) ↔ MaySee s r
  unfolding status_allowed
  status_allowed_iff = (λ h. seen (tests.0 h), λ k. tests.1 (passes k))
    where
      query : Bytes
      query = query_get r.raw_query (codes "token")

      Passes : Type 0
      Passes =
          (same s.cfg.status_auth status_auth_none ≡ true)
          ⊎ (((Auth.check s.auth r.header []).1 ≡ true) ⊎ (Auth.match s.auth query ≡ true))

      tests : (status_allowed s r ≡ true) ↔ Passes
      tests =
          three_tests (same s.cfg.status_auth status_auth_none) (Auth.check s.auth r.header []).1
            (Auth.match s.auth query)

      seen : Passes → MaySee s r
      seen (inl e) = inl ((same_iff s.cfg.status_auth status_auth_none).0 e)
      seen (inr (inl e)) = inr (inl (header_iff.0 e))
      seen (inr (inr e)) = inr (inr ((match_iff s query).0 e))

      passes : MaySee s r → Passes
      passes (inl e) = inl ((same_iff s.cfg.status_auth status_auth_none).1 e)
      passes (inr (inl e)) = inr (inl (header_iff.1 e))
      passes (inr (inr e)) = inr (inr ((match_iff s query).1 e))

  -- The status page is shown exactly where its authentication is off, or a header carries the token
  -- or all requests are let through, or the token is in the query; a token in the path is not looked
  -- for.
  pub serve_status_iff : (serve_status s r ≡ status_page) ↔ MaySee s r
  unfolding serve_status
  serve_status_iff = elim (Bool-cases (status_allowed s r)) [
    | inl e ↦ rw e (λ h. status_allowed_iff.0 e, λ k. refl)
    | inr e ↦ rw e (λ h. absurd (hidden h), λ k. absurd (shut (sym e ∙ status_allowed_iff.1 k)))
  ]
    where
      hidden : respond not_found ≡ status_page → ⊥
      hidden k = cc

      shut : false ≡ true → ⊥
      shut k = cc
