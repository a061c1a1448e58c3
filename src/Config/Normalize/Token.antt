-- ===== src/Config/Normalize/Token.antt =====
-- internal/config/config.go: which tokens `Load` accepts.
use gh_proxy.Base.{
  ℕ, ◌≤◌, Bool, true, false, [], ◌∷◌, ◌++◌, ◌≡◌, ◌≢◌, ◌⊎◌, ◌↔◌, inl, inr, refl, ap, arith,
  if◌then◌else◌, ltb, Bytes, codes, length, All, All-mono, Lacks,
}
use gh_proxy.GoLib.Header.{Header}
use gh_proxy.Auth.{new, check}
use gh_proxy.Auth.Credential.Decide.{check_iff}
use gh_proxy.GoLib.Strings.{Unicode, contains_any}
use gh_proxy.Config.Normalize.{Refusal, set_to, refused, check_token}

-- A byte that may stand in a path segment as it is.
abbrev pub IsSafe : ℕ → Type 0
IsSafe c = (c ≢ b'/') × (c ≢ b'?') × (c ≢ b'#') × (c ≢ b' ')

-- No token and no authentication, or authentication and a token fit for a path segment.
abbrev pub IsAccepted : Bytes → Bool → Type 0
IsAccepted token anonymous =
    ((anonymous ≡ true) × (token ≡ []))
    ⊎ ((anonymous ≡ false) × (16 ≤ length token) × All IsSafe token)

IsSafe-iff : (s : Bytes) → (contains_any s (codes "/?# ") ≡ false) ↔ All IsSafe s
IsSafe-iff [] = (λ h. tt, λ h. refl)
IsSafe-iff (c ∷ s) = (
  λ h. (ground arith, (IsSafe-iff s).0 (ground arith)),
  λ (k, ks). ground (arith, (IsSafe-iff s).1 ks),
)

two_tests :
    (short unsafe : Bool) (x y : Refusal) (t : Bytes)
    → ((if short then refused x else if unsafe then refused y else set_to t) ≡ set_to t)
      ↔ ((short ≡ false) × (unsafe ≡ false))
two_tests true unsafe x y t = (λ h. cc, λ k. cc)
two_tests false true x y t = (λ h. cc, λ k. cc)
two_tests false false x y t = (λ h. (refl, refl), λ k. refl)

-- `Load` accepts a token exactly when there is none and authentication is off, or authentication is
-- on and the token has sixteen bytes or more, none of them a slash, a question mark, a number sign
-- or a space.
pub check_token_iff :
    (token : Bytes) (anonymous : Bool)
    → (check_token token anonymous ≡ set_to token) ↔ IsAccepted token anonymous
unfolding check_token
check_token_iff [] true = (λ h. inl (refl, refl), λ h. refl)
check_token_iff [] false = (λ h. cc, λ h. absurd (nothing h))
  where
    nothing : IsAccepted [] false → ⊥
    nothing (inl (e, k)) = cc
    nothing (inr (e, long, k)) = omega (arith, long)
check_token_iff (c ∷ s) true = (λ h. cc, λ h. absurd (both h))
  where
    both : IsAccepted (c ∷ s) true → ⊥
    both (inl (e, k)) = cc
    both (inr (e, long, k)) = cc
check_token_iff (c ∷ s) false = (
  λ h. let (long, safe) = tests.0 h in inr (refl, ground arith, (IsSafe-iff (c ∷ s)).0 safe),
  λ h. tests.1 (fit h),
)
  where
    tests :
        (check_token (c ∷ s) false ≡ set_to (c ∷ s))
        ↔ ((ltb (length (c ∷ s)) 16 ≡ false) × (contains_any (c ∷ s) (codes "/?# ") ≡ false))
    tests = two_tests (ltb (length (c ∷ s)) 16) (contains_any (c ∷ s) (codes "/?# ")) _ _ (c ∷ s)

    fit :
        IsAccepted (c ∷ s) false
        → (ltb (length (c ∷ s)) 16 ≡ false) × (contains_any (c ∷ s) (codes "/?# ") ≡ false)
    fit (inl (e, k)) = absurd cc
    fit (inr (e, long, safe)) = (ground (arith, long), (IsSafe-iff (c ∷ s)).1 safe)

accepted_nonempty : (token : Bytes) → 16 ≤ length token → token ≢ []
accepted_nonempty token h e = omega (arith, h, ap length e)

-- A token that `Load` accepts with authentication on opens the path that it leads, whatever the
-- headers, and what remains is what follows its slash.
pub check-check_token :
    ⦃c : Unicode⦄ (token rest : Bytes) (h : Header)
    → check_token token false ≡ set_to token
    → check (new token false) h (token ++ b'/' ∷ rest) ≡ (rest, true)
check-check_token token rest h e = elim ((check_token_iff token false).0 e) [
  | inl (k, nil) ↦ absurd (on k)
  | inr (k, long, safe) ↦
      let lacks : Lacks b'/' token = All-mono IsSafe (λ c. c ≢ b'/') token (λ c p. p.0) safe in
      (check_iff (new token false) h (token ++ b'/' ∷ rest) rest).1
        (inr (refl, inl (token, refl, lacks, inl (refl, accepted_nonempty token long))))
]
  where
    on : false ≡ true → ⊥
    on k = cc
