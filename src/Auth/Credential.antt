-- ===== src/Auth/Credential.antt =====
-- internal/auth/auth.go: what `Check` accepts, stated apart from the code.
pub mod Path
mod Headers
pub mod Decide
use gh_proxy.Base.{
  Bool, true, false, ◌||◌, some, List, [], ◌∷◌, ◌++◌, ◌≡◌, ◌≢◌, ◌⊎◌, Bytes, codes, Lacks,
}
use gh_proxy.GoLib.Strings.{Unicode, equal_fold, trim_space}
use gh_proxy.GoLib.Url.{path_unescape}
use gh_proxy.GoLib.Header.{Header, get}
use gh_proxy.GoLib.Base64
use gh_proxy.Auth.{Authenticator, header_name}

-- The configured token, which is not empty.
abbrev pub IsToken : Authenticator → Bytes → Type 0
IsToken a s = (s ≡ a.token) × (a.token ≢ [])

-- The token, or a percent-encoding of it.
abbrev pub SpellsToken : Authenticator → Bytes → Type 0
SpellsToken a seg = IsToken a seg ⊎ ((dec : Bytes) × (path_unescape seg ≡ some dec) × IsToken a dec)

-- `rest` begins with a segment that spells the token, and `r` follows it.
abbrev pub PathCredential : Authenticator → Bytes → Bytes → Type 0
PathCredential a rest r =
    (seg : Bytes) × (rest ≡ seg ++ b'/' ∷ r) × Lacks b'/' seg × SpellsToken a seg

-- Either half of `user:password`, or the whole where there is no colon.
abbrev pub BasicPair : Authenticator → Bytes → Type 0
BasicPair a pair =
    ((user : Bytes) × (pass : Bytes) × (pair ≡ user ++ b':' ∷ pass)
      × Lacks b':' user
      × (IsToken a pass ⊎ IsToken a user))
    ⊎ (Lacks b':' pair × IsToken a pair)

abbrev pub BasicCredential : Authenticator → Bytes → Type 0
BasicCredential a value = (pair : Bytes) × (Base64.decode value ≡ some pair) × BasicPair a pair

module _ ⦃c : Unicode⦄ where
  abbrev pub is_bearer : Bytes → Bool
  is_bearer scheme = equal_fold scheme (codes "bearer") || equal_fold scheme (codes "token")

  -- The value behind a scheme, trimmed.
  abbrev pub SchemeCredential : Authenticator → Bytes → Bytes → Type 0
  SchemeCredential a scheme value =
      ((is_bearer scheme ≡ true) × IsToken a (trim_space value))
      ⊎ ((is_bearer scheme ≡ false)
          × (equal_fold scheme (codes "basic") ≡ true)
          × BasicCredential a (trim_space value))

  -- `X-Proxy-Token`, or a scheme and a value in `Authorization`.
  abbrev pub HeaderCredential : Authenticator → Header → Type 0
  HeaderCredential a h =
      IsToken a (get h header_name)
      ⊎ ((scheme : Bytes) × (value : Bytes) × (get h (codes "Authorization")
            ≡ scheme ++ b' ' ∷ value)
          × Lacks b' ' scheme
          × SchemeCredential a scheme value)

  -- The request is let through, and `r` is what remains of its target.
  abbrev pub Grants : Authenticator → Header → Bytes → Bytes → Type 0
  Grants a h rest r =
      ((a.anonymous ≡ true) × (r ≡ rest))
      ⊎ ((a.anonymous ≡ false)
          × (PathCredential a rest r
              ⊎ (((r' : Bytes) → ¬ PathCredential a rest r') × HeaderCredential a h × (r ≡ rest))))
