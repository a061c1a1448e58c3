-- ===== src/Auth.antt =====
-- internal/auth/auth.go: the shared token that gates the proxy.
pub mod Credential
mod Tests
use gh_proxy.Base.{
  Bool, true, false, not, ◌&&◌, ◌||◌, Option, none, some, List, [], ◌∷◌, ◌≡◌, if◌then◌else◌, Bytes,
  codes, same, is_empty,
}
use gh_proxy.GoLib.Strings.{Unicode, cut, trim_space, equal_fold}
use gh_proxy.GoLib.Url.{path_unescape}
use gh_proxy.GoLib.Url.Escape.{unescape}
use gh_proxy.GoLib.Header.{Header, get}
use gh_proxy.GoLib.Base64

abbrev pub header_name : Bytes
header_name = codes "X-Proxy-Token"

pub record Authenticator : Type 0 where
  pub token : Bytes
  pub anonymous : Bool

-- `New`
abbrev pub new : Bytes → Bool → Authenticator
new token anonymous = record { token = token; anonymous = anonymous }

-- `equal`; `subtle.ConstantTimeCompare` answers 1 exactly for equal contents.
unfoldable pub equal : Authenticator → Bytes → Bool
unfolding same
equal a candidate = if is_empty a.token || is_empty candidate then false else same candidate a.token

-- `checkPath` behind the cut: the second try, on the percent-decoded segment.
unfoldable pub equal_decoded : Authenticator → Bytes → Bool
unfolding unescape equal same
equal_decoded a seg = elim (path_unescape seg) [
  | none ↦ false
  | some dec ↦ not (same dec seg) && equal a dec
]

-- `checkPath`: the remainder, with `none` for `false`
unfoldable pub check_path : Authenticator → Bytes → Option Bytes
unfolding cut equal equal_decoded
check_path a rest =
    let (seg, remainder, found) = cut b'/' rest in
    if not found || is_empty seg
    then none
    else if equal a seg
    then some remainder
    else if equal_decoded a seg
    then some remainder
    else none

-- The credentials of `Authorization: Basic`.
unfoldable pub check_basic : Authenticator → Bytes → Bool
unfolding Base64.decode cut equal
check_basic a value = elim (Base64.decode value) [
  | none ↦ false
  | some pair ↦ let (user, pass, _) = cut b':' pair in equal a pass || equal a user
]

-- `Authorization`, cut at its first space.
unfoldable pub check_scheme : ⦃c : Unicode⦄ → Authenticator → Bytes → Bytes → Bool
unfolding trim_space equal_fold equal check_basic
check_scheme a scheme value =
    let v = trim_space value in
    if equal_fold scheme (codes "bearer") || equal_fold scheme (codes "token")
    then equal a v
    else if equal_fold scheme (codes "basic")
    then check_basic a v
    else false

-- `checkHeaders`
unfoldable pub check_headers : ⦃c : Unicode⦄ → Authenticator → Header → Bool
unfolding get cut equal check_scheme
check_headers a h =
    let (scheme, value, found) = cut b' ' (get h (codes "Authorization")) in
    if equal a (get h header_name)
    then true
    else if not found
    then false
    else check_scheme a scheme value

-- `Check`: the remainder, and whether a credential matched
unfoldable pub check : ⦃c : Unicode⦄ → Authenticator → Header → Bytes → Bytes × Bool
unfolding check_path check_headers
check a h rest = if a.anonymous then (rest, true) else elim (check_path a rest) [
  | some r ↦ (r, true)
  | none ↦ if check_headers a h then (rest, true) else (rest, false)
]

-- `Match`
unfoldable pub match : Authenticator → Bytes → Bool
unfolding equal
match a candidate = equal a candidate
