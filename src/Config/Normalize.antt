-- ===== src/Config/Normalize.antt =====
-- internal/config/config.go: the mount path, the status page's path, and the token.
pub mod Paths
pub mod PagePath
pub mod Token
pub mod Hosts
use gh_proxy.Base.{
  ℕ, Bool, true, false, not, ◌&&◌, ◌||◌, List, [], ◌∷◌, ◌++◌, ◌≡◌, if◌then◌else◌, ltb, ◌==◌, Bytes,
  codes, length, is_empty,
}
use gh_proxy.GoLib.Strings.{
  Unicode, trim_space, trim_right, has_prefix, has_suffix, contains, contains_any, fields_func,
  to_lower,
}
use gh_proxy.Ghurl.Target.{supported_host}

-- Why `Load` refuses to start.
pub data Refusal : Type 0 where
  prefix_not_plain prefix_empty_segment status_not_plain status_is_root status_empty_segment :
      Bytes → Refusal
  token_missing token_and_anonymous token_unsafe : Refusal
  token_short : ℕ → Refusal
  host_unknown : Bytes → Refusal
  unreadable_file not_a_number negative bad_rules : Bytes → Refusal
  auth_unknown source_unknown : Bytes → Refusal
  source_conflict refresh_negative redirects_negative : Refusal

pub data Setting {ℓ} (A : Type ℓ) : Type ℓ where
  set_to : A → Setting A
  refused : Refusal → Setting A

pub clash {ℓ} : {V : Type ℓ} {why : Refusal} {v : V} → refused why ≡ set_to v → ⊥
clash e = cc

pub set_inj {ℓ} : {V : Type ℓ} {a b : V} → set_to a ≡ set_to b → a ≡ b
set_inj e = cc

abbrev pub unplain : Bytes
unplain = codes "?# "

abbrev pub with_leading_slash : Bytes → Bytes
with_leading_slash p = if has_prefix p (codes "/") then p else b'/' ∷ p

abbrev pub with_trailing_slash : Bytes → Bytes
with_trailing_slash p = if has_suffix p (codes "/") then p else p ++ codes "/"

-- `normalizePrefix` behind the trimming
unfoldable pub mount_path : Bytes → Setting Bytes
unfolding has_prefix has_suffix contains
mount_path p =
    let path = with_trailing_slash (with_leading_slash p) in
    if contains_any p unplain
    then refused (prefix_not_plain p)
    else if contains path (codes "//")
    then refused (prefix_empty_segment path)
    else set_to path

-- `normalizePrefix`
unfoldable pub normalize_prefix : ⦃c : Unicode⦄ → Bytes → Setting Bytes
unfolding trim_space mount_path
normalize_prefix p = let q = trim_space p in mount_path (if is_empty q then codes "/" else q)

-- `normalizeStatusPath` behind the trimming, on a path that is not empty
unfoldable pub page_path : Bytes → Setting Bytes
unfolding has_prefix trim_right contains
page_path p =
    let path = trim_right (λ c. c == b'/') (with_leading_slash p) in
    if contains_any p unplain
    then refused (status_not_plain p)
    else if is_empty path
    then refused (status_is_root p)
    else if contains path (codes "//")
    then refused (status_empty_segment path)
    else set_to path

-- `normalizeStatusPath`
unfoldable pub normalize_status_path : ⦃c : Unicode⦄ → Bytes → Setting Bytes
unfolding trim_space page_path
normalize_status_path p = let q = trim_space p in if is_empty q then set_to [] else page_path q

-- The switch of `Load` on the token: the token if it is allowed.
unfoldable pub check_token : Bytes → Bool → Setting Bytes
check_token token anonymous =
    if is_empty token && not anonymous
    then refused token_missing
    else if not (is_empty token) && anonymous
    then refused token_and_anonymous
    else if not (is_empty token) && ltb (length token) 16
    then refused (token_short (length token))
    else if contains_any token (codes "/?# ")
    then refused token_unsafe
    else set_to token

-- `splitList`
unfoldable pub split_list : Bytes → List Bytes
unfolding fields_func
split_list =
    fields_func (λ c. c == b',' || (c == b'\n' || (c == b' ' || (c == b'\t' || c == b'\r'))))

-- The loop of `defaultHosts`
unfoldable pub known_hosts : ⦃c : Unicode⦄ → List Bytes → List Bytes → Setting (List Bytes)
unfolding to_lower supported_host
known_hosts [] hosts = set_to hosts
known_hosts (h ∷ hs) hosts =
    let rest = known_hosts hs (hosts ++ to_lower h ∷ []) in
    if supported_host (to_lower h) then rest else refused (host_unknown (to_lower h))

-- `defaultHosts`, on the variable's value
unfoldable pub default_hosts : ⦃c : Unicode⦄ → Bytes → Setting (List Bytes)
unfolding split_list known_hosts
default_hosts v = known_hosts (split_list v) []
