-- ===== src/GoLib/Url/Print.antt =====
-- `URL.String` of `net/url`.
use gh_proxy.Base.{
  Bool, true, false, not, ◌&&◌, ◌||◌, Option, none, some, [], ◌∷◌, ◌++◌, if◌then◌else◌, Bytes,
  codes, same, is_empty,
}
use gh_proxy.GoLib.Strings.{has_prefix, cut, contains_byte}
use gh_proxy.GoLib.Url.Escape.{
  encode_host, encode_user_password, encode_fragment, unescape, escape, valid_encoded,
}
use gh_proxy.GoLib.Url.{Url, Userinfo, escaped_path}

-- `Userinfo.String`
unfoldable pub print_user : Userinfo → Bytes
unfolding escape
print_user u = elim u.password [
  | none ↦ escape encode_user_password u.username
  | some p ↦ escape encode_user_password u.username ++ (b':' ∷ escape encode_user_password p)
]

-- `EscapedFragment`
unfoldable pub escaped_fragment : Url → Bytes
unfolding valid_encoded unescape escape same
escaped_fragment u =
    let fallback = escape encode_fragment u.fragment in
    if not (is_empty u.raw_fragment) && valid_encoded encode_fragment u.raw_fragment
    then elim (unescape encode_fragment u.raw_fragment) [
      | none ↦ fallback
      | some f ↦ if same f u.fragment then u.raw_fragment else fallback
    ]
    else fallback

abbrev has_user : Option Userinfo → Bool
has_user none = false
has_user (some u) = true

abbrev pub print_at : Option Userinfo → Bytes
print_at none = []
print_at (some u) = print_user u ++ codes "@"

-- The authority, with its slashes.
unfoldable pub print_authority : Url → Bytes
unfolding print_user escape
print_authority u =
    let slashes =
      if not (is_empty u.host) || (not (is_empty u.path) || has_user u.user)
      then codes "//"
      else [] in
    if is_empty u.scheme && (is_empty u.host && not (has_user u.user))
    then []
    else if u.omit_host && (is_empty u.host && not (has_user u.user))
    then []
    else slashes ++ (print_at u.user ++ escape encode_host u.host)

-- The path behind what is already printed.
unfoldable pub print_path : Url → Bytes → Bytes
unfolding escaped_path has_prefix cut
print_path u before =
    let path = escaped_path u in
    let rooted =
      if not (is_empty path) && (not (has_prefix path (codes "/")) && not (is_empty u.host))
      then before ++ codes "/"
      else before in
    if is_empty rooted && contains_byte b':' (cut b'/' path).0
    then codes "./" ++ path
    else rooted ++ path

unfoldable pub print_tail : Url → Bytes
unfolding escaped_fragment
print_tail u =
    (if u.force_query || not (is_empty u.raw_query) then b'?' ∷ u.raw_query else [])
    ++ (if is_empty u.fragment then [] else b'#' ∷ escaped_fragment u)

unfoldable pub print_scheme : Url → Bytes
print_scheme u = if is_empty u.scheme then [] else u.scheme ++ codes ":"

-- `String`
unfoldable pub print : Url → Bytes
unfolding print_scheme print_authority print_path print_tail
print u =
    (if is_empty u.opaque
      then print_path u (print_scheme u ++ print_authority u)
      else print_scheme u ++ u.opaque)
    ++ print_tail u
