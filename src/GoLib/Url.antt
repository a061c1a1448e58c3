-- ===== src/GoLib/Url.antt =====
-- Go's `net/url` (1.23): a parsed URL, `Parse`, `EscapedPath`, `Hostname` and `PathUnescape`.
pub mod Escape
pub mod Print
pub mod Plain
pub mod Resolve
use gh_proxy.Base.{
  ℕ, Bool, true, false, not, ◌&&◌, ◌||◌, Option, none, some, List, [], ◌∷◌, ◌++◌, ltb, ◌==◌, within,
  if◌then◌else◌, ◌>>=◌, Bytes, codes, any, all, same, is_empty,
}
use gh_proxy.GoLib.Strings.{
  Unicode, to_lower, has_prefix, has_suffix, cut_prefix, cut_suffix, cut, cut_at, cut_last,
  contains_byte, trim_prefix, trim_suffix,
}
use gh_proxy.GoLib.Url.Escape.{
  Mode, encode_host, encode_zone, encode_path, encode_path_segment, encode_user_password,
  encode_fragment, unescape, escape, valid_encoded,
}

pub record Userinfo : Type 0 where
  pub username : Bytes
  pub password : Option Bytes

pub record Url : Type 0 where
  pub scheme : Bytes
  pub opaque : Bytes
  pub user : Option Userinfo
  pub host : Bytes
  pub path : Bytes
  pub raw_path : Bytes
  pub omit_host : Bool
  pub force_query : Bool
  pub raw_query : Bytes
  pub fragment : Bytes
  pub raw_fragment : Bytes

abbrev pub empty_url : Url
empty_url = record {
  scheme = [];
  opaque = [];
  user = none;
  host = [];
  path = [];
  raw_path = [];
  omit_host = false;
  force_query = false;
  raw_query = [];
  fragment = [];
  raw_fragment = [];
}

-- `stringContainsCTLByte`
abbrev pub is_ctl : ℕ → Bool
is_ctl c = ltb c b' ' || c == 0x7f

abbrev is_letter : ℕ → Bool
is_letter c = within b'a' b'z' c || within b'A' b'Z' c

abbrev is_digit : ℕ → Bool
is_digit = within b'0' b'9'

-- `getScheme`: `first` is `i == 0`; `none` for a missing scheme, and an empty scheme when there
-- is none.
scheme_loop : Bool → Bytes → Bytes → Bytes → Option (Bytes × Bytes)
scheme_loop first seen whole [] = some ([], whole)
scheme_loop first seen whole (c ∷ s) =
    let next = scheme_loop false (seen ++ c ∷ []) whole s in
    if is_letter c
    then next
    else if is_digit c || contains_byte c (codes "+-.")
    then (if first then some ([], whole) else next)
    else if c == b':'
    then (if first then none else some (seen, s))
    else some ([], whole)

unfoldable pub get_scheme : Bytes → Option (Bytes × Bytes)
unfolding scheme_loop
get_scheme raw = scheme_loop true [] raw raw

-- `validOptionalPort`
unfoldable pub valid_optional_port : Bytes → Bool
valid_optional_port [] = true
valid_optional_port (c ∷ s) = c == b':' && all is_digit s

abbrev valid_userinfo : Bytes → Bool
valid_userinfo =
    all (λ c. is_letter c || is_digit c || contains_byte c (codes "-._:~!$&'()*+,;=%@"))

parse_userinfo : Bytes → Option Userinfo
unfolding cut unescape
parse_userinfo s =
    let (name, pass, found) = cut b':' s in
    if not (valid_userinfo s)
    then none
    else if found
    then (do
      n ← unescape encode_user_password name
      p ← unescape encode_user_password pass
      some (record { username = n; password = some p }))
    else (do n ← unescape encode_user_password s; some (record { username = n; password = none }))

-- A host in brackets: the part up to `]`, with a zone behind `%25`, and what follows.
bracketed_host : Bytes → Bytes → Option Bytes
unfolding cut_at unescape
bracketed_host inner rest = elim (cut_at (codes "%25") inner) [
  | none ↦ unescape encode_host (inner ++ rest)
  | some (address, zone) ↦ (do
    h1 ← unescape encode_host address
    h2 ← unescape encode_zone (codes "%25" ++ zone)
    h3 ← unescape encode_host rest
    some (h1 ++ (h2 ++ h3)))
]

unfoldable pub parse_host : Bytes → Option Bytes
unfolding bracketed_host has_prefix cut_last valid_optional_port unescape
parse_host host =
    if has_prefix host (codes "[")
    then elim (cut_last b']' host) [
      | none ↦ none
      | some (inner, port) ↦
          if valid_optional_port port then bracketed_host inner (b']' ∷ port) else none
    ]
    else elim (cut_last b':' host) [
      | none ↦ unescape encode_host host
      | some (name, port) ↦
          if valid_optional_port (b':' ∷ port) then unescape encode_host host else none
    ]

-- `parseAuthority`
unfoldable pub parse_authority : Bytes → Option (Option Userinfo × Bytes)
unfolding parse_host parse_userinfo cut_last
parse_authority authority = elim (cut_last b'@' authority) [
  | none ↦ (do host ← parse_host authority; some (none, host))
  | some (userinfo, h) ↦ (do
    host ← parse_host h
    user ← parse_userinfo userinfo
    some (some user, host))
]

-- `setPath`
unfoldable pub set_path : Url → Bytes → Option Url
unfolding unescape escape same
set_path u p = do
  path ← unescape encode_path p
  some (record u { path = path; raw_path = if same p (escape encode_path path) then [] else p })

-- `setFragment`
set_fragment : Url → Bytes → Option Url
unfolding unescape escape same
set_fragment u f = do
  fragment ← unescape encode_fragment f
  some (record u {
    fragment = fragment;
    raw_fragment = if same f (escape encode_fragment fragment) then [] else f;
  })

-- The query: `?` at the end and nowhere before it is kept as `ForceQuery`.
unfoldable pub split_query : Bytes → Bytes × Bytes × Bool
unfolding cut
split_query rest =
    let (path, query, found) = cut b'?' rest in (path, query, found && is_empty query)

-- The authority behind `//`, and the path.
unfoldable pub split_authority : Bytes → Bytes × Bytes
unfolding cut
split_authority s =
    let (authority, rest, found) = cut b'/' s in (authority, if found then b'/' ∷ rest else [])

-- Behind the scheme and without the query; `u` holds these.
unfoldable pub parse_rest : Url → Bytes → Option Url
unfolding has_prefix cut_prefix cut split_authority parse_authority set_path
parse_rest u rest =
    let segment = (cut b'/' rest).0 in
    let relative = set_path u rest in
    if not (has_prefix rest (codes "/"))
    then (if not (is_empty u.scheme)
        then some (record u { opaque = rest })
        else if contains_byte b':' segment
        then none
        else relative)
    else if (not (is_empty u.scheme) || not (has_prefix rest (codes "///")))
    then elim (cut_prefix rest (codes "//")) [
      | none ↦ set_path (record u { omit_host = not (is_empty u.scheme) }) rest
      | some s ↦ (do
        found ← parse_authority (split_authority s).0
        set_path (record u { user = found.0; host = found.1 }) (split_authority s).1)
    ]
    else relative

-- `parse` with `viaRequest` false
unfoldable pub parse_no_fragment : ⦃c : Unicode⦄ → Bytes → Option Url
unfolding same get_scheme to_lower split_query parse_rest
parse_no_fragment raw =
    if any is_ctl raw
    then none
    else if same raw (codes "*")
    then some (record empty_url { path = codes "*" })
    else do
      found ← get_scheme raw
      let query = split_query found.1
      parse_rest
          (record empty_url {
            scheme = to_lower found.0;
            raw_query = query.1;
            force_query = query.2;
          })
          query.0

-- `url.Parse`, with `none` for an error
unfoldable pub parse : ⦃c : Unicode⦄ → Bytes → Option Url
unfolding cut parse_no_fragment set_fragment
parse raw = do
  let parts = cut b'#' raw
  u ← parse_no_fragment parts.0
  if is_empty parts.1 then some u else set_fragment u parts.1

-- `EscapedPath`
unfoldable pub escaped_path : Url → Bytes
unfolding valid_encoded unescape escape same
escaped_path u =
    let fallback = if same u.path (codes "*") then codes "*" else escape encode_path u.path in
    if not (is_empty u.raw_path) && valid_encoded encode_path u.raw_path
    then elim (unescape encode_path u.raw_path) [
      | none ↦ fallback
      | some p ↦ if same p u.path then u.raw_path else fallback
    ]
    else fallback

-- The host without its port, as `splitHostPort` has it before it looks for brackets.
unfoldable pub strip_port : Bytes → Bytes
unfolding cut_last valid_optional_port
strip_port host = elim (cut_last b':' host) [
  | none ↦ host
  | some (name, port) ↦ if valid_optional_port (b':' ∷ port) then name else host
]

-- `Hostname`
unfoldable pub hostname : Url → Bytes
unfolding strip_port has_prefix has_suffix trim_prefix trim_suffix
hostname u =
    let h = strip_port u.host in
    if has_prefix h (codes "[") && has_suffix h (codes "]")
    then trim_suffix (trim_prefix h (codes "[")) (codes "]")
    else h

-- `url.PathUnescape`
abbrev pub path_unescape : Bytes → Option Bytes
path_unescape = unescape encode_path_segment
