-- ===== src/GoLib/Url/Resolve.antt =====
-- `URL.Parse` of `net/url`: a reference is resolved against a base.
use gh_proxy.Base.{
  Bool, true, false, not, ◌&&◌, ◌||◌, Option, none, some, List, [], ◌∷◌, ◌++◌, if◌then◌else◌, ◌>>=◌,
  Bytes, codes, same, is_empty,
}
use mathlib.Core.Option
use gh_proxy.GoLib.Strings.{Unicode, has_prefix, trim_prefix, cut_last, split}
use gh_proxy.GoLib.Url
use gh_proxy.GoLib.Url.{Url, Userinfo, escaped_path, set_path}

-- The path that `resolvePath` walks.
unfoldable pub full_path : Bytes → Bytes → Bytes
unfolding has_prefix cut_last
full_path base ref =
    if is_empty ref
    then base
    else if has_prefix ref (codes "/")
    then ref
    else elim (cut_last b'/' base) [ none ↦ ref | some (dir, x) ↦ dir ++ (b'/' ∷ ref) ]

-- One element of the path: `dst` is what is written behind the leading slash, and `first` the
-- source's flag.
unfoldable pub walk_step : Bytes × Bool → Bytes → Bytes × Bool
unfolding same cut_last
walk_step (dst, first) elem =
    if same elem (codes ".")
    then (dst, false)
    else if same elem (codes "..")
    then elim (cut_last b'/' dst) [ none ↦ ([], true) | some (dir, x) ↦ (dir, first) ]
    else ((if first then dst else dst ++ codes "/") ++ elem, false)

unfoldable pub walk : Bytes × Bool → List Bytes → Bytes × Bool
unfolding walk_step
walk s [] = s
walk s (e ∷ es) = walk (walk_step s e) es

-- Whether the path ends in `.` or `..`.
unfoldable pub ends_in_dots : List Bytes → Bool
unfolding same
ends_in_dots [] = false
ends_in_dots (e ∷ []) = same e (codes ".") || same e (codes "..")
ends_in_dots (e ∷ (f ∷ fs)) = ends_in_dots (f ∷ fs)

-- `resolvePath`
unfoldable pub resolve_path : Bytes → Bytes → Bytes
unfolding full_path split walk ends_in_dots has_prefix trim_prefix
resolve_path base ref =
    let full = full_path base ref in
    let elems = split b'/' full in
    let dst = (walk ([], true) elems).0 ++ (if ends_in_dots elems then codes "/" else []) in
    if is_empty full then [] else if has_prefix dst (codes "/") then dst else b'/' ∷ dst

abbrev has_user : Option Userinfo → Bool
has_user none = false
has_user (some u) = true

-- `setPath` with its error ignored
abbrev with_path : Url → Bytes → Url
with_path u p = Option.get_or (set_path u p) u

-- `ResolveReference`
unfoldable pub resolve_reference : Url → Url → Url
unfolding escaped_path set_path resolve_path
resolve_reference u ref =
    let schemed = if is_empty ref.scheme then record ref { scheme = u.scheme } else ref in
    let bare = is_empty ref.path && (not ref.force_query && is_empty ref.raw_query) in
    let fragmented =
      if is_empty ref.fragment
      then record schemed {
        raw_query = u.raw_query;
        fragment = u.fragment;
        raw_fragment = u.raw_fragment;
      }
      else record schemed { raw_query = u.raw_query } in
    let queried = if bare then fragmented else schemed in
    if not (is_empty ref.scheme) || (not (is_empty ref.host) || has_user ref.user)
    then with_path schemed (resolve_path (escaped_path ref) [])
    else if not (is_empty ref.opaque)
    then record schemed { user = none; host = []; path = [] }
    else if is_empty ref.path && not (is_empty u.opaque)
    then record queried { opaque = u.opaque; user = none; host = []; path = [] }
    else with_path (record queried { host = u.host; user = u.user })
        (resolve_path (escaped_path u) (escaped_path ref))

-- `u.Parse(ref)`, with `none` for an error
unfoldable pub resolve : ⦃c : Unicode⦄ → Url → Bytes → Option Url
unfolding Url.parse resolve_reference
resolve u ref = do r ← Url.parse ref; some (resolve_reference u r)
