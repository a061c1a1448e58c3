-- ===== src/GoLib/Query.antt =====
-- `net/url.URL.Query().Get`: `ParseQuery` with its errors ignored, and the first value of a key.
use gh_proxy.Base.{
  ◌||◌, Option, none, some, List, [], ◌∷◌, ◌==◌, if◌then◌else◌, ◌>>=◌, Bytes, codes, map, same,
  is_empty, ◌≡◌, refl,
}
use gh_proxy.GoLib.Strings.{cut, split, contains_byte}
use gh_proxy.GoLib.Url.Escape.{encode_path_segment, unescape}

-- `QueryUnescape`
query_unescape : Bytes → Option Bytes
unfolding unescape
query_unescape s = unescape encode_path_segment (map (λ c. if c == b'+' then b' ' else c) s)

-- One `key=value`, with `none` for what `ParseQuery` passes over.
setting : Bytes → Option (Bytes × Bytes)
unfolding cut query_unescape
setting part =
    let (key, value, found) = cut b'=' part in
    if is_empty part || contains_byte b';' part
    then none
    else do k ← query_unescape key; v ← query_unescape value; some (k, v)

find : Bytes → List Bytes → Bytes
unfolding setting same
find key [] = []
find key (p ∷ ps) =
    let rest = find key ps in
    elim (setting p) [ none ↦ rest | some (k, v) ↦ if same k key then v else rest ]

unfoldable pub query_get : Bytes → Bytes → Bytes
unfolding split find
query_get query key = find key (split b'&' query)

query_get_example : query_get (codes "a=1&token=x%2By&token=z") (codes "token") ≡ codes "x+y"
unfolding query_get
query_get_example = refl
