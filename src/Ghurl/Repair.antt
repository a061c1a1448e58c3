-- ===== src/Ghurl/Repair.antt =====
-- internal/ghurl/ghurl.go: `RepairScheme`.
use gh_proxy.Base.{◌||◌, ◌++◌, if◌then◌else◌, Bytes, codes, is_empty, drop}
use mathlib.Core.Option
use gh_proxy.GoLib.Strings.{Unicode, to_lower, trim_space, has_prefix}
use gh_proxy.GoLib.Url.{path_unescape}
use gh_proxy.GoLib.Url.Escape.{unescape}

-- The percent-encoded form of the whole URL.
unfoldable pub decode_scheme : ⦃c : Unicode⦄ → Bytes → Bytes
unfolding to_lower has_prefix unescape
decode_scheme s =
    let low = to_lower s in
    if has_prefix low (codes "https%3a") || has_prefix low (codes "http%3a")
    then Option.get_or (path_unescape s) s
    else s

-- The switch at the end.
unfoldable pub add_scheme : ⦃c : Unicode⦄ → Bytes → Bytes
unfolding to_lower has_prefix
add_scheme s =
    let low = to_lower s in
    if has_prefix low (codes "https://") || has_prefix low (codes "http://")
    then s
    else if has_prefix low (codes "https:/")
    then codes "https://" ++ drop 7 s
    else if has_prefix low (codes "http:/")
    then codes "http://" ++ drop 6 s
    else if has_prefix low (codes "https:")
    then codes "https://" ++ drop 6 s
    else if has_prefix low (codes "http:")
    then codes "http://" ++ drop 5 s
    else codes "https://" ++ s

unfoldable pub repair_scheme : ⦃c : Unicode⦄ → Bytes → Bytes
unfolding trim_space decode_scheme add_scheme
repair_scheme s =
    let trimmed = trim_space s in
    if is_empty trimmed then trimmed else add_scheme (decode_scheme trimmed)
