-- ===== src/Ghurl/Parse.antt =====
-- internal/ghurl/ghurl.go: `Parse` and `ParseWithDefaults`. `none` is `ErrNoMatch`.
use gh_proxy.Base.{
  Bool, not, ◌&&◌, ◌||◌, Option, none, some, List, [], ◌∷◌, ◌++◌, if◌then◌else◌, ◌>>=◌, Bytes,
  codes, same, is_empty, or_else,
}
use gh_proxy.GoLib.Strings.{Unicode, contains_any, trim_prefix}
use gh_proxy.GoLib.Url
use gh_proxy.GoLib.Url.{Url, escaped_path}
use gh_proxy.Ghurl.Target.{Target, match, known_host}
use gh_proxy.Ghurl.Repair.{repair_scheme}

-- What `prepare` makes of a parsed URL.
unfoldable pub normalize : Url → Option Url
normalize u =
    if not (same u.scheme (codes "http")) && not (same u.scheme (codes "https"))
    then none
    else some (record u { user = none; scheme = codes "https" })

unfoldable pub prepare : ⦃c : Unicode⦄ → Bytes → Option Url
unfolding repair_scheme Url.parse normalize
prepare raw = Url.parse (repair_scheme raw) >>= normalize

-- `namesAHost`
unfoldable pub names_a_host : ⦃c : Unicode⦄ → Url → Bool
unfolding known_host
names_a_host u = known_host u || contains_any u.host (codes ".:")

unfoldable pub hostless : Url → Bytes
unfolding escaped_path trim_prefix
hostless u =
    let s = u.host ++ escaped_path u in
    let full = if is_empty u.raw_query then s else s ++ (b'?' ∷ u.raw_query) in
    trim_prefix full (codes "/")

-- One default host.
unfoldable pub try_default : ⦃c : Unicode⦄ → Url → Bytes → Option Target
unfolding prepare hostless match
try_default u h = do u2 ← prepare (h ++ (b'/' ∷ hostless u)); (match u2).0

-- The loop over the default hosts.
unfoldable pub try_defaults : ⦃c : Unicode⦄ → Url → List Bytes → Option Target
unfolding try_default
try_defaults u [] = none
try_defaults u (h ∷ hs) = or_else (try_default u h) (try_defaults u hs)

-- `ParseWithDefaults` behind its first `match`, whose result and whose URL these are.
unfoldable pub fall_back : ⦃c : Unicode⦄ → List Bytes → Option Target × Url → Option Target
unfolding names_a_host try_defaults
fall_back defaults (some t, u) = some t
fall_back defaults (none, u) = if names_a_host u then none else try_defaults u defaults

unfoldable pub parse_with_defaults : ⦃c : Unicode⦄ → Bytes → List Bytes → Option Target
unfolding prepare match fall_back
parse_with_defaults raw defaults = do u ← prepare raw; fall_back defaults (match u)

unfoldable pub parse : ⦃c : Unicode⦄ → Bytes → Option Target
unfolding parse_with_defaults
parse raw = parse_with_defaults raw []
