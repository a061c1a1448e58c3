-- ===== src/Ghurl/Fallback/Bare.antt =====
-- internal/ghurl/ghurl.go: what `ParseWithDefaults` makes of a path without a host.
use gh_proxy.Base.{
  Option, none, some, List, [], ◌∷◌, ◌++◌, ◌≡◌, Bytes, All, codes, Lacks, ◌≢◌, ◌==◌, if◌then◌else◌,
}
use mathlib.Core.Option
use gh_proxy.GoLib.Strings.{Unicode, to_lower}
use gh_proxy.GoLib.Url.{Url, hostname, escaped_path}
use gh_proxy.Ghurl.Target.{Target}
use gh_proxy.Ghurl.Parse.{parse}

-- The names under which GitHub is known
abbrev pub github_hosts : List Bytes
github_hosts =
    codes "github.com"
    ∷ (codes "www.github.com"
        ∷ (codes "raw.githubusercontent.com"
            ∷ (codes "raw.github.com"
                ∷ (codes "gist.github.com" ∷ (codes "gist.githubusercontent.com" ∷ [])))))

-- A URL whose host is the first part of a path: no name of GitHub, no dot, and no port
pub record IsBare ⦃c : Unicode⦄ (u : Url) : Type 0 where
  pub unknown : All (λ h. to_lower (hostname u) ≢ h) github_hosts
  pub no_dot : Lacks b'.' u.host
  pub no_port : Lacks b':' u.host

abbrev pub query_part : Bytes → Bytes
query_part [] = []
query_part (x ∷ q) = b'?' ∷ (x ∷ q)

abbrev pub unslashed : Bytes → Bytes
unslashed [] = []
unslashed (x ∷ s) = if x == b'/' then s else x ∷ s

-- The text of a URL behind its scheme
abbrev pub text_of : Url → Bytes
text_of u = unslashed (u.host ++ (escaped_path u ++ query_part u.raw_query))

-- `t` is what the first default host gives that gives anything, in front of the text of the URL.
pub record FirstOf ⦃c : Unicode⦄ (u : Url) (defaults : List Bytes) (t : Target) : Type 0 where
  pub before : List Bytes
  pub host : Bytes
  pub after : List Bytes
  pub split : defaults ≡ before ++ host ∷ after
  pub none_before : All (λ h. parse (h ++ b'/' ∷ text_of u) ≡ none) before
  pub found : parse (host ++ b'/' ∷ text_of u) ≡ some t
