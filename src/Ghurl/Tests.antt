-- ===== src/Ghurl/Tests.antt =====
-- Runs of internal/ghurl, and its properties at concrete targets.
use gh_proxy.Base.{
  Bytes, ◌++◌, inl, same, List, ◌↔◌, codes, some, none, false, ◌≡◌, refl, [], ◌∷◌, Option,
}
use mathlib.Core.Option
use gh_proxy.GoLib.Ascii.{plain}
use gh_proxy.GoLib.Url.{Url}
use gh_proxy.Ghurl.Matchers.{raw, release, match_release}
use gh_proxy.Ghurl.Shape.{Shape}
use gh_proxy.Ghurl.Shape.Decide.{matcher, captures, matcher_iff}
use gh_proxy.Ghurl.Spelling.{Spelling, merged_slash, bare, www, host_text, spell}
use gh_proxy.Ghurl.Accept.{asked, parse_with_defaults-accepts}
use gh_proxy.Ghurl.Safety.{IsForwardable}
use gh_proxy.Ghurl.Safety.Boundary.{parse_with_defaults-IsForwardable}
use gh_proxy.Ghurl.Fallback.{parse_with_defaults-named}
use gh_proxy.Ghurl.Rule.{Rule, parse_rules, rules_string}
use gh_proxy.Ghurl.Rule.RoundTrip.{parse_rules-reparse}
use gh_proxy.Ghurl.Target.{Target}
use gh_proxy.Ghurl.Parse.{prepare, names_a_host, parse, parse_with_defaults}

abbrev summary : Option Target → Option (Bytes × Bytes × Bytes × Bytes)
summary = Option.map (λ t. (t.owner, t.repo, t.url.host, t.url.path))

parse_tests :
    (summary (parse (codes "HTTP:/www.GitHub.com/cli/cli/blob/trunk/a.md?x=1"))
      ≡ some (codes "cli", codes "cli", codes "github.com", codes "/cli/cli/raw/trunk/a.md"))
    × (summary (
          parse_with_defaults
            (codes "cli/cli/main/logo.png")
            (codes "github.com" ∷ codes "raw.githubusercontent.com" ∷ []))
        ≡ some (
          codes "cli",
          codes "cli",
          codes "raw.githubusercontent.com",
          codes "/cli/cli/main/logo.png",
        ))
    × (summary (parse (codes "https://github.com/o/blob/raw/main/f"))
        ≡ some (codes "o", codes "blob", codes "github.com", codes "/o/raw/raw/main/f"))
    × (parse (codes "https://gitlab.com/cli/cli/blob/trunk/a.md") ≡ none)
unfolding parse parse_with_defaults
parse_tests = (refl, refl, refl, refl)

abbrev https_url : Bytes → Bytes → Url
https_url host path = record {
  scheme = codes "https";
  opaque = [];
  user = none;
  host = host;
  path = path;
  raw_path = [];
  omit_host = false;
  force_query = false;
  raw_query = [];
  fragment = [];
  raw_fragment = [];
}

abbrev logo : Target
logo = record {
  kind = raw;
  owner = codes "cli";
  repo = codes "cli";
  url = https_url (codes "raw.githubusercontent.com") (codes "/cli/cli/main/logo.png");
}

abbrev two_hosts : List Bytes
two_hosts = codes "github.com" ∷ (codes "raw.githubusercontent.com" ∷ [])

parse_with_defaults-IsForwardable_example : IsForwardable logo
unfolding parse_with_defaults
parse_with_defaults-IsForwardable_example =
    parse_with_defaults-IsForwardable (codes "cli/cli/main/logo.png") two_hosts {t = logo} refl

parse_with_defaults-named_example :
    parse_with_defaults (codes "http:/gitlab.com/cli/cli/tags") two_hosts
    ≡ parse (codes "http:/gitlab.com/cli/cli/tags")
unfolding prepare names_a_host
parse_with_defaults-named_example =
    parse_with_defaults-named (codes "http:/gitlab.com/cli/cli/tags")
      (https_url (codes "gitlab.com") (codes "/cli/cli/tags")) two_hosts refl
      (inl (codes "gitlab", codes "com", refl))

abbrev bare_url : Url
bare_url = record (https_url (codes "cli") (codes "/cli/main/logo.png")) {
  raw_query = codes "raw=true";
}

abbrev asked_logo : Target
asked_logo = record logo { url = record logo.url { raw_query = codes "raw=true" } }

bare_tests :
    parse_with_defaults (codes "cli/cli/main/logo.png?raw=true") two_hosts ≡ some asked_logo
unfolding parse_with_defaults
bare_tests = refl

matcher_iff_example :
    (matcher raw (codes "/cli/cli/main/logo.png") ≡ captures raw (codes "cli") (codes "cli"))
    ↔ Shape raw (codes "/cli/cli/main/logo.png") (codes "cli") (codes "cli")
matcher_iff_example = matcher_iff raw (codes "/cli/cli/main/logo.png") (codes "cli") (codes "cli")

abbrev access_list : Bytes
access_list = codes "cli/cli, */linux # all kernels"

abbrev access_rules : List Rule
access_rules =
    record { owner = codes "cli"; repo = codes "cli" }
    ∷ (record { owner = codes "*"; repo = codes "linux" } ∷ [])

parse_rules-reparse_example : parse_rules (rules_string access_rules) ≡ parse_rules access_list
unfolding parse_rules
parse_rules-reparse_example = parse_rules-reparse access_list {rs = access_rules} refl

abbrev zip_path : Bytes
zip_path = codes "cli/cli/releases/download/v2.0/gh.zip"

spelling_tests :
    (summary (parse (spell merged_slash (codes "github.com/cli/cli/tags")))
      ≡ some (codes "cli", codes "cli", codes "github.com", codes "/cli/cli/tags"))
    × (summary (parse (spell bare (codes "gist.github.com/o/raw/f")))
        ≡ some (codes "o", [], codes "gist.github.com", codes "/o/raw/f"))
unfolding parse
spelling_tests = (refl, refl)

parse_with_defaults-accepts_example :
    (t : Target) × ((sp : Spelling) (defaults : List Bytes)
      → parse_with_defaults (spell sp (host_text www ++ (b'/' ∷ zip_path))) defaults ≡ some t)
    × IsForwardable t
    × (t.url.host ≡ asked www)
unfolding match_release same
parse_with_defaults-accepts_example =
    parse_with_defaults-accepts www release zip_path (codes "cli") (codes "cli") refl (inl refl)
      ((matcher_iff release (b'/' ∷ zip_path) (codes "cli") (codes "cli")).0 refl)
