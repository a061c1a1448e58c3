-- ===== src/Ghurl/Safety.antt =====
-- internal/ghurl/ghurl.go as the boundary against request forgery: what a target is, whatever the
-- request target says and whatever hosts are configured as defaults.
mod Hosts
pub mod Boundary
use gh_proxy.Base.{
  ℕ, Bool, true, false, not, ◌&&◌, ◌||◌, Option, none, some, List, [], ◌∷◌, ◌++◌, ◌≡◌, ◌≢◌, refl,
  ap, sym, ◌∙◌, map, arith, ◌==◌, if◌then◌else◌, ◌>>=◌, >>=-eq-some, ◌⊎◌, inl, inr, Bool-cases,
  Option-cases, Bytes, All, codes, same, same_iff, or_else, List-cases, some_inj,
}
use gh_proxy.GoLib.Strings.{Unicode, to_lower, cut_at}
use gh_proxy.GoLib.Strings.CutAt.{IsCutAt, IsApart}
use gh_proxy.GoLib.Url
use gh_proxy.GoLib.Url.{Url, hostname, escaped_path}
use gh_proxy.Ghurl.Matchers.{
  Kind, invalid, release, blob, git, tags, raw, gist, owner_repo, owner_repo_if, first_segment,
  match_release, match_blob, match_git, match_tags, match_raw, match_gist,
}
use gh_proxy.Ghurl.Shape.{Shape}
use gh_proxy.Ghurl.Shape.Decide.{matcher, captures, matcher_iff}
use gh_proxy.Ghurl.Target.{
  Target, Candidate, github_candidates, raw_candidates, gist_candidates, host_candidates,
  first_match, new_target, rewrite_blob_to_raw, finish_target, match, second,
}
use gh_proxy.Ghurl.Parse.{
  normalize, prepare, try_default, try_defaults, fall_back, names_a_host, hostless,
  parse_with_defaults,
}
use gh_proxy.Ghurl.Repair.{repair_scheme}

-- The hosts on which a kind of URL lives.
abbrev pub Serves : Kind → Bytes → Type 0
Serves raw h = (h ≡ codes "raw.githubusercontent.com") ⊎ (h ≡ codes "raw.github.com")
Serves gist h = (h ≡ codes "gist.github.com") ⊎ (h ≡ codes "gist.githubusercontent.com")
Serves invalid h = ⊥
Serves _ h = h ≡ codes "github.com"

-- What the path of a blob URL is fetched as: the escaped path with its first `/blob/` turned into
-- `/raw/`, as the URL parser reads it; a path without one, or that is no path then, stays.
abbrev pub IsRaw : ⦃c : Unicode⦄ → Url → Url → Type 0
IsRaw u0 u =
    ((before after : Bytes) × IsCutAt (codes "/blob/") (escaped_path u0) before after
      × (((parsed : Url) × (Url.parse (before ++ (codes "/raw/" ++ after)) ≡ some parsed)
            × (u ≡ record u0 { path = parsed.path; raw_path = parsed.raw_path }))
          ⊎ ((Url.parse (before ++ (codes "/raw/" ++ after)) ≡ none) × (u ≡ u0))))
    ⊎ (IsApart (codes "/blob/") (escaped_path u0) × (u ≡ u0))

-- The path of a target's URL: that of its kind, for a blob fetched raw.
abbrev pub HasPath : ⦃c : Unicode⦄ → Kind → Url → Bytes → Bytes → Type 0
HasPath blob u o r = (u0 : Url) × Shape blob u0.path o r × IsRaw u0 u
HasPath k u o r = Shape k u.path o r

-- A request that the proxy may send.
pub record IsForwardable ⦃c : Unicode⦄ (t : Target) : Type 0 where
  pub https : t.url.scheme ≡ codes "https"
  pub no_user : t.url.user ≡ none
  pub host_known : Serves t.kind t.url.host
  pub path_known : HasPath t.kind t.url t.owner t.repo
