-- ===== src/Ghurl/Target.antt =====
-- internal/ghurl/ghurl.go: the host allow list, `match`, and the rewrite of a blob URL.
use gh_proxy.Base.{
  Bool, true, false, ◌||◌, Option, none, some, List, [], ◌∷◌, ◌++◌, if◌then◌else◌, Bytes, codes,
  same,
}
use gh_proxy.GoLib.Strings.{Unicode, to_lower, cut_at, trim_space}
use gh_proxy.GoLib.Url
use gh_proxy.GoLib.Url.{Url, hostname, escaped_path}
use gh_proxy.Ghurl.Matchers.{
  Kind, release, blob, git, tags, raw, gist, match_release, match_blob, match_git, match_tags,
  match_raw, match_gist,
}

pub record Target : Type 0 where
  pub kind : Kind
  pub owner : Bytes
  pub repo : Bytes
  pub url : Url

pub record Candidate : Type 0 where
  pub kind : Kind
  pub match_path : Bytes → List Bytes

abbrev pub github_candidates : List Candidate
github_candidates =
    record { kind = release; match_path = match_release }
    ∷ record { kind = blob; match_path = match_blob }
    ∷ record { kind = git; match_path = match_git }
    ∷ record { kind = tags; match_path = match_tags }
    ∷ []

abbrev pub raw_candidates : List Candidate
raw_candidates = record { kind = raw; match_path = match_raw } ∷ []

abbrev pub gist_candidates : List Candidate
gist_candidates = record { kind = gist; match_path = match_gist } ∷ []

-- `hostCandidates`, with `none` for `ok == false`
unfoldable pub host_candidates : Bytes → Option (Bytes × List Candidate)
unfolding match_release match_blob match_git match_tags match_raw match_gist same
host_candidates host =
    if same host (codes "github.com") || same host (codes "www.github.com")
    then some (codes "github.com", github_candidates)
    else if same host (codes "raw.githubusercontent.com") || same host (codes "raw.github.com")
    then some (host, raw_candidates)
    else if same host (codes "gist.github.com") || same host (codes "gist.githubusercontent.com")
    then some (host, gist_candidates)
    else none

abbrev is_known : Option (Bytes × List Candidate) → Bool
is_known none = false
is_known (some c) = true

-- `SupportedHost`
unfoldable pub supported_host : ⦃c : Unicode⦄ → Bytes → Bool
unfolding host_candidates to_lower trim_space
supported_host host = is_known (host_candidates (to_lower (trim_space host)))

-- Whether `hostCandidates` knows the URL's host.
unfoldable pub known_host : ⦃c : Unicode⦄ → Url → Bool
unfolding host_candidates to_lower hostname
known_host u = is_known (host_candidates (to_lower (hostname u)))

-- `m[1]` if there is one
abbrev pub second : List Bytes → Bytes
second [] = []
second (r ∷ m) = r

-- `newTarget`, for a slice `m` of first element `owner`
unfoldable pub new_target : Kind → Bytes → List Bytes → Url → Target
new_target k owner m u = record { kind = k; owner = owner; repo = second m; url = u }

-- The loop of `match`: the first candidate whose pattern fits.
unfoldable pub first_match : List Candidate → Url → Option Target
unfolding new_target
first_match [] u = none
first_match (c ∷ cs) u =
    let rest = first_match cs u in
    elim (c.match_path u.path) [ [] ↦ rest | o ∷ m ↦ some (new_target c.kind o m u) ]

-- `rewriteBlobToRaw`
unfoldable pub rewrite_blob_to_raw : ⦃c : Unicode⦄ → Url → Url
unfolding cut_at escaped_path Url.parse
rewrite_blob_to_raw u = elim (cut_at (codes "/blob/") (escaped_path u)) [
  | none ↦ u
  | some (before, after) ↦ elim (Url.parse (before ++ (codes "/raw/" ++ after))) [
    | none ↦ u
    | some pu ↦ record u { path = pu.path; raw_path = pu.raw_path }
  ]
]

-- What `match` does to the URL of a target.
unfoldable pub finish_target : ⦃c : Unicode⦄ → Target → Target
unfolding rewrite_blob_to_raw
finish_target t = elim t.kind [ blob ↦ record t { url = rewrite_blob_to_raw t.url } | _ ↦ t ]

-- `match`: the target, and the URL as the call leaves it
unfoldable pub match : ⦃c : Unicode⦄ → Url → Option Target × Url
unfolding host_candidates to_lower hostname first_match finish_target
match u = elim (host_candidates (to_lower (hostname u))) [
  | none ↦ (none, u)
  | some (host, candidates) ↦
      let u' = record u { host = host } in
      elim (first_match candidates u') [
        | none ↦ (none, u')
        | some t ↦ (some (finish_target t), (finish_target t).url)
      ]
]
