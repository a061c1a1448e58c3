-- ===== src/Main.antt =====
-- cmd/gh-proxy/main.go, with the part of internal/server/server.go that fills the status page: how
-- the configuration reaches the other parts.
pub mod Admin
pub mod Sent
pub mod Handle
pub mod Boot
pub mod Run
mod Tests
use gh_proxy.Base.{
  ℕ, Bool, true, false, not, Option, none, some, List, [], ◌∷◌, if◌then◌else◌, Bytes, codes, same,
  is_empty, ℤ, pos, negsuc,
}
use gh_proxy.GoLib.Strings.{Unicode}
use gh_proxy.Ghurl.Rule.{rules_string}
use gh_proxy.Config.{Config, upstream_source_gh}
use gh_proxy.Ghcli
use gh_proxy.Ghcli.{Gh, System, Source, Trouble, new_options, load, refresh}
use gh_proxy.Proxy
use gh_proxy.Status.{Info, Build}

-- `authMode`
unfoldable pub auth_mode : Config → Bytes
auth_mode cfg = if cfg.allow_anonymous then codes "anonymous" else codes "token"

-- `upstreamMode`
unfoldable pub upstream_mode : Config → Bytes
unfolding same
upstream_mode cfg =
    if same cfg.upstream_source upstream_source_gh
    then codes "gh-cli"
    else if is_empty cfg.upstream_token
    then codes "none"
    else codes "token"

-- `StatusInfo`
unfoldable pub status_info : Config → Info
unfolding auth_mode upstream_mode rules_string
status_info cfg = record {
  prefix = cfg.prefix;
  auth = auth_mode cfg;
  status_auth = cfg.status_auth;
  upstream = upstream_mode cfg;
  allow_list = rules_string cfg.allow_list;
  deny_list = rules_string cfg.deny_list;
  default_hosts = cfg.default_hosts;
  size_limit = cfg.size_limit;
  max_redirects = cfg.max_redirects;
  cors = cfg.cors;
}

-- The variables that the build sets
pub record Linked : Type 0 where
  pub version : Bytes
  pub commit : Bytes
  pub branch : Bytes
  pub build_time : Bytes
  pub build_number : Bytes
  pub repo : Bytes

-- `buildInfo`
unfoldable pub build_info : Linked → Build
build_info l = record {
  version = l.version;
  commit = l.commit;
  branch = l.branch;
  time = l.build_time;
  number = l.build_number;
  repo = l.repo;
}

-- `upstreamCredential`, which keeps a source or none, or fails
pub data Credential : Type 0 where
  fixed : Credential
  sourced : Ghcli.Options → Source → Credential
  unavailable : Trouble → Credential

-- What `upstreamCredential` asks the gh CLI with
abbrev pub gh_options : System → Config → Ghcli.Options
gh_options sys cfg = new_options sys (record {
  bin = cfg.gh_bin;
  host = cfg.gh_host;
  config_dir = cfg.gh_config_dir;
  refresh = cfg.gh_refresh;
  timeout = pos 0;
})

module _ ⦃c : Unicode⦄ where
  unfoldable pub upstream_credential : System → Config → Gh → Credential
  unfolding same load new_options
  upstream_credential sys cfg gh =
      if not (same cfg.upstream_source upstream_source_gh)
      then fixed
      else let (source, error) = load (gh_options sys cfg) (record { token = [] }) gh in
        elim error.0 [ some t ↦ unavailable t | none ↦ sourced (gh_options sys cfg) source ]

  -- The token function of the proxy after some ticks of the refresh that runs beside it
  unfoldable pub token_func : Credential → List Gh → Option Bytes
  unfolding refresh
  token_func fixed ghs = none
  token_func (sourced o s) ghs = some (refresh o s ghs).token
  token_func (unavailable t) ghs = none

  -- The number of rounds of a loop up to an int
  abbrev pub rounds : ℤ → ℕ
  rounds (pos n) = n
  rounds (negsuc n) = 0

  -- The options that `run` makes the proxy with, as they stand at a request after those ticks
  unfoldable pub proxy_options : Config → Credential → List Gh → Proxy.Options
  unfolding token_func
  proxy_options cfg cred ghs = record {
    redirect_hosts = cfg.redirect_hosts;
    max_redirects = rounds cfg.max_redirects;
    size_limit = cfg.size_limit;
    upstream_token = cfg.upstream_token;
    token_func = token_func cred ghs;
    cors = cfg.cors;
    log_targets = cfg.log_targets;
    dial_timeout = cfg.dial_timeout;
    response_header_timeout = cfg.response_header_timeout;
  }
