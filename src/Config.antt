-- ===== src/Config.antt =====
-- internal/config/config.go: the settings of a running process.
pub mod Normalize
pub mod Env
pub mod Load
pub mod Sample
mod Tests
use gh_proxy.Base.{ℤ, Bool, List, Bytes, codes}
use gh_proxy.Ghurl.Rule.{Rule}

pub record Config : Type 0 where
  pub listen : Bytes
  pub admin_listen : Bytes
  pub prefix : Bytes
  pub token : Bytes
  pub allow_anonymous : Bool
  pub allow_list : List Rule
  pub deny_list : List Rule
  pub default_hosts : List Bytes
  pub upstream_token : Bytes
  pub upstream_source : Bytes
  pub gh_bin : Bytes
  pub gh_host : Bytes
  pub gh_config_dir : Bytes
  pub gh_refresh : ℤ
  pub redirect_hosts : List Bytes
  pub max_redirects : ℤ
  pub size_limit : ℤ
  pub status_path : Bytes
  pub status_auth : Bytes
  pub cors : Bool
  pub log_targets : Bool
  pub log_level : Bytes
  pub read_header_timeout : ℤ
  pub idle_timeout : ℤ
  pub dial_timeout : ℤ
  pub response_header_timeout : ℤ
  pub shutdown_timeout : ℤ

abbrev pub status_auth_token : Bytes
status_auth_token = codes "token"

abbrev pub status_auth_none : Bytes
status_auth_none = codes "none"

abbrev pub upstream_source_env : Bytes
upstream_source_env = codes "env"

abbrev pub upstream_source_gh : Bytes
upstream_source_gh = codes "gh"
