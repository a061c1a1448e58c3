-- ===== src/Config/Load/Minimal.antt =====
-- internal/config/config.go: the least that `Load` asks for.
use gh_proxy.Base.{false, none, some, [], ◌≡◌, refl, if◌then◌else◌, Bytes, codes, same, pos}
use gh_proxy.GoLib.Strings.{Unicode, trim_space}
use gh_proxy.Config.{Config, status_auth_token, upstream_source_env}
use gh_proxy.Config.Normalize.{set_to, check_token}
use gh_proxy.Config.Normalize.Token.{IsAccepted, check_token_iff}
use gh_proxy.Config.Env.{Environment}
use gh_proxy.Config.Load.{seconds, default_redirect_hosts, load}

-- An environment in which the token is the only variable
abbrev pub only_token : Bytes → Environment
only_token token = record {
  lookup = λ key. if same key (codes "GHP_TOKEN") then some token else none;
  read_file = λ path. none;
  parse_duration = λ text. none;
}

-- The configuration with that token and the documented default of every other setting
abbrev pub defaults : Bytes → Config
defaults token = record {
  listen = codes "0.0.0.0:8899";
  admin_listen = codes "127.0.0.1:8900";
  prefix = codes "/";
  token = token;
  allow_anonymous = false;
  allow_list = [];
  deny_list = [];
  default_hosts = [];
  upstream_token = [];
  upstream_source = upstream_source_env;
  gh_bin = [];
  gh_host = [];
  gh_config_dir = [];
  gh_refresh = pos 0;
  redirect_hosts = default_redirect_hosts;
  max_redirects = pos 5;
  size_limit = pos 0;
  status_path = [];
  status_auth = status_auth_token;
  cors = false;
  log_targets = false;
  log_level = codes "info";
  read_header_timeout = seconds 15;
  idle_timeout = seconds 120;
  dial_timeout = seconds 10;
  response_header_timeout = seconds 30;
  shutdown_timeout = seconds 30;
}

-- A token suffices: where the environment holds only one that is accepted and has no white space
-- around it, `Load` returns it with the default of every other setting.
pub load-only_token :
    ⦃c : Unicode⦄ (token : Bytes)
    → IsAccepted token false
    → trim_space token ≡ token
    → load ⦃e = only_token token⦄ ≡ set_to (defaults token)
unfolding load
load-only_token token accepted trimmed =
    let checked : check_token token false ≡ set_to token =
      (check_token_iff token false).1 accepted in
    rw (trimmed, checked) refl
