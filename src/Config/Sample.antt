-- ===== src/Config/Sample.antt =====
-- An environment, and the configuration that `Load` makes of it.
use gh_proxy.Base.{
  true, false, Option, none, some, List, [], ◌∷◌, if◌then◌else◌, Bytes, codes, same, pos,
}
use gh_proxy.Config.{Config, status_auth_token, upstream_source_env}
use gh_proxy.Config.Env.{Environment}
use gh_proxy.Config.Load.{seconds, default_redirect_hosts}

abbrev find : List (Bytes × Bytes) → Bytes → Option Bytes
find [] key = none
find ((k, v) ∷ rest) key = let others = find rest key in if same k key then some v else others

instance abbrev pub environment : Environment
environment = record {
  lookup = find (
      (codes "GHP_TOKEN_FILE", codes "/run/secrets/token")
      ∷ ((codes "GHP_PREFIX", codes "gh")
          ∷ ((codes "GHP_DENY_LIST", codes "evil")
              ∷ ((codes "GHP_DEFAULT_HOST", codes "raw.githubusercontent.com")
                  ∷ ((codes "GHP_STATUS_PATH", codes "/status/")
                      ∷ ((codes "GHP_CORS", codes "true")
                          ∷ ((codes "GHP_SIZE_LIMIT", codes "2 kb") ∷ [])))))));
  read_file = find ((codes "/run/secrets/token", codes "0123456789abcdef\n") ∷ []);
  parse_duration = λ v. none;
}

abbrev pub loaded : Config
loaded = record {
  listen = codes "0.0.0.0:8899";
  admin_listen = codes "127.0.0.1:8900";
  prefix = codes "/gh/";
  token = codes "0123456789abcdef";
  allow_anonymous = false;
  allow_list = [];
  deny_list = record { owner = codes "evil"; repo = [] } ∷ [];
  default_hosts = codes "raw.githubusercontent.com" ∷ [];
  upstream_token = [];
  upstream_source = upstream_source_env;
  gh_bin = [];
  gh_host = [];
  gh_config_dir = [];
  gh_refresh = pos 0;
  redirect_hosts = default_redirect_hosts;
  max_redirects = pos 5;
  size_limit = pos 2048;
  status_path = codes "/status";
  status_auth = status_auth_token;
  cors = true;
  log_targets = false;
  log_level = codes "info";
  read_header_timeout = seconds 15;
  idle_timeout = seconds 120;
  dial_timeout = seconds 10;
  response_header_timeout = seconds 30;
  shutdown_timeout = seconds 30;
}
