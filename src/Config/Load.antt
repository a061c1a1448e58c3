-- ===== src/Config/Load.antt =====
-- internal/config/config.go: `Load`, the whole configuration from the environment.
pub mod Valid
pub mod Minimal
use gh_proxy.Base.{
  ℕ, ◌*◌, ◌^◌, Bool, true, false, not, ◌&&◌, List, [], ◌∷◌, ◌++◌, map, if◌then◌else◌, Bytes, codes,
  same, is_empty, ℤ, pos, negsuc,
}
use gh_proxy.GoLib.Strings.{Unicode, to_lower, trim_space}
use gh_proxy.Config.{
  Config, status_auth_token, status_auth_none, upstream_source_env, upstream_source_gh,
}
use gh_proxy.Config.Normalize.{
  Setting, set_to, refused, Refusal, source_conflict, source_unknown, refresh_negative,
  redirects_negative, auth_unknown, normalize_prefix, normalize_status_path, check_token,
  split_list, default_hosts,
}
use gh_proxy.Config.Env.{
  Environment, getenv, env, secret, env_bool, env_int, env_duration, env_bytes, rules,
}

-- `Load` stops at its first error.
infixl 5 ◌>>=◌
abbrev pub ◌>>=◌ {κ ℓ} : {V : Type ℓ} {Z : Type κ} → Setting V → (V → Setting Z) → Setting Z
refused why >>= next = refused why
set_to value >>= next = next value

-- `n * time.Second`
abbrev pub seconds : ℕ → ℤ
seconds n = pos (n * 10 ^ 9)

abbrev pub is_negative : ℤ → Bool
is_negative (pos n) = false
is_negative (negsuc n) = true

-- `DefaultRedirectHosts`
abbrev pub default_redirect_hosts : List Bytes
default_redirect_hosts =
    codes "github.com"
    ∷ (codes "codeload.github.com"
        ∷ (codes "objects.githubusercontent.com"
            ∷ (codes "objects-origin.githubusercontent.com"
                ∷ (codes "release-assets.githubusercontent.com"
                    ∷ (codes "github-releases.githubusercontent.com"
                        ∷ (codes "github-registry-files.githubusercontent.com"
                            ∷ (codes "raw.githubusercontent.com"
                                ∷ (codes "gist.githubusercontent.com"
                                    ∷ (codes "media.githubusercontent.com"
                                        ∷ (codes "user-images.githubusercontent.com"
                                            ∷ (codes "avatars.githubusercontent.com" ∷ [])))))))))))

-- The credential's source, with the settings of the gh CLI
pub record Upstream : Type 0 where
  pub source : Bytes
  pub gh_bin : Bytes
  pub gh_host : Bytes
  pub gh_config_dir : Bytes
  pub gh_refresh : ℤ

module _ ⦃c : Unicode⦄ ⦃e : Environment⦄ where
  -- `loadUpstreamSource` where the source is the gh CLI
  unfoldable pub load_gh : Setting Upstream
  unfolding env to_lower trim_space env_duration
  load_gh =
      let refresh = env_duration (codes "GHP_GH_REFRESH") (seconds 300) in
      if is_negative refresh
      then refused refresh_negative
      else set_to (record {
        source = upstream_source_gh;
        gh_bin = env (codes "GHP_GH_BIN") (codes "gh");
        gh_host = to_lower (env (codes "GHP_GH_HOST") (codes "github.com"));
        gh_config_dir = trim_space (getenv (codes "GHP_GH_CONFIG_DIR"));
        gh_refresh = refresh;
      })

  -- `loadUpstreamSource`, where the upstream token is set already
  unfoldable pub load_upstream_source : Bytes → Setting Upstream
  unfolding same env to_lower load_gh
  load_upstream_source token =
      let source = to_lower (env (codes "GHP_UPSTREAM_TOKEN_SOURCE") upstream_source_env) in
      if same source upstream_source_env
      then set_to (record {
        source = source;
        gh_bin = [];
        gh_host = [];
        gh_config_dir = [];
        gh_refresh = pos 0;
      })
      else if same source upstream_source_gh
      then if is_empty token then load_gh else refused source_conflict
      else refused (source_unknown source)

  -- `Load`: the status page's authentication
  unfoldable pub load_status_auth : Setting Bytes
  unfolding env to_lower same
  load_status_auth =
      let auth = to_lower (env (codes "GHP_STATUS_AUTH") status_auth_token) in
      if same auth status_auth_token
      then set_to auth
      else if same auth status_auth_none
      then set_to auth
      else refused (auth_unknown auth)

  -- `Load`: the bound on redirects
  unfoldable pub load_max_redirects : Setting ℤ
  unfolding env_int
  load_max_redirects = do
    n ← env_int (codes "GHP_MAX_REDIRECTS") (pos 5)
    if is_negative n then refused redirects_negative else set_to n

  -- `Load`: the keys of the map of redirect hosts
  unfoldable pub load_redirect_hosts : List Bytes
  unfolding trim_space split_list to_lower
  load_redirect_hosts =
      let v = getenv (codes "GHP_REDIRECT_HOSTS") in
      map to_lower (if is_empty (trim_space v) then default_redirect_hosts else split_list v)

  -- `Load`
  unfoldable pub load : Setting Config
  unfolding env env_bool env_duration normalize_prefix secret check_token load_upstream_source rules
      default_hosts normalize_status_path load_status_auth load_max_redirects env_bytes
      load_redirect_hosts
  load = do
    prefix ← normalize_prefix (env (codes "GHP_PREFIX") (codes "/"))
    given ← secret (codes "GHP_TOKEN")
    upstream_token ← secret (codes "GHP_UPSTREAM_TOKEN")
    token ← check_token given (env_bool (codes "GHP_ALLOW_ANONYMOUS") false)
    upstream ← load_upstream_source upstream_token
    allow_list ← rules (codes "GHP_ALLOW_LIST")
    deny_list ← rules (codes "GHP_DENY_LIST")
    hosts ← default_hosts (getenv (codes "GHP_DEFAULT_HOST"))
    status_path ← normalize_status_path (env (codes "GHP_STATUS_PATH") [])
    status_auth ← load_status_auth
    max_redirects ← load_max_redirects
    size_limit ← env_bytes (codes "GHP_SIZE_LIMIT") (pos 0)
    set_to (record {
      listen = env (codes "GHP_LISTEN") (codes "0.0.0.0:8899");
      admin_listen = env (codes "GHP_ADMIN_LISTEN") (codes "127.0.0.1:8900");
      prefix = prefix;
      token = token;
      allow_anonymous = env_bool (codes "GHP_ALLOW_ANONYMOUS") false;
      allow_list = allow_list;
      deny_list = deny_list;
      default_hosts = hosts;
      upstream_token = upstream_token;
      upstream_source = upstream.source;
      gh_bin = upstream.gh_bin;
      gh_host = upstream.gh_host;
      gh_config_dir = upstream.gh_config_dir;
      gh_refresh = upstream.gh_refresh;
      redirect_hosts = load_redirect_hosts;
      max_redirects = max_redirects;
      size_limit = size_limit;
      status_path = status_path;
      status_auth = status_auth;
      cors = env_bool (codes "GHP_CORS") false;
      log_targets = env_bool (codes "GHP_LOG_TARGETS") false;
      log_level = env (codes "GHP_LOG_LEVEL") (codes "info");
      read_header_timeout = env_duration (codes "GHP_READ_HEADER_TIMEOUT") (seconds 15);
      idle_timeout = env_duration (codes "GHP_IDLE_TIMEOUT") (seconds 120);
      dial_timeout = env_duration (codes "GHP_DIAL_TIMEOUT") (seconds 10);
      response_header_timeout = env_duration (codes "GHP_RESPONSE_HEADER_TIMEOUT") (seconds 30);
      shutdown_timeout = env_duration (codes "GHP_SHUTDOWN_TIMEOUT") (seconds 30);
    })
