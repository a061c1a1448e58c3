-- ===== src/Main/Boot.antt =====
-- cmd/gh-proxy/main.go: `newLogger`, and `run` up to the start of the listeners.
pub mod Start
use gh_proxy.Base.{
  ℕ, suc, ◌+◌, ◌-◌, leb, ◌≡◌, Bool, true, false, not, ◌&&◌, ◌||◌, Option, none, some, List, [], ◌∷◌,
  ◌++◌, if◌then◌else◌, ◌==◌, Bytes, codes, same, is_empty, ℤ, pos, negsuc,
}
use mathlib.Core.Option
use gh_proxy.GoLib.Strings.{Unicode, to_upper}
use gh_proxy.GoLib.Strconv.{parse_int}
use gh_proxy.Ghurl.Rule.{rules_string}
use gh_proxy.Config.{Config, status_auth_none}
use gh_proxy.Config.Normalize.{Refusal, set_to, refused}
use gh_proxy.Config.Env.{Environment}
use gh_proxy.Config.Load
use gh_proxy.Config.Load.{seconds}
use gh_proxy.Ghcli.{Gh, System, Trouble}
use gh_proxy.Proxy
use gh_proxy.Status.{Info, Build}
use gh_proxy.Main.{
  Linked, Credential, fixed, sourced, unavailable, build_info, status_info, upstream_credential,
  proxy_options,
}
use gh_proxy.Main.Admin.{Health, healthy}

-- The sum of two levels, which does not wrap here
abbrev difference : ℕ → ℕ → ℤ
difference m n = if leb n m then pos (m - n) else negsuc (n - m - 1)

abbrev pub add_level : ℤ → ℤ → ℤ
add_level (pos a) (pos b) = pos (a + b)
add_level (pos a) (negsuc b) = difference a (suc b)
add_level (negsuc a) (pos b) = difference b (suc a)
add_level (negsuc a) (negsuc b) = negsuc (suc (a + b))

-- The text up to the first sign, and from there on
unfoldable pub cut_sign : Bytes → Bytes × Bytes
cut_sign [] = ([], [])
cut_sign (b ∷ s) =
    let rest = cut_sign s in if b == b'+' || b == b'-' then ([], b ∷ s) else (b ∷ rest.0, rest.1)

-- A level of `log/slog` by its name
unfoldable pub named_level : ⦃c : Unicode⦄ → Bytes → Option ℤ
unfolding to_upper same
named_level name =
    let upper = to_upper name in
    if same upper (codes "DEBUG")
    then some (negsuc 3)
    else if same upper (codes "INFO")
    then some (pos 0)
    else if same upper (codes "WARN")
    then some (pos 4)
    else if same upper (codes "ERROR")
    then some (pos 8)
    else none

-- `slog.Level.UnmarshalText`, with `none` for an error
unfoldable pub unmarshal_level : ⦃c : Unicode⦄ → Bytes → Option ℤ
unfolding cut_sign named_level parse_int
unmarshal_level text =
    let (name, sign) = cut_sign text in
    if is_empty sign then named_level name else elim (parse_int sign) [
      | none ↦ none
      | some offset ↦ Option.map (λ l. add_level l offset) (named_level name)
    ]

-- The level of `newLogger`
unfoldable pub log_level : ⦃c : Unicode⦄ → Bytes → ℤ
unfolding unmarshal_level
log_level text = Option.get_or (unmarshal_level text) (pos 0)

-- The settings of an `http.Server`; neither has a bound on a whole response.
pub record HttpServer : Type 0 where
  pub addr : Bytes
  pub read_header_timeout : ℤ
  pub idle_timeout : ℤ

-- The line of the log when the program starts
pub record Banner : Type 0 where
  pub version : Bytes
  pub listen : Bytes
  pub admin_listen : Bytes
  pub prefix : Bytes
  pub auth : Bytes
  pub upstream : Bytes
  pub allow_list : Bytes
  pub deny_list : Bytes
  pub size_limit : ℤ

pub data Line : Type 0 where
  starting : Banner → Line
  page_enabled : Bytes → Bytes → Line
  page_unguarded no_authentication credential_lent : Line

-- Why `run` returns
pub data RunError : Type 0 where
  config_error : Refusal → RunError
  credential_error : Trouble → RunError
  listener_error : Bytes → Bytes → Bytes → RunError
  shutdown_error : Bytes → RunError

-- What `run` has made when it starts to listen
pub record Boot : Type 0 where
  pub cfg : Config
  pub credential : Credential
  pub level : ℤ
  pub proxy : Proxy.Options
  pub info : Info
  pub build : Build
  pub public : HttpServer
  pub admin : HttpServer
  pub lines : List Line

pub data Started : Type 0 where
  gave_up : RunError → Started
  listening : Boot → Started

abbrev pub is_sourced : Credential → Bool
is_sourced (sourced o s) = true
is_sourced other = false

-- The lines on the status page, and on anonymous requests
unfoldable pub page_lines : Config → List Line
unfolding same
page_lines cfg =
    if is_empty cfg.status_path
    then []
    else page_enabled cfg.status_path cfg.status_auth
      ∷ (if same cfg.status_auth status_auth_none then page_unguarded ∷ [] else [])

unfoldable pub anonymous_lines : Config → Credential → List Line
anonymous_lines cfg credential =
    if cfg.allow_anonymous
    then no_authentication
      ∷ (if not (is_empty cfg.upstream_token) || is_sourced credential
          then credential_lent ∷ []
          else [])
    else []

module _ ⦃c : Unicode⦄ where
  -- `run` behind the credential, up to the listeners
  unfoldable pub boot : Linked → Config → Credential → Boot
  unfolding log_level proxy_options status_info build_info rules_string page_lines anonymous_lines
  boot linked cfg credential =
      let info = status_info cfg in
      record {
        cfg = cfg;
        credential = credential;
        level = log_level cfg.log_level;
        proxy = proxy_options cfg credential [];
        info = info;
        build = build_info linked;
        public = record {
          addr = cfg.listen;
          read_header_timeout = cfg.read_header_timeout;
          idle_timeout = cfg.idle_timeout;
        };
        admin = record {
          addr = cfg.admin_listen;
          read_header_timeout = seconds 5;
          idle_timeout = pos 0;
        };
        lines =
            starting (record {
              version = linked.version;
              listen = cfg.listen;
              admin_listen = cfg.admin_listen;
              prefix = cfg.prefix;
              auth = info.auth;
              upstream = info.upstream;
              allow_list = rules_string cfg.allow_list;
              deny_list = rules_string cfg.deny_list;
              size_limit = cfg.size_limit;
            })
            ∷ (page_lines cfg ++ anonymous_lines cfg credential);
      }

  -- `run` up to the listeners
  unfoldable pub start : ⦃e : Environment⦄ → System → Linked → Gh → Started
  unfolding Load.load upstream_credential boot
  start sys linked gh = elim Load.load [
    | refused why ↦ gave_up (config_error why)
    | set_to cfg ↦ elim (upstream_credential sys cfg gh) [
      | unavailable t ↦ gave_up (credential_error t)
      | fixed ↦ listening (boot linked cfg fixed)
      | sourced o s ↦ listening (boot linked cfg (sourced o s))
    ]
  ]
