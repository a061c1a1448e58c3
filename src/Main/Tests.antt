-- ===== src/Main/Tests.antt =====
-- Runs of cmd/gh-proxy, and its property at a concrete source.
use gh_proxy.Base.{
  ℕ, suc, arith, ap, ◌≤◌, true, false, map, length, none, some, same, if◌then◌else◌, List, [], ◌∷◌,
  ◌++◌, ◌≡◌, refl, Bytes, codes, pos,
}
use gh_proxy.GoLib.Ascii.{plain}
use gh_proxy.GoLib.Header.{values}
use gh_proxy.Config.{Config, upstream_source_gh}
use gh_proxy.Config.Sample.{loaded}
use gh_proxy.Ghcli.{Gh, Source, printed, run_failed}
use gh_proxy.Ghcli.Sample.{bare_system, binary, file_only}
use gh_proxy.Ghcli.Refresh.{IsHeaderValue}
use gh_proxy.Proxy.{rewrite}
use gh_proxy.Proxy.Sample.{download, info}
use gh_proxy.Main.{fixed, sourced, gh_options, status_info, upstream_credential, proxy_options}
use gh_proxy.Main.Admin.{healthcheck, healthy, admin_handler}
use gh_proxy.Status.Sample.{render, handler}
use gh_proxy.Config.Sample.{environment}
use mathlib.Core.Option
use gh_proxy.Config.Load.{load}
use gh_proxy.Server.Sample.{https_url}
use gh_proxy.Auth
use gh_proxy.Ghurl.Parse
use gh_proxy.Server
use gh_proxy.Proxy.Reverse
use gh_proxy.Server.{new, not_found}
use gh_proxy.Server.Admitted.Loaded.{HasCredential}
use gh_proxy.Proxy
use gh_proxy.Proxy.{Outgoing}
use gh_proxy.Proxy.Reverse.{Network, Served, wrote}
use gh_proxy.Main.Handle.{Incoming, as_request, handle}
use gh_proxy.Main.Handle.Guard.{Guarded, handled, handle-Guarded}
use gh_proxy.Main.Handle.Closed.{load-handle}
use gh_proxy.Main.Sent.{upstream_credential-rewrite}

abbrev configured : Config
configured = record loaded {
  upstream_source = upstream_source_gh;
  gh_bin = codes "gh";
  gh_host = codes "github.com";
  gh_config_dir = codes "/gh";
  gh_refresh = pos 300;
}

abbrev source : Source
source = record { token = codes "gho_mine" }

abbrev later : List Gh
later = binary (run_failed (codes "exit 1") []) ∷ (binary (printed (codes "gho_new\n")) ∷ [])

credential_tests :
    (upstream_credential bare_system loaded file_only ≡ fixed)
    × (upstream_credential bare_system configured file_only
        ≡ sourced (gh_options bare_system configured) source)
    × ((status_info loaded).deny_list ≡ codes "evil")
    × ((status_info configured).upstream ≡ codes "gh-cli")
unfolding upstream_credential status_info
credential_tests = (refl, refl, refl, refl)

upstream_credential-rewrite_example :
    (token : Bytes) × IsHeaderValue token
    × (values
          (rewrite
            (proxy_options configured (sourced (gh_options bare_system configured) source) later)
            download).header
          (codes "Authorization")
        ≡ (codes "Bearer " ++ token) ∷ [])
unfolding upstream_credential
upstream_credential-rewrite_example =
    upstream_credential-rewrite bare_system configured file_only later
      (gh_options bare_system configured) source download info refl refl

-- The health check against the admin listener itself
admin_tests :
    (healthcheck (λ url.
        if same url (codes "http://127.0.0.1:8900/healthz")
        then Option.map
            (λ p. p.status)
            (admin_handler handler (codes "v1") (codes "GET") (codes "/healthz") 5 0)
        else none)
      ≡ healthy)
    × (Option.map
          (λ p. p.status)
          (admin_handler handler (codes "v1") (codes "GET") (codes "/status/x") 5 0)
        ≡ some 404)
    × (Option.map
          (λ p. p.status)
          (admin_handler handler (codes "v1") (codes "GET") (codes "/metrics") 5 0)
        ≡ some 200)
    × (admin_handler handler (codes "v1") (codes "GET") (codes "/") 5 0 ≡ none)
unfolding healthcheck admin_handler
admin_tests = (refl, refl, refl, refl)

-- A network that answers everything with a page and counts
instance abbrev counting : Network ℕ
counting = record {
  connect = λ s. record {
    send = λ k r. (
      suc k,
      some (record {
        status = 200;
        header = [];
        body = codes "zip";
        content_length = pos 3;
        request = some r;
      }),
    );
  };
}

abbrev visit : Bytes → Incoming
visit target = record {
  method = codes "GET";
  request_uri = target;
  url = https_url [] target;
  host = codes "gh.example";
  header = (codes "Cookie", codes "id=1" ∷ []) ∷ [];
  body = none;
  content_length = pos 0;
}

abbrev logo_target : Bytes
logo_target = codes "/gh/0123456789abcdef/cli/cli/main/logo.png"

abbrev settings : Proxy.Options
settings = proxy_options loaded fixed []

handled_at : Bytes → Served (ℕ × List Outgoing)
handled_at target = handled (new loaded true) handler settings none 0 (visit target) none 5 0 false

handle_tests :
    (map (λ r. r.host) (handled_at logo_target).world.1 ≡ codes "raw.githubusercontent.com" ∷ [])
    × (map (λ r. r.header) (handled_at logo_target).world.1
        ≡ ((codes "User-Agent", [] ∷ []) ∷ []) ∷ [])
    × ((handled_at (codes "/gh/wrong/cli/cli/main/logo.png")).world.1 ≡ [])
    × ((handled_at (codes "/gh/wrong/cli/cli/main/logo.png")).written ≡ wrote not_found)
    × ((handled_at (codes "/status")).written ≡ wrote not_found)
unfolding handled_at handle new Server.authenticate Auth.check Server.resolve
    Parse.parse_with_defaults Server.lists_allow Reverse.new proxy_options Auth.match
handle_tests = (refl, refl, refl, refl, refl)

handle-Guarded_example :
    Guarded {W = ℕ}
      (new loaded true)
      handler
      settings
      none
      0
      (visit logo_target)
      (handled {W = ℕ} (new loaded true) handler settings none 0 (visit logo_target) none 5 0 false)
handle-Guarded_example =
    handle-Guarded {W = ℕ} (new loaded true) handler settings none 0 (visit logo_target) none 5 0
      false

one_sent :
    length
      (handled {W = ℕ}
        (new loaded true)
        handler
        settings
        none
        0
        (visit logo_target)
        none
        5
        0
        false).world.1
    ≡ 1
unfolding handle new Server.authenticate Auth.check Server.resolve Parse.parse_with_defaults
    Server.lists_allow Reverse.new proxy_options
one_sent = refl

one_zero : {a b : ℕ} → a ≡ 1 → a ≡ b → b ≡ 0 → ⊥
one_zero e f g = omega (arith, e, f, g)

load-handle_example :
    (16 ≤ length loaded.token) × HasCredential (new loaded true) (as_request (visit logo_target))
unfolding load
load-handle_example =
    load-handle {W = ℕ} loaded true handler settings none 0 (visit logo_target) none 5 0 false refl
      refl (λ e. one_zero one_sent (ap length e) refl)
