-- ===== src/Server/Sample.antt =====
-- A configuration, a server and requests to it, on which the properties are tried.
use gh_proxy.Base.{pos, Bytes, codes, true, false, none, [], ◌∷◌}
use gh_proxy.GoLib.Url.{Url}
use gh_proxy.Ghurl.Matchers.{raw, release}
use gh_proxy.Ghurl.Target.{Target}
use gh_proxy.Config.{Config, status_auth_token, upstream_source_env}
use gh_proxy.Server.{Server, Request, new}

abbrev pub config : Config
config = record {
  listen = codes ":8080";
  admin_listen = codes ":9090";
  prefix = codes "/p/";
  token = codes "s3cret";
  allow_anonymous = false;
  allow_list = [];
  deny_list = record { owner = codes "evil"; repo = [] } ∷ [];
  default_hosts = codes "raw.githubusercontent.com" ∷ [];
  upstream_token = [];
  upstream_source = upstream_source_env;
  gh_bin = codes "gh";
  gh_host = codes "github.com";
  gh_config_dir = [];
  gh_refresh = pos 600;
  redirect_hosts = [];
  max_redirects = pos 10;
  size_limit = pos 0;
  status_path = codes "/status";
  status_auth = status_auth_token;
  cors = true;
  log_targets = false;
  log_level = codes "info";
  read_header_timeout = pos 10;
  idle_timeout = pos 120;
  dial_timeout = pos 15;
  response_header_timeout = pos 60;
  shutdown_timeout = pos 30;
}

abbrev pub server : Server
server = new config true

abbrev pub request : Bytes → Bytes → Request
request method uri = record {
  method = method;
  request_uri = uri;
  url_path = uri;
  raw_query = [];
  header = [];
}

abbrev pub logo_request : Request
logo_request = request (codes "GET") (codes "/p/s3cret/cli/cli/main/logo.png")

abbrev pub https_url : Bytes → Bytes → Url
https_url host path = record {
  scheme = codes "https";
  opaque = [];
  user = none;
  host = host;
  path = path;
  raw_path = [];
  omit_host = false;
  force_query = false;
  raw_query = [];
  fragment = [];
  raw_fragment = [];
}

abbrev pub logo : Target
logo = record {
  kind = raw;
  owner = codes "cli";
  repo = codes "cli";
  url = https_url (codes "raw.githubusercontent.com") (codes "/cli/cli/main/logo.png");
}

abbrev pub archive : Target
archive = record {
  kind = release;
  owner = codes "cli";
  repo = codes "cli";
  url = https_url (codes "github.com") (codes "/cli/cli/archive/main.zip");
}
