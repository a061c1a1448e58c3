-- ===== src/Proxy/Sample.antt =====
-- Options and a request, on which the properties are tried.
use gh_proxy.Base.{true, false, none, some, [], ◌∷◌, codes, pos}
use gh_proxy.Server.Sample.{https_url, archive}
use gh_proxy.Proxy.{Options, Outgoing, Info}

abbrev pub options : Options
options = record {
  redirect_hosts = codes "objects.githubusercontent.com" ∷ (codes "github.com" ∷ []);
  max_redirects = 3;
  size_limit = pos 1000;
  upstream_token = codes "ghp_x";
  token_func = none;
  cors = true;
  log_targets = false;
  dial_timeout = pos 0;
  response_header_timeout = pos 60;
}

abbrev pub download : Outgoing
download = record {
  method = codes "GET";
  url = https_url (codes "github.com") (codes "/p/s3cret/x");
  host = codes "proxy.example";
  header =
      (codes "Cookie", codes "id=1" ∷ [])
      ∷ ((codes "X-Forwarded-For", codes "10.0.0.1" ∷ [])
          ∷ ((codes "Accept", codes "*/*" ∷ []) ∷ []));
  body = none;
  content_length = pos 0;
  info = some (record { target = archive.url; self_base = codes "/p/s3cret/" });
}

abbrev pub info : Info
info = record { target = archive.url; self_base = codes "/p/s3cret/" }
