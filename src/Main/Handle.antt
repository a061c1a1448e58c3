-- ===== src/Main/Handle.antt =====
-- The handler of the public listener, from the request of a client to what it gets:
-- internal/server/server.go over internal/proxy/proxy.go and internal/status/status.go. The hooks
-- for the recording are those of `serve`.
pub mod Guard
pub mod Closed
use gh_proxy.Base.{
  ℕ, Bool, true, false, not, ◌&&◌, ◌||◌, Option, none, some, List, [], ◌∷◌, if◌then◌else◌, ltb,
  Bytes, codes, is_empty, length, ℤ,
}
use gh_proxy.GoLib.Strings.{Unicode, trim_prefix}
use gh_proxy.GoLib.Url.{Url}
use gh_proxy.GoLib.Header.{Header}
use gh_proxy.Metrics.{Recorder}
use gh_proxy.Server
use gh_proxy.Server.{Server, Request, Response, Answer, respond, forward, status_page}
use gh_proxy.Proxy.{Outgoing, with_target}
use gh_proxy.Proxy.Reverse
use gh_proxy.Proxy.Reverse.{Proxy, Served, wrote}
use gh_proxy.Status
use gh_proxy.Status.{Handler, Render}

-- A request of a client, as net/http hands it on
pub record Incoming : Type 0 where
  pub method : Bytes
  pub request_uri : Bytes
  pub url : Url
  pub host : Bytes
  pub header : Header
  pub body : Option Bytes
  pub content_length : ℤ

-- What internal/server reads of a request, and what internal/proxy does
abbrev pub as_request : Incoming → Request
as_request i = record {
  method = i.method;
  request_uri = i.request_uri;
  url_path = i.url.path;
  raw_query = i.url.raw_query;
  header = i.header;
}

abbrev pub as_outgoing : Incoming → Outgoing
as_outgoing i = record {
  method = i.method;
  url = i.url;
  host = i.host;
  header = i.header;
  body = i.body;
  content_length = i.content_length;
  info = none;
}

-- The parts of the public handler: `page` is what the status page is made of at this time.
pub record Site (W : Type 0) : Type 0 where
  pub server : Server
  pub proxy : Proxy W
  pub page : Handler

-- The path that `http.StripPrefix` hands on, if it does
unfoldable pub strip_prefix : Bytes → Url → Option Bytes
unfolding trim_prefix
strip_prefix prefix u =
    let p = trim_prefix u.path prefix in
    let raw = trim_prefix u.raw_path prefix in
    if ltb (length p) (length u.path)
      && (is_empty u.raw_path || ltb (length raw) (length u.raw_path))
    then some p
    else none

-- `http.NotFound`
abbrev pub plain_not_found : Response
plain_not_found = record {
  status = 404;
  header =
      (codes "Content-Type", codes "text/plain; charset=utf-8" ∷ [])
      ∷ ((codes "X-Content-Type-Options", codes "nosniff" ∷ []) ∷ []);
  body = codes "404 page not found\n";
}

-- The status page under its path
unfoldable pub status_handler : ⦃r : Render⦄ → Bytes → Handler → Incoming → ℕ → ℕ → Response
unfolding strip_prefix Status.serve_http
status_handler prefix h i now minute = elim (strip_prefix prefix i.url) [
  | none ↦ plain_not_found
  | some path ↦ Status.serve_http h i.method path now minute
]

module _ ⦃c : Unicode⦄ ⦃r : Render⦄ {W : Type 0} where
  -- What an answer of the pipeline comes to
  unfoldable pub perform : Site W → W → Incoming → ℕ → ℕ → Bool → Answer → Served W
  unfolding status_handler with_target Reverse.serve_http
  perform s w i now minute hung_up (respond p) = record { world = w; written = wrote p; log = none }
  perform s w i now minute hung_up status_page = record {
    world = w;
    written = wrote (status_handler s.server.cfg.status_path s.page i now minute);
    log = none;
  }
  perform s w i now minute hung_up (forward u base) =
      Reverse.serve_http s.proxy w (with_target (as_outgoing i) u base) hung_up

  -- `ServeHTTP` with what it hands the request to
  unfoldable pub handle : Site W → W → Incoming → Option Recorder → ℕ → ℕ → Bool → Served W
  unfolding perform Server.serve_http
  handle s w i rec now minute hung_up =
      perform s w i now minute hung_up (Server.serve_http s.server (as_request i) rec).0
