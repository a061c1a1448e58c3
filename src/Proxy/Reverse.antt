-- ===== src/Proxy/Reverse.antt =====
-- internal/proxy/proxy.go: `New`, and the reverse proxy of net/http/httputil that it sets up and
-- `ServeHTTP` runs, between its hooks. A message is one step: its body is not cut into flushes,
-- and neither trailers nor informational responses are kept. A request to GitHub is `Outgoing`; the
-- request of the client is one too, with what its context carries.
pub mod Fields
pub mod Sent
pub mod Answers
pub mod Ends
use gh_proxy.Base.{
  ℕ, zero, ◌*◌, ◌^◌, Bool, true, false, not, ◌&&◌, ◌||◌, Option, none, some, List, [], ◌∷◌, ◌==◌,
  any, if◌then◌else◌, Bytes, codes, same, is_empty, ℤ, pos, negsuc,
}
use mathlib.Core.Option
use gh_proxy.GoLib.Strings.{Unicode}
use gh_proxy.GoLib.Header
use gh_proxy.GoLib.Header.{values, set, del, get}
use gh_proxy.GoLib.Hop.{has_token, is_print, upgrade_type, remove_hop_by_hop, equal_ascii}
use gh_proxy.Server.{Response}
use gh_proxy.Proxy.{
  Options, Outgoing, Info, Reply, Problem, round_trip_failed, cannot_upgrade, Logged, rewrite,
  modify_response, error_handler,
}
use gh_proxy.Proxy.Redirect.{Transport, Outcome, replied, failed, round_trip}

-- The settings of an `http.Transport`
pub record Settings : Type 0 where
  pub proxy_from_environment : Bool
  pub dial_timeout : ℤ
  pub keep_alive : ℤ
  pub force_attempt_http2 : Bool
  pub max_idle_conns : ℕ
  pub max_idle_conns_per_host : ℕ
  pub idle_conn_timeout : ℤ
  pub tls_handshake_timeout : ℤ
  pub expect_continue_timeout : ℤ
  pub response_header_timeout : ℤ
  pub disable_compression : Bool

-- The transport of net/http with given settings
pub record Network (W : Type 0) : Type 0 where
  pub connect : Settings → Transport W

abbrev pub seconds : ℕ → ℤ
seconds n = pos (n * 10 ^ 9)

-- `defaultTransport`
unfoldable pub default_transport : Options → Settings
default_transport o = record {
  proxy_from_environment = true;
  dial_timeout = o.dial_timeout;
  keep_alive = seconds 30;
  force_attempt_http2 = true;
  max_idle_conns = 100;
  max_idle_conns_per_host = 16;
  idle_conn_timeout = seconds 90;
  tls_handshake_timeout = seconds 10;
  expect_continue_timeout = seconds 1;
  response_header_timeout = o.response_header_timeout;
  disable_compression = true;
}

-- The fields of `httputil.ReverseProxy` that `New` sets, but for the log
pub record ReverseProxy (W : Type 0) : Type 0 where
  pub rewrite : Outgoing → Outgoing
  pub modify_response : Reply → Reply × Option Bytes
  pub error_handler : Option Info → Problem → Bool → Option ((ℕ × Header.Header × Bytes) × Logged)
  pub transport : W → Outgoing → W × Outcome
  pub flush_interval : ℤ

-- `Proxy`
pub record Proxy (W : Type 0) : Type 0 where
  pub rp : ReverseProxy W
  pub opts : Options

-- A duration that is not set is the default.
abbrev pub or_default : ℤ → ℤ → ℤ
or_default (pos zero) d = d
or_default t d = t

-- The options that `New` keeps
unfoldable pub with_defaults : Options → Options
with_defaults o = record o {
  dial_timeout = or_default o.dial_timeout (seconds 10);
  response_header_timeout = or_default o.response_header_timeout (seconds 30);
}

-- What the client gets. `switched` hands the connection over to the protocol that both sides named;
-- `silent` is what a client that has hung up gets.
pub data Written : Type 0 where
  silent : Written
  wrote : Response → Written
  switched : Reply → Written

-- What `ServeHTTP` leaves: the world, what was written, and what was logged, if anything
pub record Served (W : Type 0) : Type 0 where
  pub world : W
  pub written : Written
  pub log : Option Logged

-- The header of the request to GitHub before `Rewrite`
unfoldable pub outgoing_header : Header.Header → Header.Header
unfolding set del values upgrade_type remove_hop_by_hop has_token
outgoing_header h =
    let upgrade = upgrade_type h in
    let bare = remove_hop_by_hop h in
    let trailers =
      if has_token (values h (codes "Te")) (codes "trailers")
      then set bare (codes "Te") (codes "trailers")
      else bare in
    let upgraded =
      if is_empty upgrade
      then trailers
      else set (set trailers (codes "Connection") (codes "Upgrade")) (codes "Upgrade") upgrade in
    del
      (del (del (del upgraded (codes "Forwarded")) (codes "X-Forwarded-For"))
        (codes "X-Forwarded-Host"))
      (codes "X-Forwarded-Proto")

-- A header that is there, with values or without
unfoldable pub has_name : Header.Header → Bytes → Bool
unfolding same
has_name h name = any (λ e. same e.0 name) h

-- A client without a `User-Agent` stays without one.
unfoldable pub keep_agent : Header.Header → Header.Header
unfolding has_name set
keep_agent h = if has_name h (codes "User-Agent") then h else set h (codes "User-Agent") []

abbrev pub is_zero : ℤ → Bool
is_zero (pos zero) = true
is_zero n = false

module _ {W : Type 0} where
  -- The request to GitHub, behind `Rewrite`
  unfoldable pub outgoing : ReverseProxy W → Outgoing → Outgoing
  unfolding outgoing_header keep_agent
  outgoing rp r =
      let out = rp.rewrite (record r {
        body = if is_zero r.content_length then none else r.body;
        header = outgoing_header r.header;
      }) in
      record out { header = keep_agent out.header }

  -- An error, where `hung_up` says that the client is gone
  unfoldable pub fail : ReverseProxy W → Outgoing → Problem → Bool → W → Served W
  fail rp r problem hung_up w = elim (rp.error_handler r.info problem hung_up) [
    | none ↦ record { world = w; written = silent; log = none }
    | some (answer, log) ↦ record {
      world = w;
      written = wrote (record { status = answer.0; header = answer.1; body = answer.2 });
      log = some log;
    }
  ]

  -- `handleUpgradeResponse`, behind `ModifyResponse`, of the answer to `out`. A body that
  -- `ModifyResponse` put in place of the connection, under a status of its own, takes no protocol.
  unfoldable pub upgrade : ReverseProxy W → Outgoing → Reply → Bool → W → Option Bytes → Served W
  unfolding upgrade_type equal_ascii fail
  upgrade rp out p hung_up w log =
      let asked = upgrade_type out.header in
      let offered = upgrade_type p.header in
      if is_print offered && equal_ascii asked offered && p.status == 101
      then record { world = w; written = switched p; log = Option.map (λ t. (t, none)) log }
      else fail rp out cannot_upgrade hung_up w

  -- An answer of GitHub, behind `ModifyResponse`
  abbrev pub pass_on : W → Reply × Option Bytes → Served W
  pass_on w (q, log) = record {
    world = w;
    written = wrote (record { status = q.status; header = q.header; body = q.body });
    log = Option.map (λ t. (t, none)) log;
  }

  -- What is done with the outcome of a round trip. `ModifyResponse` here never fails.
  unfoldable pub deliver : ReverseProxy W → Outgoing → Bool → W × Outcome → Served W
  unfolding fail upgrade remove_hop_by_hop
  deliver rp out hung_up (w, failed f) = fail rp out (round_trip_failed f) hung_up w
  deliver rp out hung_up (w, replied p) =
      if p.status == 101
      then upgrade rp out (rp.modify_response p).0 hung_up w (rp.modify_response p).1
      else pass_on w (rp.modify_response (record p { header = remove_hop_by_hop p.header }))

  -- `ReverseProxy.ServeHTTP`; `hung_up` says that the client is gone when an error is handled.
  unfoldable pub serve : ReverseProxy W → W → Outgoing → Bool → Served W
  unfolding upgrade_type fail deliver outgoing
  serve rp w r hung_up =
      if is_print (upgrade_type r.header)
      then deliver rp (outgoing rp r) hung_up (rp.transport w (outgoing rp r))
      else fail rp r cannot_upgrade hung_up w

  module _ ⦃c : Unicode⦄ where
    -- `New`
    unfoldable pub new : ⦃n : Network W⦄ → Options → Option (Transport W) → Proxy W
    unfolding with_defaults default_transport rewrite modify_response error_handler round_trip
    new ⦃n⦄ o base =
        let opts = with_defaults o in
        let t = Option.get_or base (n.connect (default_transport opts)) in
        record {
          rp = record {
            rewrite = rewrite opts;
            modify_response = modify_response opts;
            error_handler = error_handler opts;
            transport = round_trip ⦃t = t⦄ opts.redirect_hosts opts.max_redirects;
            flush_interval = negsuc 0;
          };
          opts = opts;
        }

    -- `ServeHTTP`
    unfoldable pub serve_http : Proxy W → W → Outgoing → Bool → Served W
    unfolding serve
    serve_http p w r hung_up = serve p.rp w r hung_up
