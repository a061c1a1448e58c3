-- ===== src/Status.antt =====
-- internal/status/status.go: the page for operators, its numbers as JSON, and as the text that
-- Prometheus reads. What `json.Marshal` and `%g` write, and the embedded page, is the instance
-- `Render`.
pub mod Text
pub mod Label
pub mod Routes
pub mod Sample
mod Tests
use gh_proxy.Base.{
  ℕ, Bool, true, false, not, ◌&&◌, ◌||◌, Option, none, some, List, [], ◌∷◌, ◌++◌, ◌==◌,
  if◌then◌else◌, Bytes, codes, same, ℤ, length,
}
use gh_proxy.GoLib.Strings.{trim_suffix, join}
use gh_proxy.GoLib.Strconv.{decimal}
use gh_proxy.GoLib.Header.{Header, set}
use gh_proxy.Metrics.{Metrics, Counts}
use gh_proxy.Metrics.Snapshot.{Snapshot, snapshot}
use gh_proxy.Server.{Response}
use gh_proxy.Status.Text.{metric, simple, quote, lines_of}

pub record Info : Type 0 where
  pub prefix : Bytes
  pub auth : Bytes
  pub status_auth : Bytes
  pub upstream : Bytes
  pub allow_list : Bytes
  pub deny_list : Bytes
  pub default_hosts : List Bytes
  pub size_limit : ℤ
  pub max_redirects : ℤ
  pub cors : Bool

pub record Build : Type 0 where
  pub version : Bytes
  pub commit : Bytes
  pub branch : Bytes
  pub time : Bytes
  pub number : Bytes
  pub repo : Bytes

pub record Handler : Type 0 where
  pub metrics : Metrics
  pub info : Info
  pub build : Build

-- `json.Marshal` of a payload, with `none` for an error; the embedded page; and `%g` of a time in
-- nanoseconds as seconds, of a count, and of the product of the average and a count
pub record Render : Type 0 where
  pub marshal : Snapshot → Info → Build → Option Bytes
  pub page : Bytes
  pub seconds : ℕ → Bytes
  pub count : ℕ → Bytes
  pub total_time : ℕ → ℕ → Bytes

-- `notFound`, on the headers that are set already
unfoldable pub not_found : Header → Response
unfolding set
not_found h = record {
  status = 404;
  header =
      set (set h (codes "Content-Type") (codes "text/plain; charset=utf-8")) (codes "X-Robots-Tag")
        (codes "noindex, nofollow, noarchive");
  body = codes "404 page not found\n";
}

-- A body with its type and length
unfoldable pub ok : Header → Bytes → Bytes → Response
unfolding set decimal
ok h type body = record {
  status = 200;
  header = set (set h (codes "Content-Type") type) (codes "Content-Length") (decimal (length body));
  body = body;
}

-- `http.Error` with status 500
unfoldable pub failed : Header → Bytes → Response
unfolding set
failed h text = record {
  status = 500;
  header =
      set (set h (codes "Content-Type") (codes "text/plain; charset=utf-8"))
        (codes "X-Content-Type-Options") (codes "nosniff");
  body = text ++ codes "\n";
}

-- The headers of every answer to GET and HEAD
abbrev pub page_header : Header
page_header =
    set (set [] (codes "Cache-Control") (codes "no-store")) (codes "X-Robots-Tag")
      (codes "noindex, nofollow, noarchive")

module _ ⦃r : Render⦄ where
  -- The text of `writeProm`
  unfoldable pub prom : Snapshot → Build → Bytes
  unfolding metric simple quote lines_of decimal join
  prom s b = join [] (
      (metric (codes "ghproxy_build_info") (codes "gauge")
          (codes "Provenance of the running binary.")
        ∷ (codes "ghproxy_build_info{version="
            ∷ (quote s.version
                ∷ (codes ",commit="
                    ∷ (quote b.commit
                        ∷ (codes ",branch="
                            ∷ (quote b.branch
                                ∷ (codes "} 1\n"
                                    ∷ (simple (codes "ghproxy_uptime_seconds") (codes "gauge")
                                          (codes "Seconds since start.") (r.seconds s.uptime)
                                        ∷ (simple (codes "ghproxy_requests_in_flight")
                                              (codes "gauge")
                                              (codes "Requests currently being served.")
                                              (r.count s.in_flight)
                                            ∷ (simple (codes "ghproxy_requests_total")
                                                  (codes "counter") (codes "Requests received.")
                                                  (r.count s.total)
                                                ∷ (simple (codes "ghproxy_proxied_total")
                                                      (codes "counter")
                                                      (codes "Requests forwarded to GitHub.")
                                                      (r.count s.proxied)
                                                    ∷ (simple (codes "ghproxy_denied_total")
                                                          (codes "counter")
                                                          (codes "Requests rejected before GitHub.")
                                                          (r.count s.denied)
                                                        ∷ (simple (codes "ghproxy_preflight_total")
                                                            (codes "counter")
                                                            (codes
                                                            "CORS preflight requests answered.")
                                                            (r.count s.preflight)
                                                            ∷ (simple
                                                            (codes "ghproxy_bytes_sent_total")
                                                            (codes "counter")
                                                            (codes
                                                            "Response body bytes written to clients.")
                                                            (r.count s.bytes)
                                                            ∷ (metric
                                                            (codes "ghproxy_responses_total")
                                                            (codes "counter")
                                                            (codes "Responses by status class.")
                                                            ∷ (lines_of
                                                            (codes "ghproxy_responses_total")
                                                            (codes "class") s.status
                                                            ∷ (metric
                                                            (codes "ghproxy_denials_total")
                                                            (codes "counter")
                                                            (codes "Denials by reason.")
                                                            ∷ (lines_of
                                                            (codes "ghproxy_denials_total")
                                                            (codes "reason") s.reasons
                                                            ∷ (metric
                                                            (codes "ghproxy_targets_total")
                                                            (codes "counter")
                                                            (codes
                                                            "Proxied requests by GitHub URL kind.")
                                                            ∷ (lines_of
                                                            (codes "ghproxy_targets_total")
                                                            (codes "kind") s.kinds
                                                            ∷ (metric
                                                            (codes
                                                            "ghproxy_request_duration_seconds")
                                                            (codes "summary")
                                                            (codes
                                                            "Time to finish a proxied request.")
                                                            ∷ (codes
                                                            "ghproxy_request_duration_seconds_sum "
                                                            ∷ (r.total_time s.avg_micros s.proxied
                                                            ∷ (codes
                                                            "\nghproxy_request_duration_seconds_count "
                                                            ∷ (decimal s.proxied
                                                            ∷ (codes "\n"
                                                            ∷ []))))))))))))))))))))))))))))

  -- `writeJSON`
  unfoldable pub write_json : Handler → Header → ℕ → ℕ → Response
  unfolding snapshot ok failed
  write_json h header now minute = elim (r.marshal (snapshot h.metrics now minute) h.info h.build) [
    | none ↦ failed header (codes "snapshot failed")
    | some body ↦ ok header (codes "application/json; charset=utf-8") body
  ]

  -- `writeProm`
  unfoldable pub write_prom : Handler → Header → ℕ → ℕ → Response
  unfolding snapshot ok prom
  write_prom h header now minute =
      ok header (codes "text/plain; version=0.0.4; charset=utf-8")
        (prom (snapshot h.metrics now minute) h.build)

  -- `ServeHTTP`: the method, the path behind the page's own, and the clock with its minute
  unfoldable pub serve_http : Handler → Bytes → Bytes → ℕ → ℕ → Response
  unfolding same set trim_suffix not_found ok write_json write_prom
  serve_http h method path now minute =
      let route = trim_suffix path (codes "/") in
      if not (same method (codes "GET")) && not (same method (codes "HEAD"))
      then not_found []
      else if same route []
      then ok page_header (codes "text/html; charset=utf-8") r.page
      else if same route (codes "/json")
      then write_json h page_header now minute
      else if same route (codes "/metrics")
      then write_prom h page_header now minute
      else not_found page_header
