-- ===== src/Server/Tests.antt =====
-- Runs of internal/server, and its properties at concrete requests.
use gh_proxy.Base.{
  ℕ, ◌+◌, ◌%◌, Bytes, codes, true, false, none, List, ◌≡◌, ◌≢◌, ◌↔◌, ◌⊎◌, inl, inr, refl, sym, ap,
  ◌∙◌, arith, [], ◌∷◌, length, is_empty, same, same_iff, some_inj,
}
use mathlib.Core.Option
use gh_proxy.GoLib.Strings.{cut_prefix}
use gh_proxy.GoLib.Ascii.{plain}
use gh_proxy.Ghurl.Target.{Target}
use gh_proxy.Ghurl.Rule.{rules_match}
use gh_proxy.Ghurl.Parse.{parse_with_defaults}
use gh_proxy.Auth
use gh_proxy.Auth.{check}
use gh_proxy.GoLib.Strings.Cut.{append-cut_prefix}
use gh_proxy.Auth.Credential.{Grants}
use gh_proxy.Auth.Credential.Decide.{check_iff}
use gh_proxy.Metrics
use gh_proxy.Metrics.{u64}
use gh_proxy.Config.Load.{load}
use gh_proxy.Config.Normalize.{set_to}
use gh_proxy.Config.Sample.{environment, loaded}
use gh_proxy.Server.Sample.{config, server, request, logo_request, logo, archive}
use gh_proxy.Server.{
  Server, Request, respond, forward, pass, denied, not_found, preflight, new, authenticate, resolve,
  lists_allow, gate, serve, serve_http, serve_status, status_page,
}
use gh_proxy.Server.Admitted.{Admits, IsAuthentic, gate_iff}
use gh_proxy.Server.Admitted.Stealth.{admitted, serve_lem}
use gh_proxy.Server.Admitted.Redirects.{follow_up, serve-follow_up}
use gh_proxy.Server.Admitted.StatusPage.{MaySee, serve_status_iff}
use gh_proxy.Server.Writer.{
  ResponseWriter, Call, header, body, flushed, counting, perform_all, pass_all, sent,
  perform_all_lem,
}
use gh_proxy.Server.Observe.{End, observe}
use gh_proxy.Server.Observe.Outcome.{OnlyDenied, observe-OnlyDenied}

-- A writer that takes every byte and counts them.
instance abbrev taking : ResponseWriter ℕ
taking = record {
  send_header = λ w code. w;
  send = λ w b. (w + length b, length b, false);
  send_flush = λ w. w;
}

serve_tests :
    ((serve server logo_request none).0 ≡ forward logo.url (codes "/p/s3cret/"))
    × (serve server (request (codes "GET") (codes "/p/cli/cli/main/logo.png")) none
        ≡ (respond not_found, none))
    × (gate server (request (codes "GET") (codes "/p/s3cret/evil/x/main/a"))
        ≡ denied (codes "blocked by access list"))
    × ((serve_http server (request (codes "GET") (codes "/status/json")) none).0
        ≡ respond not_found)
    × ((serve server (request (codes "OPTIONS") (codes "/p/s3cret/cli/cli/main/a")) none).0
        ≡ respond (preflight config))
unfolding serve gate serve_http new authenticate check resolve parse_with_defaults lists_allow
    Auth.match
serve_tests = (refl, refl, refl, refl, refl)

gate_iff_example :
    (gate server logo_request ≡ pass (logo, codes "cli/cli/main/logo.png"))
    ↔ Admits server logo_request logo (codes "cli/cli/main/logo.png")
gate_iff_example = gate_iff server logo_request logo (codes "cli/cli/main/logo.png")

serve_lem_example :
    ((t : Target) × (rest : Bytes) × Admits server logo_request t rest
      × ((serve server logo_request none).0 ≡ admitted server logo_request t rest))
    ⊎ (((t : Target) (rest : Bytes) → ¬ Admits server logo_request t rest)
        × ((x : Bytes) × (is_empty x ≡ false)
            × (serve server logo_request none
                ≡ (respond not_found, Option.map (λ k. Metrics.deny k x) none))))
serve_lem_example = serve_lem server logo_request none

abbrev keyless : Request
keyless = request (codes "GET") (codes "/p/cli/cli/main/logo.png")

abbrev put : Request
put = request (codes "PUT") (codes "/p/s3cret/cli/cli/main/logo.png")

distinct : (a b : Bytes) → same a b ≡ false → a ≢ b
distinct a b h e = ground (arith, same_iff a b)

keyless-denied : (rest : Bytes) → ¬ IsAuthentic server keyless rest
unfolding check new cut_prefix
keyless-denied rest (after, e, granted) =
    differ (λ i. ((check_iff server.auth [] path rest).1 moved i).1)
  where
    path : Bytes
    path = codes "cli/cli/main/logo.png"

    behind : after ≡ path
    behind =
        some_inj (
          sym (append-cut_prefix config.prefix after)
          ∙ ap (λ u. cut_prefix u config.prefix) (sym e))

    moved : Grants server.auth [] path rest
    moved = rw behind at granted

    differ : false ≡ true → ⊥
    differ k = cc

put-denied : (t : Target) (rest : Bytes) → ¬ Admits server put t rest
unfolding same
put-denied t rest a = elim a.method [
  | inl e ↦ distinct put.method (codes "GET") refl e
  | inr (inl e) ↦ distinct put.method (codes "HEAD") refl e
  | inr (inr (inl e)) ↦ distinct put.method (codes "POST") refl e
  | inr (inr (inr e)) ↦ distinct put.method (codes "OPTIONS") refl e
]

serve-follow_up_example :
    (serve server
      (follow_up logo_request (codes "/p/s3cret/") (codes "github.com/cli/cli/archive/main.zip"))
      none).0
    ≡ forward archive.url (codes "/p/s3cret/")
unfolding serve new authenticate cut_prefix check resolve parse_with_defaults lists_allow
    rules_match same
serve-follow_up_example =
    serve-follow_up server logo_request none {u = logo.url} {base = codes "/p/s3cret/"}
      (codes "github.com/cli/cli/archive/main.zip") archive none refl
      (distinct (codes "s3cret") (codes "https:") refl) refl (inl refl, refl)

abbrev untouched : ℕ
untouched = 0

abbrev end : End
end = record { now = 2000; minute = 75 }

observe-OnlyDenied_example :
    OnlyDenied
      (Metrics.new (codes "v1") 0)
      (observe server put (Metrics.new (codes "v1") 0) 1000 untouched (λ u base. []) end).0
observe-OnlyDenied_example =
    observe-OnlyDenied untouched (λ u base. []) server put (Metrics.new (codes "v1") 0) 1000 end
      put-denied

abbrev calls : List Call
calls = header 206 ∷ (body (codes "abc") ∷ (flushed ∷ (body (codes "d") ∷ (header 500 ∷ []))))

perform_all_lem_example :
    ((perform_all (counting untouched) calls).inner ≡ (pass_all untouched calls).0)
    × ((perform_all (counting untouched) calls).written % u64 ≡ (pass_all untouched calls).1 % u64)
    × ((perform_all (counting untouched) calls).status ≡ sent calls)
perform_all_lem_example = perform_all_lem untouched calls refl

abbrev page_request : Request
page_request = record {
  method = codes "GET";
  request_uri = codes "/status?token=s3cret";
  url_path = codes "/status";
  raw_query = codes "token=s3cret";
  header = [];
}

serve_status_iff_example :
    (serve_status server page_request ≡ status_page) ↔ MaySee server page_request
serve_status_iff_example = serve_status_iff server page_request

abbrev loaded_server : Server
loaded_server = new loaded true

abbrev asked : Request
asked = request (codes "GET") (codes "/gh/0123456789abcdef/cli/cli/main/logo.png")

loaded_test : load ≡ set_to loaded
unfolding load
loaded_test = refl
