-- ===== src/Proxy/Tests.antt =====
-- Runs of internal/proxy, and its properties at concrete requests and responses.
use gh_proxy.Base.{
  map, ℕ, Bytes, codes, true, false, none, some, List, ◌≡◌, ◌≢◌, ◌++◌, inl, refl, [], ◌∷◌, same,
  same_iff, arith, pos,
}
use mathlib.Core.Option
use gh_proxy.GoLib.Ascii.{plain}
use gh_proxy.GoLib.Url.Print
use gh_proxy.GoLib.Url.Resolve.{resolve}
use gh_proxy.GoLib.Header.{Header, get}
use gh_proxy.Server.Sample.{server, logo_request, logo, archive}
use gh_proxy.GoLib.Strings.{cut_prefix}
use gh_proxy.Ghurl.Parse.{parse_with_defaults}
use gh_proxy.Ghurl.Rule.{rules_match}
use gh_proxy.Auth.{check}
use gh_proxy.Server
use gh_proxy.Server.{serve, forward, new, authenticate, lists_allow}
use gh_proxy.Proxy.{Outgoing, Reply, with_target, rewrite, modify_response, is_redirect, is_over}
use gh_proxy.Proxy.Sample.{options, download, info}
use gh_proxy.Proxy.Rewrite.{LetOut, rewrite-LetOut}
use gh_proxy.Proxy.Delivered.{Delivered, modify_response-Delivered}
use gh_proxy.Proxy.FollowUp.{modify_response-serve}
use gh_proxy.Proxy.Reverse.{Network, Served, Written, silent, wrote, serve_http}
use gh_proxy.Proxy.Reverse
use gh_proxy.Proxy.Reverse.Sent.{recorded, Exchanged, serve_http-Exchanged}
use gh_proxy.Proxy.Reverse.Ends.{Ends, serve_http-Ends}
use gh_proxy.Proxy.{disallowed_host}
use gh_proxy.Proxy.Redirect.{Transport, failed, round_trip}
use gh_proxy.Proxy.Redirect.Trace.{Guarded}
use gh_proxy.Proxy.Redirect.RoundTrip.{traced, Followed, round_trip-Followed, round_trip-Guarded}

abbrev answer : ℕ → Header → Outgoing → Reply
answer status h r = record {
  status = status;
  header = h;
  body = codes "zip";
  content_length = pos 3;
  request = some r;
}

abbrev to : Bytes → Header
to loc = (codes "Location", loc ∷ []) ∷ []

-- A transport that answers with the next of a list of locations, and then with a file.
instance abbrev scripted : Transport (List Bytes)
scripted = record {
  send = λ locs r. elim locs [
    | [] ↦ ([], some (answer 200 [] r))
    | (loc ∷ rest) ↦ (rest, some (answer 302 (to loc) r))
  ];
}

abbrev signed : Bytes
signed = codes "https://objects.githubusercontent.com/a?sig=1"

resolve_tests :
    (Option.map Print.print (resolve archive.url (codes "../x/./y?q#f"))
      ≡ some (codes "https://github.com/cli/cli/x/y?q#f"))
    × (Option.map Print.print (resolve archive.url (codes "//a.b/c"))
        ≡ some (codes "https://a.b/c"))
    × (Option.map Print.print (resolve archive.url (codes "?z=1"))
        ≡ some (codes "https://github.com/cli/cli/archive/main.zip?z=1"))
unfolding resolve Print.print
resolve_tests = (refl, refl, refl)

rewrite_tests :
    ((rewrite options download).header
      ≡ (codes "Authorization", codes "Bearer ghp_x" ∷ [])
        ∷ ((codes "Accept", codes "*/*" ∷ []) ∷ []))
    × ((rewrite options download).url ≡ archive.url)
unfolding rewrite
rewrite_tests = (refl, refl)

abbrev sent_out : Outgoing
sent_out = record {
  method = codes "GET";
  url = archive.url;
  host = codes "github.com";
  header =
      (codes "Authorization", codes "Bearer ghp_x" ∷ [])
      ∷ ((codes "Accept", codes "*/*" ∷ []) ∷ []);
  body = none;
  content_length = pos 0;
  info = download.info;
}

-- The token goes to the second URL of the same host, and not to the storage.
round_trip_tests :
    (map
        (λ r. get r.header (codes "Authorization"))
        (traced scripted options.redirect_hosts 3 (codes "/other" ∷ (signed ∷ [])) sent_out).0.1
      ≡ codes "Bearer ghp_x" ∷ (codes "Bearer ghp_x" ∷ ([] ∷ [])))
    × ((round_trip options.redirect_hosts 3 (codes "https://evil.example/" ∷ []) sent_out).1
        ≡ failed (disallowed_host (codes "evil.example")))
unfolding round_trip
round_trip_tests = (refl, refl)

round_trip-Followed_example :
    Followed scripted options.redirect_hosts 3 sent_out
      (traced scripted options.redirect_hosts 3 (codes "/other" ∷ (signed ∷ [])) sent_out)
round_trip-Followed_example =
    round_trip-Followed scripted options.redirect_hosts 3 (codes "/other" ∷ (signed ∷ [])) sent_out

round_trip-Guarded_example :
    (rs : List Outgoing) × ((traced scripted options.redirect_hosts 3 (signed ∷ []) sent_out).0.1
      ≡ sent_out ∷ rs)
    × Guarded true sent_out rs
round_trip-Guarded_example =
    round_trip-Guarded scripted options.redirect_hosts 3 (signed ∷ []) sent_out

rewrite-LetOut_example : LetOut options download info (rewrite options download)
rewrite-LetOut_example = rewrite-LetOut options download info refl

modify_response-Delivered_example :
    Delivered options
      (answer 302 (to (codes "/x")) sent_out)
      (modify_response options (answer 302 (to (codes "/x")) sent_out)).0
modify_response-Delivered_example =
    modify_response-Delivered options (answer 302 (to (codes "/x")) sent_out)

distinct : (a b : Bytes) → same a b ≡ false → a ≢ b
distinct a b h e = ground (arith, same_iff a b)

abbrev logo_out : Outgoing
logo_out = with_target (record sent_out { url = logo.url }) logo.url (codes "/p/s3cret/")

abbrev back : Reply
back = answer 302 (to (codes "https://github.com/cli/cli/archive/main.zip")) logo_out

modify_response-serve_example :
    let loc = get (modify_response options back).0.header (codes "Location") in
    (loc ≡ codes "/p/s3cret/" ++ Print.print archive.url)
    × ((serve server (record logo_request { request_uri = loc }) none).0
        ≡ forward archive.url (codes "/p/s3cret/"))
unfolding serve new authenticate cut_prefix check Server.resolve parse_with_defaults lists_allow
    rules_match same with_target resolve Print.print is_redirect is_over
modify_response-serve_example =
    modify_response-serve server logo_request none none options back {u = logo.url}
      {base = codes "/p/s3cret/"} logo_out archive.url archive refl
      (distinct (codes "s3cret") (codes "https:") refl) refl refl refl refl refl (refl, refl, refl)
      refl (inl refl, refl) refl

-- Networks that answer by the script, whatever the settings are
instance abbrev network : Network (List Bytes)
network = record { connect = λ s. scripted }

abbrev status_of : Written → ℕ
status_of (wrote p) = p.status
status_of other = 0

abbrev websocket : Outgoing
websocket = record download {
  header =
      (codes "Connection", codes "keep-alive, Upgrade" ∷ [])
      ∷ ((codes "Keep-Alive", codes "5" ∷ [])
          ∷ ((codes "Upgrade", codes "websocket" ∷ [])
              ∷ ((codes "X-Forwarded-For", codes "10.0.0.1" ∷ [])
                  ∷ ((codes "Accept", codes "*/*" ∷ []) ∷ []))));
}

serve_http_tests :
    (status_of (serve_http (Reverse.new options none) (signed ∷ []) download false).written ≡ 200)
    × (status_of
          (serve_http
            (Reverse.new options none)
            (codes "https://evil.example/" ∷ [])
            download
            false).written
        ≡ 502)
    × ((serve_http
          (Reverse.new options none)
          (codes "https://evil.example/" ∷ [])
          download
          true).written
        ≡ silent)
    × (map (λ r. r.header) (recorded {W = List Bytes} options none [] websocket false).world.1
        ≡ ((codes "User-Agent", [] ∷ [])
            ∷ ((codes "Authorization", codes "Bearer ghp_x" ∷ [])
                ∷ ((codes "Upgrade", codes "websocket" ∷ [])
                    ∷ ((codes "Connection", codes "Upgrade" ∷ [])
                        ∷ ((codes "Accept", codes "*/*" ∷ []) ∷ [])))))
          ∷ [])
unfolding serve_http Reverse.new
serve_http_tests = (refl, refl, refl, refl)

serve_http-Exchanged_example :
    Exchanged options websocket info (recorded options none (signed ∷ []) websocket false).world.1
serve_http-Exchanged_example =
    serve_http-Exchanged options none (signed ∷ []) websocket false info refl

serve_http-Ends_example :
    Ends options none
      (signed ∷ [])
      download
      false
      (serve_http (Reverse.new options none) (signed ∷ []) download false)
serve_http-Ends_example = serve_http-Ends options none (signed ∷ []) download false
