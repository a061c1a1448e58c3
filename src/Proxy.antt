-- ===== src/Proxy.antt =====
-- internal/proxy/proxy.go: what the proxy makes of a request to GitHub and of its response. The
-- reverse proxy of net/http/httputil calls these; of a log line the target and the error are kept.
pub mod Redirect
pub mod Rewrite
pub mod Cleaned
pub mod Respond
pub mod Delivered
pub mod FollowUp
pub mod Reverse
pub mod Sample
mod Tests
use gh_proxy.Base.{
  ℕ, Bool, true, false, not, ◌&&◌, ◌||◌, Option, none, some, List, [], ◌∷◌, ◌++◌, ltb, ◌==◌,
  if◌then◌else◌, Bytes, codes, is_empty, ℤ, pos, negsuc,
}
use mathlib.Core.Option
use gh_proxy.GoLib.Strings.{Unicode, to_lower, has_prefix}
use gh_proxy.GoLib.Url.{Url}
use gh_proxy.GoLib.Url.Print
use gh_proxy.GoLib.Url.Resolve.{resolve}
use gh_proxy.GoLib.Header.{Header, get, del, set}

-- `Options`; the map of redirect hosts is the list of its keys, and `token_func` what the function
-- gives at this request, if it is set. Durations are in
-- nanoseconds.
pub record Options : Type 0 where
  pub redirect_hosts : List Bytes
  pub max_redirects : ℕ
  pub size_limit : ℤ
  pub upstream_token : Bytes
  pub token_func : Option Bytes
  pub cors : Bool
  pub log_targets : Bool
  pub dial_timeout : ℤ
  pub response_header_timeout : ℤ

-- `requestInfo`
pub record Info : Type 0 where
  pub target : Url
  pub self_base : Bytes

-- A request to GitHub, with what its context carries.
pub record Outgoing : Type 0 where
  pub method : Bytes
  pub url : Url
  pub host : Bytes
  pub header : Header
  pub body : Option Bytes
  pub content_length : ℤ
  pub info : Option Info

-- A response from GitHub, with the request that it answers, if that is set.
pub record Reply : Type 0 where
  pub status : ℕ
  pub header : Header
  pub body : Bytes
  pub content_length : ℤ
  pub request : Option Outgoing

-- Why `RoundTrip` fails
pub data Failure : Type 0 where
  transport_failed : Failure
  unsupported_scheme disallowed_host : Bytes → Failure

-- The error that the error handler is given: that of `RoundTrip`, or one of the reverse proxy where the
-- two sides cannot agree on a protocol
pub data Problem : Type 0 where
  round_trip_failed : Failure → Problem
  cannot_upgrade : Problem

-- What a log line says behind `target` and behind `error`
abbrev pub Logged : Type 0
Logged = Bytes × Option Problem

abbrev pub auth_header : Bytes
auth_header = codes "X-Proxy-Token"

-- `WithTarget`
unfoldable pub with_target : Outgoing → Url → Bytes → Outgoing
with_target r target self_base = record r {
  info = some (record { target = target; self_base = self_base });
}

-- `upstreamToken`
unfoldable pub upstream_token : Options → Bytes
upstream_token o = Option.get_or o.token_func o.upstream_token

abbrev pub is_forwarded : ⦃c : Unicode⦄ → Bytes → Bool
is_forwarded name = has_prefix (to_lower name) (codes "x-forwarded-")

-- The loop over the header's names, on canonical names: each entry goes or stays.
unfoldable pub strip_forwarded : ⦃c : Unicode⦄ → Header → Header
unfolding has_prefix to_lower
strip_forwarded [] = []
strip_forwarded ((n, vs) ∷ h) =
    let rest = strip_forwarded h in if is_forwarded n then rest else (n, vs) ∷ rest

-- What `rewrite` takes off the header, in its order.
unfoldable pub strip : ⦃c : Unicode⦄ → Header → Header
unfolding del strip_forwarded
strip h =
    let named =
      del
        (del (del (del (del h (codes "Authorization")) (codes "Cookie")) auth_header)
          (codes "X-Real-Ip"))
        (codes "Forwarded") in
    del (strip_forwarded named) (codes "Referer")

-- `rewrite`
unfoldable pub rewrite : ⦃c : Unicode⦄ → Options → Outgoing → Outgoing
unfolding strip set upstream_token
rewrite o r = elim r.info [
  | none ↦ r
  | some info ↦
      let token = upstream_token o in
      let bare = strip r.header in
      record r {
        url = info.target;
        host = info.target.host;
        header =
            if is_empty token
            then bare
            else set bare (codes "Authorization") (codes "Bearer " ++ token);
      }
]

-- `isRedirect`
unfoldable pub is_redirect : ℕ → Bool
is_redirect code = code == 301 || (code == 302 || (code == 303 || (code == 307 || code == 308)))

-- `targetForLog`
unfoldable pub target_for_log : Options → Bytes → Bytes
target_for_log o target = if o.log_targets then target else codes "(redacted)"

-- The headers that `modifyResponse` takes off and puts on, whatever the response is.
unfoldable pub clean_header : Options → Header → Header
unfolding del set
clean_header o h =
    let bare =
      del
        (del (del (del h (codes "Set-Cookie")) (codes "Content-Security-Policy"))
          (codes "Content-Security-Policy-Report-Only"))
        (codes "Clear-Site-Data") in
    let marked = set bare (codes "X-Robots-Tag") (codes "noindex, nofollow, noarchive") in
    if o.cors
    then set (set marked (codes "Access-Control-Allow-Origin") (codes "*"))
        (codes "Access-Control-Expose-Headers") (codes "*")
    else marked

-- The new `Location` of a redirect that goes back to the client.
unfoldable pub new_location : ⦃c : Unicode⦄ → ℕ → Option Outgoing → Bytes → Option Bytes
unfolding is_redirect resolve Print.print
new_location status request loc = elim request [
  | none ↦ none
  | some r ↦ elim r.info [
    | none ↦ none
    | some info ↦
        if is_empty loc || not (is_redirect status)
        then none
        else Option.map (λ u. info.self_base ++ Print.print u) (resolve r.url loc)
  ]
]

unfoldable pub relocate : ⦃c : Unicode⦄ → Reply → Reply
unfolding new_location get set
relocate p = elim (new_location p.status p.request (get p.header (codes "Location"))) [
  | none ↦ p
  | some loc ↦ record p { header = set p.header (codes "Location") loc }
]

-- `redirectOversized` of a response to `r`, and the target that it logs
unfoldable pub redirect_oversized : Options → Reply → Outgoing → Reply × Bytes
unfolding Print.print target_for_log
redirect_oversized o p r = (
  record p {
    status = 302;
    header =
        (codes "Location", Print.print r.url ∷ [])
        ∷ ((codes "Content-Type", codes "text/plain; charset=utf-8" ∷ [])
            ∷ ((codes "X-Robots-Tag", codes "noindex, nofollow, noarchive" ∷ []) ∷ []));
    body = [];
    content_length = pos 0;
  },
  target_for_log o (Print.print r.url),
)

-- `limit > 0 && length > limit`
unfoldable pub is_over : ℤ → ℤ → Bool
is_over (pos limit) (pos n) = ltb 0 limit && ltb limit n
is_over _ _ = false

-- `modifyResponse`; nothing is logged but for an oversized response.
unfoldable pub modify_response : ⦃c : Unicode⦄ → Options → Reply → Reply × Option Bytes
unfolding clean_header relocate redirect_oversized is_over
modify_response o p =
    let moved = relocate (record p { header = clean_header o p.header }) in
    if is_over o.size_limit p.content_length
    then elim p.request [
      | none ↦ (moved, none)
      | some r ↦ let (reply, log) = redirect_oversized o moved r in (reply, some log)
    ]
    else (moved, none)

-- What `errorHandler` writes, and what it logs; `none` where the client has hung up.
unfoldable pub error_handler :
    Options → Option Info → Problem → Bool → Option ((ℕ × Header × Bytes) × Logged)
unfolding Print.print target_for_log
error_handler o info problem hung_up =
    if hung_up
    then none
    else some (
      (
        502,
        (codes "Content-Type", codes "text/plain; charset=utf-8" ∷ []) ∷ [],
        codes "upstream request failed\n",
      ),
      (target_for_log o (elim info [ none ↦ [] | some i ↦ Print.print i.target ]), some problem),
    )
