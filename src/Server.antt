-- ===== src/Server.antt =====
-- internal/server/server.go: the request pipeline, up to the reverse proxy.
pub mod Writer
pub mod Admitted
pub mod Observe
pub mod Sample
mod Tests
use gh_proxy.Base.{
  ℕ, Bool, true, false, not, ◌&&◌, ◌||◌, Option, none, some, List, [], ◌∷◌, ◌++◌, ◌≡◌,
  if◌then◌else◌, Bytes, codes, same, is_empty,
}
use mathlib.Core.Option
use gh_proxy.GoLib.Strings.{Unicode, cut_prefix, trim_suffix, has_prefix}
use gh_proxy.GoLib.Url.{Url}
use gh_proxy.GoLib.Header.{Header, set}
use gh_proxy.GoLib.Query.{query_get}
use gh_proxy.Ghurl.Matchers.{kind_string}
use gh_proxy.Ghurl.Target.{Target}
use gh_proxy.Ghurl.Parse.{parse_with_defaults}
use gh_proxy.Ghurl.Rule.{rules_match}
use gh_proxy.Auth
use gh_proxy.Auth.{Authenticator}
use gh_proxy.Metrics
use gh_proxy.Metrics.{Recorder}
use gh_proxy.Config.{Config, status_auth_none}

pub record Request : Type 0 where
  pub method : Bytes
  pub request_uri : Bytes
  pub url_path : Bytes
  pub raw_query : Bytes
  pub header : Header

pub record Response : Type 0 where
  pub status : ℕ
  pub header : Header
  pub body : Bytes

-- What a handler does: it answers, or hands the request to the reverse proxy with the URL to
-- fetch and its own public prefix, or to the status page.
pub data Answer : Type 0 where
  respond : Response → Answer
  forward : Url → Bytes → Answer
  status_page : Answer

-- The handler; `status` says whether the status page is mounted.
pub record Server : Type 0 where
  pub cfg : Config
  pub auth : Authenticator
  pub counted : Bool
  pub status : Bool

-- `New`, with a collector or without
unfoldable pub new : Config → Bool → Server
new cfg counted = record {
  cfg = cfg;
  auth = Auth.new cfg.token cfg.allow_anonymous;
  counted = counted;
  status = counted && not (is_empty cfg.status_path);
}

-- A step of the pipeline passes a value on, or denies the request for a reason.
pub data Gate {ℓ} (A : Type ℓ) : Type ℓ where
  pass : A → Gate A
  denied : Bytes → Gate A

abbrev pub require {ℓ} : {V : Type ℓ} → Option V → Bytes → Gate V
require (some value) why = pass value
require none why = denied why

infixl 5 ◌>>=◌
abbrev pub ◌>>=◌ {κ ℓ} : {V : Type ℓ} {Z : Type κ} → Gate V → (V → Gate Z) → Gate Z
denied why >>= next = denied why
pass value >>= next = next value

abbrev pub guard : Bool → Bytes → Gate (Unit {0})
guard holds why = if holds then pass tt else denied why

infixl 5 ◌>>◌
abbrev pub ◌>>◌ {ℓ} : {Z : Type ℓ} → Gate (Unit {0}) → Gate Z → Gate Z
first >> second = first >>= λ _. second

-- `deny`: the one answer to every rejection
abbrev pub not_found : Response
not_found = record {
  status = 404;
  header =
      (codes "X-Robots-Tag", codes "noindex, nofollow, noarchive" ∷ [])
      ∷ ((codes "Content-Type", codes "text/plain; charset=utf-8" ∷ []) ∷ []);
  body = codes "404 page not found\n";
}

-- `preflight`
unfoldable pub preflight : Config → Response
preflight cfg = record {
  status = 204;
  header =
      if cfg.cors
      then (codes "Access-Control-Max-Age", codes "86400" ∷ [])
        ∷ ((codes "Access-Control-Allow-Headers", codes "*" ∷ [])
            ∷ ((codes "Access-Control-Allow-Methods", codes "GET, HEAD, POST, OPTIONS" ∷ [])
                ∷ ((codes "Access-Control-Allow-Origin", codes "*" ∷ []) ∷ [])))
      else [];
  body = [];
}

-- `repoName`
unfoldable pub repo_name : Target → Bytes
repo_name t = if is_empty t.repo then t.owner else t.owner ++ (b'/' ∷ t.repo)

abbrev pub is_method : Bytes → Bool
is_method m =
    same m (codes "GET")
    || (same m (codes "HEAD") || (same m (codes "POST") || same m (codes "OPTIONS")))

abbrev pub is_nonempty {ℓ} : {A : Type ℓ} → List A → Bool
is_nonempty [] = false
is_nonempty (x ∷ xs) = true

-- `selfBase`
unfoldable pub self_base : Bytes → Bytes → Bytes
unfolding trim_suffix
self_base raw rest = trim_suffix raw rest

-- `onStatusPath`
unfoldable pub on_status_path : Server → Bytes → Bool
unfolding same has_prefix
on_status_path s p = same p s.cfg.status_path || has_prefix p (s.cfg.status_path ++ codes "/")

module _ ⦃c : Unicode⦄ where
  -- `listsAllow`
  unfoldable pub lists_allow : Server → Target → Bool
  unfolding rules_match
  lists_allow s t =
      if is_nonempty s.cfg.allow_list && not (rules_match s.cfg.allow_list t.owner t.repo)
      then false
      else not (rules_match s.cfg.deny_list t.owner t.repo)

  -- `serve` down to the authentication: what follows the token.
  unfoldable pub authenticate : Server → Request → Gate Bytes
  authenticate s r = do
    guard (is_method r.method) (codes "method not allowed")
    guard (not (is_empty r.request_uri || same r.request_uri (codes "*")))
        (codes "no request target")
    rest ← require (cut_prefix r.request_uri s.cfg.prefix) (codes "outside mount prefix")
    guard (Auth.check s.auth r.header rest).1 (codes "authentication failed")
    pass (Auth.check s.auth r.header rest).0

  -- `serve` from there down to the access lists: the target as well.
  unfoldable pub resolve : Server → Bytes → Gate (Target × Bytes)
  resolve s rest = do
    target ←
        require (parse_with_defaults rest s.cfg.default_hosts) (codes "not a proxyable GitHub URL")
    guard (lists_allow s target) (codes "blocked by access list")
    pass (target, rest)

  unfoldable pub gate : Server → Request → Gate (Target × Bytes)
  gate s r = authenticate s r >>= resolve s

  -- `serve` behind the gate. A recorder may be absent.
  unfoldable pub answer :
      Server → Request → Option Recorder → Gate (Target × Bytes) → Answer × Option Recorder
  unfolding repo_name preflight self_base
  answer s r rec (denied reason) = (respond not_found, Option.map (λ x. Metrics.deny x reason) rec)
  answer s r rec (pass (target, rest)) =
      let rec' =
        Option.map (λ x. Metrics.target x (kind_string target.kind) (repo_name target)) rec in
      if same r.method (codes "OPTIONS")
      then (respond (preflight s.cfg), Option.map Metrics.mark_preflight rec')
      else (forward target.url (self_base r.request_uri rest), rec')

  unfoldable pub serve : Server → Request → Option Recorder → Answer × Option Recorder
  unfolding gate answer
  serve s r rec = answer s r rec (gate s r)

  -- `statusAllowed`
  unfoldable pub status_allowed : Server → Request → Bool
  unfolding same query_get
  status_allowed s r =
      if same s.cfg.status_auth status_auth_none
      then true
      else if (Auth.check s.auth r.header []).1
      then true
      else Auth.match s.auth (query_get r.raw_query (codes "token"))

  -- `serveStatus`
  unfoldable pub serve_status : Server → Request → Answer
  unfolding status_allowed
  serve_status s r = if status_allowed s r then status_page else respond not_found

  -- `ServeHTTP` up to the writing of the answer: the status page is not recorded.
  unfoldable pub serve_http : Server → Request → Option Recorder → Answer × Option Recorder
  unfolding on_status_path serve_status serve
  serve_http s r rec =
      if s.status && on_status_path s r.url_path then (serve_status s r, none) else serve s r rec
