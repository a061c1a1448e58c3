-- ===== src/Server/Admitted/Loaded.antt =====
-- internal/server/server.go over internal/config/config.go: a server with a configuration that
-- `Load` returned.
use gh_proxy.Base.{
  ◌≤◌, Bool, false, Option, some, [], ◌++◌, ◌≡◌, ◌≢◌, ◌⊎◌, inl, inr, sym, ap, ◌∙◌, arith, Bytes,
  codes, length,
}
use gh_proxy.GoLib.Strings.{Unicode}
use gh_proxy.GoLib.Url.{Url}
use gh_proxy.Ghurl.Target.{Target}
use gh_proxy.Ghurl.Parse.{parse_with_defaults}
use gh_proxy.Auth.Credential.{PathCredential, HeaderCredential, Grants}
use gh_proxy.Metrics.{Recorder}
use gh_proxy.Config.{Config}
use gh_proxy.Config.Normalize.{set_to}
use gh_proxy.Config.Normalize.Token.{IsAccepted}
use gh_proxy.Config.Env.{Environment}
use gh_proxy.Config.Load.{load}
use gh_proxy.Config.Load.Valid.{load-IsValid}
use gh_proxy.Server.{Server, Request, forward, serve, new}
use gh_proxy.Server.Admitted.{IsListed}
use gh_proxy.Server.Admitted.Redirects.{absolute, follow_up, forward_admitted, serve-follow_up}

-- A token that is accepted is not the scheme of a URL.
not_scheme :
    (token : Bytes) (anonymous : Bool) → IsAccepted token anonymous → token ≢ codes "https:"
not_scheme token anonymous (inl (off, none)) e = distinct (sym none ∙ e)
  where
    distinct : [] ≡ codes "https:" → ⊥
    distinct k = cc
not_scheme token anonymous (inr (on, long, safe)) e = omega (arith, long, ap length e)

long_enough : (token : Bytes) → IsAccepted token false → 16 ≤ length token
long_enough token (inl (off, none)) = absurd cc
long_enough token (inr (on, long, safe)) = long

-- A credential: the token in front of the target, or in a header
abbrev pub HasCredential : ⦃c : Unicode⦄ → Server → Request → Type 0
HasCredential s r =
    (after : Bytes) × (r.request_uri ≡ s.cfg.prefix ++ after)
    × (((rest : Bytes) × PathCredential s.auth after rest) ⊎ HeaderCredential s.auth r.header)

credential :
    ⦃c : Unicode⦄ (cfg : Config) (counted : Bool) (r : Request) (after rest : Bytes)
    → cfg.allow_anonymous ≡ false
    → Grants (new cfg counted).auth r.header after rest
    → ((x : Bytes) × PathCredential (new cfg counted).auth after x)
      ⊎ HeaderCredential (new cfg counted).auth r.header
unfolding new
credential cfg counted r after rest on (inl (off, k)) = absurd cc
credential cfg counted r after rest on (inr (k, inl p)) = inl (rest, p)
credential cfg counted r after rest on (inr (k, inr (bare, h, l))) = inr h

module _ ⦃c : Unicode⦄ ⦃e : Environment⦄ (cfg : Config) (counted : Bool) (r : Request)
    (rec : Option Recorder) {u : Url} {base : Bytes} where
  -- The program is no open relay: with a configuration that `Load` returned and that does not allow
  -- anonymous requests, the token has sixteen bytes or more, and whatever is forwarded carried it.
  pub load-serve :
      load ≡ set_to cfg
      → cfg.allow_anonymous ≡ false
      → (serve (new cfg counted) r rec).0 ≡ forward u base
      → (16 ≤ length cfg.token) × HasCredential (new cfg counted) r
  unfolding new
  load-serve loaded on fwd =
      let (t, rest, a, other, same_url, same_base) = forward_admitted (new cfg counted) r rec fwd in
      let (after, split, granted) = a.authentic in
      let accepted : IsAccepted cfg.token false = rw on at ((load-IsValid loaded).token) in
      (
        long_enough cfg.token accepted,
        (after, split, credential cfg counted r after rest on granted),
      )

  -- With a configuration that `Load` returned, a client that was forwarded and follows an absolute
  -- location under the prefix handed out, with the same headers, is forwarded again with the same
  -- prefix, where the location parses and is listed.
  pub load-follow_up :
      (x : Bytes) (t : Target) (rec' : Option Recorder)
      → load ≡ set_to cfg
      → (serve (new cfg counted) r rec).0 ≡ forward u base
      → parse_with_defaults (absolute x) cfg.default_hosts ≡ some t
      → IsListed (new cfg counted) t
      → (serve (new cfg counted) (follow_up r base x) rec').0 ≡ forward t.url base
  unfolding new
  load-follow_up x t rec' loaded fwd =
      serve-follow_up (new cfg counted) r rec x t rec' fwd
        (not_scheme cfg.token cfg.allow_anonymous (load-IsValid loaded).token)
