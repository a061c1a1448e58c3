-- ===== src/Server/Admitted/Redirects.antt =====
-- internal/server/server.go: `selfBase`, the public prefix under which a client comes back.
use gh_proxy.Base.{
  false, Option, some, [], ◌∷◌, ◌++◌, ◌≡◌, ◌≢◌, inl, inr, refl, sym, ap, ◌∙◌, arith, Bytes, codes,
  length, length-append, Lacks, Bool-cases, same, append_assoc, some_inj,
}
use gh_proxy.GoLib.Strings.{Unicode, cut, trim_suffix}
use gh_proxy.GoLib.Strings.Cut.{cut-append, append-trim_suffix}
use gh_proxy.GoLib.Url.{Url, path_unescape}
use gh_proxy.GoLib.Url.Escape.{unescape}
use gh_proxy.GoLib.Header.{Header}
use gh_proxy.Ghurl.Target.{Target}
use gh_proxy.Ghurl.Parse.{parse_with_defaults}
use gh_proxy.Ghurl.Safety.{IsForwardable}
use gh_proxy.Ghurl.Safety.Boundary.{parse_with_defaults-IsForwardable}
use gh_proxy.Auth.{Authenticator}
use gh_proxy.Auth.Credential.{PathCredential, Grants}
use gh_proxy.Metrics.{Recorder}
use gh_proxy.Server.{Server, Request, respond, forward, serve, self_base}
use gh_proxy.Server.Admitted.{Admits, IsListed, IsAuthentic, gate_iff}
use gh_proxy.Server.Admitted.Stealth.{admitted, serve_lem, serve-pass}

-- An absolute location, as GitHub sends it.
abbrev pub absolute : Bytes → Bytes
absolute x = codes "https://" ++ x

-- The first segment of an absolute location is its scheme, which is no token.
absolute_bare :
    (a : Authenticator) (x r : Bytes) → a.token ≢ codes "https:" → ¬ PathCredential a (absolute x) r
unfolding unescape
absolute_bare a x r ne (seg, e, lacks, spells) = elim spells [
  | inl (t, k) ↦ ne (sym t ∙ is_scheme)
  | inr (dec, d, (t, k)) ↦ ne (sym t ∙ some_inj (sym d ∙ ap path_unescape is_scheme))
]
  where
    lacks_slash : Lacks b'/' (codes "https:")
    lacks_slash =
        (omega arith, (omega arith, (omega arith, (omega arith, (omega arith, (omega arith, tt))))))

    is_scheme : seg ≡ codes "https:"
    is_scheme i =
        ((sym (cut-append b'/' seg r lacks)
            ∙ ap (cut b'/') (sym e)
            ∙ cut-append b'/' (codes "https:") (b'/' ∷ x) lacks_slash)
          i).0

module _ ⦃c : Unicode⦄ where
  -- The credential is a prefix of the target; in front of another target it is one again.
  Grants-moved :
      (a : Authenticator) (h : Header) (rest r : Bytes)
      → Grants a h rest r
      → (pre : Bytes) × (rest ≡ pre ++ r)
        × ((loc : Bytes) → ((r' : Bytes) → ¬ PathCredential a loc r') → Grants a h (pre ++ loc) loc)
  Grants-moved a h rest r (inl (e, k)) = ([], sym k, λ loc bare. inl (e, refl))
  Grants-moved a h rest r (inr (e, inl (seg, k, lacks, spells))) = (
    seg ++ b'/' ∷ [],
    k ∙ sym (append_assoc seg (b'/' ∷ []) r),
    λ loc bare. inr (e, inl (seg, append_assoc seg (b'/' ∷ []) loc, lacks, spells)),
  )
  Grants-moved a h rest r (inr (e, inr (none_here, x, k))) =
      ([], sym k, λ loc bare. inr (e, inr (bare, x, refl)))

  pub IsAuthentic-moved :
      (s : Server) (r : Request) (rest : Bytes)
      → IsAuthentic s r rest
      → (r.request_uri ≡ self_base r.request_uri rest ++ rest)
        × ((x : Bytes)
            → s.auth.token ≢ codes "https:"
            → IsAuthentic s
                (record r { request_uri = self_base r.request_uri rest ++ absolute x })
                (absolute x))
  unfolding self_base
  IsAuthentic-moved s r rest (after, e, granted) =
      let (pre, split, moved) = Grants-moved s.auth r.header after rest granted in
      let whole : r.request_uri ≡ (s.cfg.prefix ++ pre) ++ rest =
        e ∙ ap (λ y. s.cfg.prefix ++ y) split ∙ sym (append_assoc s.cfg.prefix pre rest) in
      let base : self_base r.request_uri rest ≡ s.cfg.prefix ++ pre =
        ap (λ y. trim_suffix y rest) whole ∙ append-trim_suffix (s.cfg.prefix ++ pre) rest in
      (
        whole ∙ ap (λ y. y ++ rest) (sym base),
        λ x ne. (
          pre ++ absolute x,
          ap (λ y. y ++ absolute x) base ∙ append_assoc s.cfg.prefix pre (absolute x),
          moved (absolute x) (λ r'. absolute_bare s.auth x r' ne),
        ),
      )

-- The request by which a client follows a redirect to `base` in front of a location.
abbrev pub follow_up : Request → Bytes → Bytes → Request
follow_up r base x = record r { request_uri = base ++ absolute x }

absolute_nonempty : (base x : Bytes) → (base ++ absolute x ≢ []) × (base ++ absolute x ≢ codes "*")
absolute_nonempty base x = (
  λ e. omega (arith, ap length e, length-append base (absolute x)),
  λ e. omega (arith, ap length e, length-append base (absolute x)),
)

is_forward :
    (s : Server) (r : Request) (t : Target) (rest : Bytes) {u : Url} {base : Bytes}
    → admitted s r t rest ≡ forward u base
    → (same r.method (codes "OPTIONS") ≡ false)
      × (t.url ≡ u)
      × (self_base r.request_uri rest ≡ base)
unfolding admitted
is_forward s r t rest {u} {base} e = elim (Bool-cases (same r.method (codes "OPTIONS"))) [
  | inl options ↦ absurd (answers (rw (options, admitted) at e))
  | inr other ↦ let f = fetches (rw (other, admitted) at e) in (other, f.0, f.1)
]
  where
    answers : {x : _} → respond x ≡ forward u base → ⊥
    answers k = cc

    fetches : {v : Url} {b : Bytes} → forward v b ≡ forward u base → (v ≡ u) × (b ≡ base)
    fetches k = (cc, cc)

module _ ⦃c : Unicode⦄ (s : Server) (r : Request) (rec : Option Recorder) {u : Url}
    {base : Bytes} where
  pub forward_admitted :
      (serve s r rec).0 ≡ forward u base
      → (t : Target) × (rest : Bytes) × Admits s r t rest
        × (same r.method (codes "OPTIONS") ≡ false)
        × (t.url ≡ u)
        × (self_base r.request_uri rest ≡ base)
  forward_admitted h = elim (serve_lem s r rec) [
    | inl (t, rest, a, e) ↦ let f = is_forward s r t rest (sym e ∙ h) in (t, rest, a, f.0, f.1, f.2)
    | inr (n, (x, k, e)) ↦ absurd (differ (sym (λ i. (e i).0) ∙ h))
  ]
    where
      differ : {x : _} → respond x ≡ forward u base → ⊥
      differ k = cc

  -- What the reverse proxy is handed is a URL that may be fetched and the public prefix of the
  -- request: the request target is that prefix and a text that names the URL.
  pub serve-forward :
      (serve s r rec).0 ≡ forward u base
      → (t : Target) × (rest : Bytes) × (t.url ≡ u)
        × IsForwardable t
        × (r.request_uri ≡ base ++ rest)
  serve-forward h =
      let (t, rest, a, other, same_url, same_base) = forward_admitted h in
      (
        t,
        rest,
        same_url,
        parse_with_defaults-IsForwardable rest s.cfg.default_hosts a.parsed,
        rw same_base at ((IsAuthentic-moved s r rest a.authentic).0),
      )

  -- A redirect stays authenticated: a client that was forwarded and then follows a location under
  -- the prefix handed out, with the same headers, is forwarded again with the same prefix, where
  -- the location is absolute, parses and is listed, and the token is not the text `https:`.
  pub serve-follow_up :
      (x : Bytes) (t : Target) (rec' : Option Recorder)
      → (serve s r rec).0 ≡ forward u base
      → s.auth.token ≢ codes "https:"
      → parse_with_defaults (absolute x) s.cfg.default_hosts ≡ some t
      → IsListed s t
      → (serve s (follow_up r base x) rec').0 ≡ forward t.url base
  unfolding admitted self_base
  serve-follow_up x t rec' h ne parsed listed =
      let (t0, rest, a, other, same_url, same_base) = forward_admitted h in
      let admits : Admits s (follow_up r base x) t (absolute x) = record {
        method = a.method;
        uri_nonempty = (absolute_nonempty base x).0;
        uri_not_star = (absolute_nonempty base x).1;
        authentic = rw same_base at ((IsAuthentic-moved s r rest a.authentic).1 x ne);
        parsed = parsed;
        listed = listed;
      } in
      serve-pass s (follow_up r base x) rec' t (absolute x)
        ((gate_iff s (follow_up r base x) t (absolute x)).1 admits)
      ∙ rw (other, admitted) (ap (forward t.url) (append-trim_suffix base (absolute x)))
