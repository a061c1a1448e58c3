-- ===== src/Proxy/FollowUp.antt =====
-- internal/proxy/proxy.go with internal/server/server.go: a redirect that goes back to the client
-- leads through the proxy again.
use gh_proxy.Base.{
  ℕ, true, false, not, ◌&&◌, Option, some, List, ◌∷◌, ◌++◌, ◌≡◌, ◌≢◌, refl, ap, ◌∙◌, inl, inr,
  Bool-cases, Bytes, codes, same, is_empty, append_assoc,
}
use gh_proxy.GoLib.Strings.{Unicode}
use gh_proxy.GoLib.Strings.{has_prefix}
use gh_proxy.GoLib.Url.Escape.{escape, encode_host}
use gh_proxy.GoLib.Url.{Url, escaped_path}
use gh_proxy.GoLib.Url.Print
use gh_proxy.GoLib.Url.Print.{print_path, print_authority, print_scheme, print_tail, print_at}
use gh_proxy.GoLib.Url.Resolve.{resolve}
use gh_proxy.GoLib.Header.{get, first_value, get_lem}
use gh_proxy.Ghurl.Target.{Target}
use gh_proxy.Ghurl.Parse.{parse_with_defaults}
use gh_proxy.Metrics.{Recorder}
use gh_proxy.Server.{Server, Request, forward, serve}
use gh_proxy.Server.Admitted.{IsListed}
use gh_proxy.Server.Admitted.Redirects.{absolute, serve-follow_up}
use gh_proxy.Proxy.{
  Options, Outgoing, Reply, Info, is_redirect, is_over, new_location, modify_response,
}
use gh_proxy.Proxy.Cleaned.{moved_to}
use gh_proxy.Proxy.Respond.{location_of, modify_response-Modified}

-- An absolute URL, as a redirect of GitHub names it
abbrev pub IsWeb : Url → Type 0
IsWeb u = (u.scheme ≡ codes "https") × (is_empty u.opaque ≡ true) × (is_empty u.host ≡ false)

print_path_lem :
    (u : Url) (x : ℕ) (before : Bytes)
    → (y : Bytes) × (print_path u (x ∷ before) ≡ (x ∷ before) ++ y)
unfolding print_path
print_path_lem u x before =
    elim (Bool-cases (
      not (is_empty (escaped_path u))
      && (not (has_prefix (escaped_path u) (codes "/")) && not (is_empty u.host)))) [
        | inl e ↦ (
          codes "/" ++ escaped_path u,
          rw e (append_assoc (x ∷ before) (codes "/") (escaped_path u)),
        )
        | inr e ↦ (escaped_path u, rw e refl)
      ]

print_authority_lem :
    (u : Url)
    → u.scheme ≡ codes "https"
    → is_empty u.host ≡ false
    → print_authority u ≡ codes "//" ++ (print_at u.user ++ escape encode_host u.host)
unfolding print_authority
print_authority_lem u web hosted = elim (Bool-cases u.omit_host) [
  | inl e ↦ simp (web, hosted, e)
  | inr e ↦ simp (web, hosted, e)
]

print-absolute : (u : Url) → IsWeb u → (x : Bytes) × (Print.print u ≡ absolute x)
unfolding Print.print print_scheme
print-absolute u (web, plain, hosted) =
    let (y, e) = print_path_lem u b'h' (codes "ttps://" ++ user_host) in
    (
      (user_host ++ y) ++ print_tail u,
      rw plain (ap (λ s. print_path u s ++ print_tail u) start) ∙ ap (λ s. s ++ print_tail u) e,
    )
  where
    user_host : Bytes
    user_host = print_at u.user ++ escape encode_host u.host

    start : print_scheme u ++ print_authority u ≡ b'h' ∷ (codes "ttps://" ++ user_host)
    start = ap (λ s. print_scheme u ++ s) (print_authority_lem u web hosted) ∙ rw web refl

new_location-some :
    ⦃c : Unicode⦄ (status : ℕ) (request : Option Outgoing) (loc : Bytes) (q : Outgoing) (v : Url)
    {info : Info}
    → request ≡ some q
    → q.info ≡ some info
    → is_redirect status ≡ true
    → is_empty loc ≡ false
    → resolve q.url loc ≡ some v
    → new_location status request loc ≡ some (info.self_base ++ Print.print v)
unfolding new_location
new_location-some status request loc q v {info} asked known redirect there resolved =
    rw asked (simp (known, redirect, there, resolved))

at_location :
    {m : Option Bytes} {loc : Bytes} (vs : List Bytes)
    → m ≡ some loc
    → first_value (moved_to m (codes "Location") vs) ≡ loc
unfolding same
at_location vs e = rw e refl

module _ ⦃c : Unicode⦄ (s : Server) (r : Request) (rec rec' : Option Recorder) (o : Options)
    (p : Reply) where
  -- A redirect that goes back to the client leads through the proxy again. Where a request was
  -- forwarded under a prefix, its response is a redirect within the limit, and its location, taken
  -- relative to the URL asked last, is an absolute URL `v` over https that names a target which the
  -- lists let through, then the client is given a location in which `v` follows the prefix, and by
  -- going there, with the same headers, it is forwarded to that target under the same prefix. The
  -- token is not the text `https:`.
  pub modify_response-serve :
      {u : Url} {base : Bytes} (q : Outgoing) (v : Url) (t : Target)
      → (serve s r rec).0 ≡ forward u base
      → s.auth.token ≢ codes "https:"
      → p.request ≡ some q
      → q.info ≡ some (record { target = u; self_base = base })
      → is_redirect p.status ≡ true
      → is_empty (get p.header (codes "Location")) ≡ false
      → resolve q.url (get p.header (codes "Location")) ≡ some v
      → IsWeb v
      → parse_with_defaults (Print.print v) s.cfg.default_hosts ≡ some t
      → IsListed s t
      → is_over o.size_limit p.content_length ≡ false
      → let loc = get (modify_response o p).0.header (codes "Location") in
        (loc ≡ base ++ Print.print v)
        × ((serve s (record r { request_uri = loc }) rec').0 ≡ forward t.url base)
  modify_response-serve {u} {base} q v t fwd ne asked info redirect loc resolved web parsed listed
        fits =
      let (x, absolute_v) = print-absolute v web in
      let moved : location_of p ≡ some (base ++ Print.print v) =
        new_location-some p.status p.request (get p.header (codes "Location")) q v asked info
          redirect loc resolved in
      let out = (modify_response o p).0.header in
      let given : get out (codes "Location") ≡ base ++ Print.print v =
        get_lem out (codes "Location")
        ∙ ap first_value (((modify_response-Modified o p).passes fits).3 (codes "Location"))
        ∙ at_location _ moved in
      (
        given,
        ap (λ l. (serve s (record r { request_uri = l }) rec').0)
              (given ∙ ap (λ l. base ++ l) absolute_v)
            ∙ serve-follow_up s r rec x t rec' fwd ne (rw absolute_v at parsed) listed,
      )
