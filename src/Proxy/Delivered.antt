-- ===== src/Proxy/Delivered.antt =====
-- internal/proxy/proxy.go: what `modifyResponse` hands to the client, by a description of the limit and
-- of the new location that stands apart from the code's tests.
use gh_proxy.Base.{
  ℕ, ◌<◌, arith, Bool, true, false, not, Option, none, some, [], ◌∷◌, ◌≡◌, ◌≢◌, ◌⊎◌, inl, inr, ◌||◌,
  ◌++◌, if◌then◌else◌, refl, sym, ap, ◌∙◌, Bool-cases, Option-cases, List-cases, some_inj, Bytes,
  codes, is_empty, ℤ, pos, negsuc,
}
use mathlib.Core.Option
use gh_proxy.GoLib.Strings.{Unicode}
use gh_proxy.GoLib.Url.{Url}
use gh_proxy.GoLib.Url.Print
use gh_proxy.GoLib.Url.Resolve.{resolve}
use gh_proxy.GoLib.Header.{get, values}
use gh_proxy.Proxy.{
  Info, Options, Outgoing, Reply, is_redirect, new_location, is_over, modify_response,
}
use gh_proxy.Proxy.Cleaned.{is_banned, cleaned, moved_to}
use gh_proxy.Proxy.Respond.{location_of, modify_response-Modified}

-- A length over a limit: there is a limit, and the length is known and is more.
abbrev pub IsOver : ℤ → ℤ → Type 0
IsOver (pos limit) (pos n) = (0 < limit) × (limit < n)
IsOver limit n = ⊥

is_over_iff :
    (limit n : ℤ)
    → (is_over limit n ≡ true → IsOver limit n) × (IsOver limit n → is_over limit n ≡ true)
unfolding is_over
is_over_iff (pos limit) (pos n) = (λ h. (ground arith, ground arith), λ (h, k). ground arith)
is_over_iff (pos limit) (negsuc n) = (λ h. absurd cc, λ h. absurd h)
is_over_iff (negsuc limit) (pos n) = (λ h. absurd cc, λ h. absurd h)
is_over_iff (negsuc limit) (negsuc n) = (λ h. absurd cc, λ h. absurd h)

-- A status that sends the client elsewhere
abbrev pub Redirects : ℕ → Type 0
Redirects s = (s ≡ 301) ⊎ ((s ≡ 302) ⊎ ((s ≡ 303) ⊎ ((s ≡ 307) ⊎ (s ≡ 308))))

pub is_redirect_iff :
    (s : ℕ) → (is_redirect s ≡ true → Redirects s) × (Redirects s → is_redirect s ≡ true)
unfolding is_redirect
is_redirect_iff s = (λ h. ground arith, λ h. ground arith)

clash : {b : Bool} → b ≡ true → b ≡ false → ⊥
clash e f = cc

module _ ⦃c : Unicode⦄ where
  -- The new location of a redirect, where the response to a request of a client has one: the URL that
  -- its location names, printed behind the prefix that the client came by.
  pub record Goes (p : Reply) (loc : Bytes) : Type 0 where
    pub request : Outgoing
    pub info : Info
    pub url : Url
    pub asked : p.request ≡ some request
    pub known : request.info ≡ some info
    pub redirects : Redirects p.status
    pub named : get p.header (codes "Location") ≢ []
    pub resolved : resolve request.url (get p.header (codes "Location")) ≡ some url
    pub prefixed : loc ≡ info.self_base ++ Print.print url

  -- What becomes of the location: a new one where one is due, and otherwise none
  abbrev pub Relocated : Reply → Option Bytes → Type 0
  Relocated p (some loc) = Goes p loc
  Relocated p none = (loc : Bytes) → Goes p loc → ⊥

  -- A response as it goes back: within the limit it passes, with its headers cleaned and its location
  -- under the prefix; over the limit the client is sent to the URL asked last.
  pub record Delivered (o : Options) (p : Reply) (out : Reply) : Type 0 where
    pub banned : (name : Bytes) → is_banned name ≡ true → values out.header name ≡ []
    pub unlisted :
        values out.header (codes "X-Robots-Tag") ≡ codes "noindex, nofollow, noarchive" ∷ []
    pub in_limit : p.request ≢ none → IsOver o.size_limit out.content_length → ⊥
    pub passes :
        (IsOver o.size_limit p.content_length → ⊥)
        → (out.status ≡ p.status)
          × (out.body ≡ p.body)
          × (out.content_length ≡ p.content_length)
          × ((loc : Option Bytes) × Relocated p loc
              × ((name : Bytes)
                  → values out.header name ≡ moved_to loc name (cleaned o.cors p.header name)))
    pub redirects :
        (r : Outgoing)
        → p.request ≡ some r
        → IsOver o.size_limit p.content_length
        → (out.status ≡ 302)
          × (out.body ≡ [])
          × (values out.header (codes "Location") ≡ Print.print r.url ∷ [])

  nothing : {A : Type 0} {x : A} → none ≡ some x → ⊥
  nothing k = cc

  printed : Info → Url → Bytes
  printed info u = info.self_base ++ Print.print u

  -- Where the code gives a location, it is that of `Goes`.
  goes :
      (p : Reply) (r : Outgoing) (info : Info)
      → p.request ≡ some r
      → r.info ≡ some info
      → {loc : Bytes}
      → (if is_empty (get p.header (codes "Location")) || not (is_redirect p.status)
          then none
          else Option.map (printed info) (resolve r.url (get p.header (codes "Location"))))
        ≡ some loc
      → Goes p loc
  unfolding printed
  goes p r info e f {loc} h =
      let to = get p.header (codes "Location") in
      elim (List-cases to) [
        | inl k ↦ absurd (nothing (rw k at h))
        | inr (x, xs, k) ↦ elim (Bool-cases (is_redirect p.status)) [
          | inr m ↦ absurd (nothing (rw (k, m) at h))
          | inl m ↦ elim (Option-cases (resolve r.url to)) [
            | inl n ↦ absurd (nothing (rw (n, m, empty x xs k) at h))
            | inr (u, n) ↦ record {
              request = r;
              info = info;
              url = u;
              asked = e;
              known = f;
              redirects = (is_redirect_iff p.status).0 m;
              named = λ z. absurd (apart (sym k ∙ z));
              resolved = n;
              prefixed = sym (some_inj (rw (n, m, empty x xs k) at h));
            }
          ]
        ]
      ]
    where
      empty :
          (x : ℕ) (xs : Bytes)
          → get p.header (codes "Location") ≡ x ∷ xs
          → is_empty (get p.header (codes "Location")) ≡ false
      empty x xs k = rw k refl

      apart : {x : ℕ} {xs : Bytes} → x ∷ xs ≡ [] → ⊥
      apart k = cc

  location-Goes : (p : Reply) {loc : Bytes} → location_of p ≡ some loc → Goes p loc
  unfolding new_location printed
  location-Goes p h = elim (Option-cases p.request) [
    | inl e ↦ absurd (nothing (rw (e, new_location) at h))
    | inr (r, e) ↦ elim (Option-cases r.info) [
      | inl f ↦ absurd (nothing (rw (e, f, new_location) at h))
      | inr (info, f) ↦ goes p r info e f (rw (e, f, new_location) at h)
    ]
  ]

  Goes-location : (p : Reply) {loc : Bytes} → Goes p loc → location_of p ≡ some loc
  unfolding new_location
  Goes-location p g = elim (List-cases (get p.header (codes "Location"))) [
    | inl k ↦ absurd (g.named k)
    | inr (x, xs, k) ↦
        let far = (is_redirect_iff p.status).1 g.redirects in
        let found = rw k at g.resolved in
        rw (g.asked, new_location) (rw (g.known, k) (rw (far, found) (ap some (sym g.prefixed))))
  ]

  location_lem : (p : Reply) → Relocated p (location_of p)
  location_lem p = elim (Option-cases (location_of p)) [
    | inl e ↦ rw e (λ loc g. nothing (sym e ∙ Goes-location p g))
    | inr (loc, e) ↦ rw e (location-Goes p e)
  ]

  -- What goes back to the client has no banned header, is marked for robots, and is within the limit
  -- where the request is known. Within the limit the response passes, with its headers cleaned and its
  -- location, where it is a redirect that names a URL, that URL under the prefix; over it the client
  -- is sent to the URL asked last, without a body.
  pub modify_response-Delivered : (o : Options) (p : Reply) → Delivered o p (modify_response o p).0
  modify_response-Delivered o p =
      let m = modify_response-Modified o p in
      record {
        banned = m.banned;
        unlisted = m.unlisted;
        in_limit = λ asked over.
            clash ((is_over_iff o.size_limit (modify_response o p).0.content_length).1 over)
              (m.in_limit asked);
        passes = λ fits.
            let (status, body, length, header) = m.passes (within fits) in
            (status, body, length, (location_of p, location_lem p, header));
        redirects =
            λ r e over. m.redirects r e ((is_over_iff o.size_limit p.content_length).1 over);
      }
    where
      within :
          (IsOver o.size_limit p.content_length → ⊥) → is_over o.size_limit p.content_length ≡ false
      within fits = elim (Bool-cases (is_over o.size_limit p.content_length)) [
        | inr e ↦ e
        | inl e ↦ absurd (fits ((is_over_iff o.size_limit p.content_length).0 e))
      ]
