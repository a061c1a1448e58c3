-- ===== src/Proxy/Redirect/Trace.antt =====
-- internal/proxy/redirect.go: the requests that a chain of redirects sends, in order.
use gh_proxy.Base.{
  Bool, true, false, not, ◌&&◌, ◌||◌, none, List, [], ◌∷◌, ◌++◌, ◌≡◌, ◌⊎◌, inl, inr, refl, ap, ◌∙◌,
  arith, Bool-cases, Option-cases, Bytes, codes, same, same_iff, is_empty,
}
use gh_proxy.GoLib.Strings.{Unicode, to_lower, equal_fold}
use gh_proxy.GoLib.Url.{Url, hostname}
use gh_proxy.GoLib.Url.Resolve.{resolve}
use gh_proxy.GoLib.Header.{get, values, values-del, values-del_self}
use gh_proxy.Proxy.{Outgoing, Reply, is_redirect}
use gh_proxy.Proxy.Redirect.{
  Transport, Failure, stay, refuse, hop, is_allowed, judge, next_move, next_request,
}

-- The same transport, which also keeps the requests that it is given.
abbrev pub recording : {W : Type 0} → Transport W → Transport (W × List Outgoing)
recording t = record {
  send = λ s r. let (w, answer) = t.send s.0 r in ((w, s.1 ++ r ∷ []), answer);
}

-- The last request sent, where `cur` came before.
abbrev pub last : Outgoing → List Outgoing → Outgoing
last cur [] = cur
last cur (r ∷ rs) = last r rs

module _ ⦃c : Unicode⦄ where
  -- A request that follows a redirect: over the web, to an allowed host, without a body, and with
  -- the headers of the one before, but for `Authorization` where the host changes.
  pub record IsHop (hosts : List Bytes) (prev r : Outgoing) : Type 0 where
    pub web : (r.url.scheme ≡ codes "http") ⊎ (r.url.scheme ≡ codes "https")
    pub allowed : is_allowed hosts (to_lower (hostname r.url)) ≡ true
    pub same_method : r.method ≡ prev.method
    pub same_info : r.info ≡ prev.info
    pub bodyless : r.body ≡ none
    pub same_host : equal_fold (hostname prev.url) (hostname r.url) ≡ true → r.header ≡ prev.header
    pub other_host :
        equal_fold (hostname prev.url) (hostname r.url) ≡ false
        → values r.header (codes "Authorization") ≡ []
    pub headers :
        (name : Bytes)
        → same (codes "Authorization") name ≡ false
        → values r.header name ≡ values prev.header name

  abbrev pub Hops : List Bytes → Outgoing → List Outgoing → Type 0
  Hops hosts prev [] = Unit
  Hops hosts prev (r ∷ rs) = IsHop hosts prev r × Hops hosts r rs

  -- A request carries a credential only if no hop up to it has changed the host; `kept` says that
  -- none has so far.
  abbrev pub Guarded : Bool → Outgoing → List Outgoing → Type 0
  Guarded kept prev [] = Unit
  Guarded kept prev (r ∷ rs) =
      let still = kept && equal_fold (hostname prev.url) (hostname r.url) in
      (still ≡ false → values r.header (codes "Authorization") ≡ []) × Guarded still r rs

  judge-hop :
      (hosts : List Bytes) (u : Url) {next : Url}
      → judge hosts u ≡ hop next
      → (u ≡ next)
        × ((u.scheme ≡ codes "http") ⊎ (u.scheme ≡ codes "https"))
        × (is_allowed hosts (to_lower (hostname u)) ≡ true)
  unfolding judge
  judge-hop hosts u {next} h =
      elim (Bool-cases
        (not (same u.scheme (codes "http")) && not (same u.scheme (codes "https")))) [
          | inl e ↦ absurd (refused (rw (e, judge) at h))
          | inr e ↦ elim (Bool-cases (is_allowed hosts (to_lower (hostname u)))) [
            | inr f ↦ absurd (refused (rw (e, f, judge) at h))
            | inl f ↦ (hopped (rw (e, f, judge) at h), web e, f)
          ]
        ]
    where
      refused : {f : Failure} → refuse f ≡ hop next → ⊥
      refused k = cc

      hopped : hop u ≡ hop next → u ≡ next
      hopped k = cc

      web :
          (not (same u.scheme (codes "http")) && not (same u.scheme (codes "https"))) ≡ false
          → (u.scheme ≡ codes "http") ⊎ (u.scheme ≡ codes "https")
      web e = go (same u.scheme (codes "http")) (same u.scheme (codes "https")) refl refl e
        where
          go :
              (a b : Bool)
              → same u.scheme (codes "http") ≡ a
              → same u.scheme (codes "https") ≡ b
              → (not a && not b) ≡ false
              → (u.scheme ≡ codes "http") ⊎ (u.scheme ≡ codes "https")
          go true b ea eb k = inl ((same_iff u.scheme (codes "http")).0 ea)
          go false true ea eb k = inr ((same_iff u.scheme (codes "https")).0 eb)
          go false false ea eb k = cc

  pub next_move-hop :
      (hosts : List Bytes) (cur : Outgoing) (p : Reply) {next : Url}
      → next_move hosts cur p ≡ hop next
      → judge hosts next ≡ hop next
  unfolding next_move
  next_move-hop hosts cur p {next} h =
      elim (Bool-cases (not (is_redirect p.status) || is_empty (get p.header (codes "Location")))) [
        | inl e ↦ absurd (stayed (rw (e, next_move) at h))
        | inr e ↦ elim (Option-cases (resolve cur.url (get p.header (codes "Location")))) [
          | inl f ↦ absurd (stayed (rw (e, f, next_move) at h))
          | inr (u, f) ↦
              let judged : judge hosts u ≡ hop next = rw (e, f, next_move) at h in
              rw (judge-hop hosts u judged).0 at judged
        ]
      ]
    where
      stayed : stay ≡ hop next → ⊥
      stayed k = cc

  pub next_request-IsHop :
      (hosts : List Bytes) (cur : Outgoing) (next : Url)
      → judge hosts next ≡ hop next
      → IsHop hosts cur (next_request cur next)
  unfolding next_request
  next_request-IsHop hosts cur next h =
      let (x, web, allowed) = judge-hop hosts next h in
      record {
        web = web;
        allowed = allowed;
        same_method = refl;
        same_info = refl;
        bodyless = refl;
        same_host = λ e. rw e refl;
        other_host = λ e. rw e (values-del_self cur.header (codes "Authorization"));
        headers = kept;
      }
    where
      kept :
          (name : Bytes)
          → same (codes "Authorization") name ≡ false
          → values (next_request cur next).header name ≡ values cur.header name
      kept name ne = elim (Bool-cases (equal_fold (hostname cur.url) (hostname next))) [
        | inl e ↦ rw e refl
        | inr e ↦ rw e (rw ne at (values-del cur.header (codes "Authorization") name))
      ]

  -- Along hops a credential is guarded, from a request that may carry one or that carries none.
  pub Hops-Guarded :
      (hosts : List Bytes) (kept : Bool) (prev : Outgoing) (rs : List Outgoing)
      → (kept ≡ false → values prev.header (codes "Authorization") ≡ [])
      → Hops hosts prev rs
      → Guarded kept prev rs
  Hops-Guarded hosts kept prev [] none_yet h = tt
  Hops-Guarded hosts kept prev (r ∷ rs) none_yet (h, hs) = (
    guard,
    Hops-Guarded hosts (kept && equal_fold (hostname prev.url) (hostname r.url)) r rs guard hs,
  )
    where
      guard :
          (kept && equal_fold (hostname prev.url) (hostname r.url)) ≡ false
          → values r.header (codes "Authorization") ≡ []
      guard e = elim (Bool-cases (equal_fold (hostname prev.url) (hostname r.url))) [
        | inr f ↦ h.other_host f
        | inl f ↦
            ap (λ x. values x (codes "Authorization")) (h.same_host f) ∙ none_yet (ground arith)
      ]
