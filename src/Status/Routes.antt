-- ===== src/Status/Routes.antt =====
-- internal/status/status.go: what `ServeHTTP` answers, next to the rejection of internal/server.
use gh_proxy.Base.{
  ℕ, Bool, true, false, not, ◌&&◌, ◌||◌, List, [], ◌∷◌, ◌≡◌, ◌≢◌, ◌⊎◌, inl, inr, refl, ap,
  Bool-cases, Option-cases, Bytes, codes, same, same_iff,
}
use gh_proxy.GoLib.Strings.{trim_suffix}
use gh_proxy.GoLib.Header.{values, set}
use gh_proxy.Metrics.Snapshot.{snapshot}
use gh_proxy.Server
use gh_proxy.Server.{Response}
use gh_proxy.Status.{
  Handler, Render, not_found, ok, failed, write_json, write_prom, prom, page_header, serve_http,
}

abbrev pub is_read : Bytes → Bool
is_read method = not (not (same method (codes "GET")) && not (same method (codes "HEAD")))

-- One of the three pages
abbrev pub is_page : Bytes → Bool
is_page path =
    same (trim_suffix path (codes "/")) []
    || (same (trim_suffix path (codes "/")) (codes "/json")
        || same (trim_suffix path (codes "/")) (codes "/metrics"))

abbrev robots : List Bytes
robots = codes "noindex, nofollow, noarchive" ∷ []

-- An answer to GET or HEAD: it is kept in no cache and listed nowhere.
abbrev pub Unkept : Response → Type 0
Unkept p =
    (values p.header (codes "Cache-Control") ≡ codes "no-store" ∷ [])
    × (values p.header (codes "X-Robots-Tag") ≡ robots)

-- The proxy's rejection, but for a `Cache-Control` header
abbrev pub LikeRejection : Response → Type 0
LikeRejection p =
    (p.status ≡ Server.not_found.status)
    × (p.body ≡ Server.not_found.body)
    × ((name : Bytes)
        → codes "Cache-Control" ≢ name
        → values p.header name ≡ values Server.not_found.header name)

clash : {b : Bool} → b ≡ true → b ≡ false → ⊥
clash e f = cc

module _ ⦃r : Render⦄ (h : Handler) where
  -- Another method gets the proxy's own rejection; GET and HEAD get an answer that is kept in no
  -- cache, the rejection but for that header where the path is none of the three pages, and status
  -- 200 or a failure to render where it is.
  pub record Routed (method path : Bytes) (p : Response) : Type 0 where
    pub refused : is_read method ≡ false → p ≡ Server.not_found
    pub unkept : is_read method ≡ true → Unkept p
    pub unknown : is_read method ≡ true → is_page path ≡ false → LikeRejection p
    pub known : is_page path ≡ true → is_read method ≡ true → (p.status ≡ 200) ⊎ (p.status ≡ 500)

  ok-Unkept : (type body : Bytes) → Unkept (ok page_header type body)
  unfolding ok values set same
  ok-Unkept type body = (refl, refl)

  failed-Unkept : (text : Bytes) → Unkept (failed page_header text)
  unfolding failed values set same
  failed-Unkept text = (refl, refl)

  lost : LikeRejection (not_found page_header)
  unfolding not_found values set same
  lost = (
    refl,
    refl,
    λ name ne. elim (Bool-cases (same (codes "Cache-Control") name)) [
      | inl e ↦ absurd (ne ((same_iff (codes "Cache-Control") name).0 e))
      | inr e ↦ rw e refl
    ],
  )

  lost-Unkept : Unkept (not_found page_header)
  unfolding not_found values set same
  lost-Unkept = (refl, refl)

  page_answer :
      (method path : Bytes) (p : Response)
      → is_read method ≡ true
      → is_page path ≡ true
      → Unkept p
      → ((p.status ≡ 200) ⊎ (p.status ≡ 500))
      → Routed method path p
  page_answer method path p read page kept status = record {
    refused = λ e. absurd (clash read e);
    unkept = λ e. kept;
    unknown = λ e f. absurd (clash page f);
    known = λ e f. status;
  }

  lost_answer :
      (method path : Bytes)
      → is_read method ≡ true
      → is_page path ≡ false
      → Routed method path (not_found page_header)
  lost_answer method path read page = record {
    refused = λ e. absurd (clash read e);
    unkept = λ e. lost-Unkept;
    unknown = λ e f. lost;
    known = λ e f. absurd (clash e page);
  }

  other_answer : (method path : Bytes) → is_read method ≡ false → Routed method path (not_found [])
  unfolding not_found set
  other_answer method path other = record {
    refused = λ e. refl;
    unkept = λ e. absurd (clash e other);
    unknown = λ e f. absurd (clash e other);
    known = λ e f. absurd (clash f other);
  }

  json_lem :
      (now minute : ℕ)
      → Unkept (write_json h page_header now minute)
        × (((write_json h page_header now minute).status ≡ 200)
            ⊎ ((write_json h page_header now minute).status ≡ 500))
  unfolding write_json ok failed
  json_lem now minute =
      elim (Option-cases (r.marshal (snapshot h.metrics now minute) h.info h.build)) [
        | inl e ↦ rw (e, write_json) (failed-Unkept (codes "snapshot failed"), inr refl)
        | inr (body, e) ↦
            rw (e, write_json) (ok-Unkept (codes "application/json; charset=utf-8") body, inl refl)
      ]

  prom_lem :
      (now minute : ℕ)
      → Unkept (write_prom h page_header now minute)
        × (((write_prom h page_header now minute).status ≡ 200)
            ⊎ ((write_prom h page_header now minute).status ≡ 500))
  unfolding write_prom ok
  prom_lem now minute = (
    ok-Unkept (codes "text/plain; version=0.0.4; charset=utf-8")
        (prom (snapshot h.metrics now minute) h.build),
    inl refl,
  )

  -- Another method than GET and HEAD gets the proxy's own rejection. Those two get an answer that no
  -- cache keeps and no robot lists: the rejection but for the cache's header where the path is none of
  -- the three pages, and status 200 or 500 where it is one.
  pub serve_http-Routed :
      (method path : Bytes) (now minute : ℕ)
      → Routed method path (serve_http h method path now minute)
  unfolding serve_http
  serve_http-Routed method path now minute =
      elim (Bool-cases (not (same method (codes "GET")) && not (same method (codes "HEAD")))) [
        | inl e ↦ rw (e, serve_http) (other_answer method path (ap not e))
        | inr e ↦
            let read : is_read method ≡ true = ap not e in
            let route = trim_suffix path (codes "/") in
            elim (Bool-cases (same route [])) [
              | inl f ↦
                  rw (e, f, serve_http)
                    (page_answer method path _ read (rw f refl)
                      (ok-Unkept (codes "text/html; charset=utf-8") r.page) (inl refl))
              | inr f ↦ elim (Bool-cases (same route (codes "/json"))) [
                | inl g ↦
                    let j = json_lem now minute in
                    rw (e, f, g, serve_http)
                      (page_answer method path _ read (rw (f, g) refl) j.0 j.1)
                | inr g ↦ elim (Bool-cases (same route (codes "/metrics"))) [
                  | inl k ↦
                      rw (e, f, g, k, serve_http)
                        (page_answer method path _ read (rw (f, g, k) refl) (prom_lem now minute).0
                          (prom_lem now minute).1)
                  | inr k ↦
                      rw (e, f, g, k, serve_http) (lost_answer method path read (rw (f, g, k) refl))
                ]
              ]
            ]
      ]
