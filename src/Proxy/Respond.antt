-- ===== src/Proxy/Respond.antt =====
-- internal/proxy/proxy.go: what `modifyResponse` hands to the client.
use gh_proxy.Base.{
  Bool, true, false, Option, none, some, [], ◌∷◌, ◌≡◌, ◌≢◌, ◌⊎◌, List, if◌then◌else◌, ◌&&◌, ◌||◌,
  refl, sym, ap, ◌∙◌, inl, inr, Bool-cases, Option-cases, Bytes, codes, same, ℤ, pos, negsuc,
  some_inj, arith,
}
use gh_proxy.GoLib.Strings.{Unicode}
use gh_proxy.GoLib.Url.Print
use gh_proxy.GoLib.Header.{Header, get, get_lem, values, values-set}
use gh_proxy.Proxy.Cleaned.{
  is_banned, is_cors, cleaned, moved_to, banned-cases, banned_lem, unlisted_lem,
  values-clean_header,
}
use gh_proxy.Proxy.{
  Options, Outgoing, Reply, clean_header, new_location, relocate, redirect_oversized, is_over,
  modify_response,
}

module _ ⦃c : Unicode⦄ where
  values-relocate :
      (p : Reply) (name : Bytes)
      → values (relocate p).header name
        ≡ moved_to
            (new_location p.status p.request (get p.header (codes "Location")))
            name
            (values p.header name)
  unfolding relocate
  values-relocate p name =
      elim (Option-cases (new_location p.status p.request (get p.header (codes "Location")))) [
        | inl e ↦ rw (e, relocate) refl
        | inr (loc, e) ↦ rw (e, relocate) (values-set p.header (codes "Location") loc name)
      ]

  relocate_keeps :
      (p : Reply)
      → ((relocate p).status ≡ p.status)
        × ((relocate p).body ≡ p.body)
        × ((relocate p).content_length ≡ p.content_length)
        × ((relocate p).request ≡ p.request)
  unfolding relocate
  relocate_keeps p =
      elim (Option-cases (new_location p.status p.request (get p.header (codes "Location")))) [
        | inl e ↦ rw (e, relocate) (refl, refl, refl, refl)
        | inr (loc, e) ↦ rw (e, relocate) (refl, refl, refl, refl)
      ]

  get-clean_header :
      (o : Options) (h : Header)
      → get (clean_header o h) (codes "Location") ≡ get h (codes "Location")
  unfolding same
  get-clean_header o h =
      rw
        (
          get_lem (clean_header o h) (codes "Location"),
          values-clean_header o h (codes "Location"),
          get_lem h (codes "Location"),
        )
        (elim (Bool-cases o.cors) [ inl e ↦ rw e refl | inr e ↦ rw e refl ])

  -- The new location of a response, if it gets one
  abbrev pub location_of : Reply → Option Bytes
  location_of p = new_location p.status p.request (get p.header (codes "Location"))

  -- A response as it goes back, by the tests of the code
  pub record Modified (o : Options) (p : Reply) (out : Reply) : Type 0 where
    pub banned : (name : Bytes) → is_banned name ≡ true → values out.header name ≡ []
    pub unlisted :
        values out.header (codes "X-Robots-Tag") ≡ codes "noindex, nofollow, noarchive" ∷ []
    pub in_limit : p.request ≢ none → is_over o.size_limit out.content_length ≡ false
    pub passes :
        is_over o.size_limit p.content_length ≡ false
        → (out.status ≡ p.status)
          × (out.body ≡ p.body)
          × (out.content_length ≡ p.content_length)
          × ((name : Bytes)
              → values out.header name
                ≡ moved_to (location_of p) name (cleaned o.cors p.header name))
    pub redirects :
        (r : Outgoing)
        → p.request ≡ some r
        → is_over o.size_limit p.content_length ≡ true
        → (out.status ≡ 302)
          × (out.body ≡ [])
          × (values out.header (codes "Location") ≡ Print.print r.url ∷ [])

  -- The response with its headers cleaned and its location under the prefix
  abbrev pub moved : Options → Reply → Reply
  moved o p = relocate (record p { header = clean_header o p.header })

  values-moved :
      (o : Options) (p : Reply) (name : Bytes)
      → values (moved o p).header name
        ≡ moved_to (location_of p) name (cleaned o.cors p.header name)
  values-moved o p name =
      values-relocate (record p { header = clean_header o p.header }) name
      ∙ rw (get-clean_header o p.header, values-clean_header o p.header name) refl

  clash : {b : Bool} → b ≡ true → b ≡ false → ⊥
  clash e f = cc

  some_or_none : {r : Outgoing} → some r ≡ none → ⊥
  some_or_none e = cc

  empty_in_limit : (limit : ℤ) → is_over limit (pos 0) ≡ false
  unfolding is_over
  empty_in_limit (pos n) = ground arith
  empty_in_limit (negsuc n) = refl

  within :
      (o : Options) (p : Reply)
      → (is_over o.size_limit p.content_length ≡ false) ⊎ (p.request ≡ none)
      → Modified o p (moved o p)
  within o p fits =
      let keeps = relocate_keeps (record p { header = clean_header o p.header }) in
      record {
        banned =
            λ name e. values-moved o p name ∙ banned_lem o.cors p.header (location_of p) name e;
        unlisted =
            values-moved o p (codes "X-Robots-Tag") ∙ unlisted_lem o.cors p.header (location_of p);
        in_limit = λ asked. elim fits [ inl e ↦ rw keeps.2 e | inr e ↦ absurd (asked e) ];
        passes = λ e. (keeps.0, keeps.1, keeps.2, values-moved o p);
        redirects = λ r e f. elim fits [
          | inl g ↦ absurd (clash f g)
          | inr g ↦ absurd (some_or_none (sym e ∙ g))
        ];
      }

  -- Over the limit
  beyond :
      (o : Options) (p : Reply) (r : Outgoing)
      → is_over o.size_limit p.content_length ≡ true
      → p.request ≡ some r
      → Modified o p (redirect_oversized o (moved o p) r).0
  unfolding redirect_oversized same values
  beyond o p r over asked = record {
    banned = banned_far;
    unlisted = refl;
    in_limit = λ e. empty_in_limit o.size_limit;
    passes = λ e. absurd (clash over e);
    redirects = λ q e f.
        let r_is_q : r ≡ q = some_inj (sym asked ∙ e) in
        (refl, refl, ap (λ x. Print.print x.url ∷ []) r_is_q);
  }
    where
      banned_far :
          (name : Bytes)
          → is_banned name ≡ true
          → values (redirect_oversized o (moved o p) r).0.header name ≡ []
      banned_far name e = elim (banned-cases name e) [
        | inl f ↦ rw f refl
        | inr (inl f) ↦ rw f refl
        | inr (inr (inl f)) ↦ rw f refl
        | inr (inr (inr f)) ↦ rw f refl
      ]

  modified :
      (o : Options) (p : Reply) (q : Option Outgoing)
      → p.request ≡ q
      → is_over o.size_limit p.content_length ≡ true
      → (modify_response o p).0
        ≡ elim q [ none ↦ moved o p | some r ↦ (redirect_oversized o (moved o p) r).0 ]
  unfolding modify_response redirect_oversized
  modified o p none f e = simp (e, f)
  modified o p (some r) f e = simp (e, f)

  pub modify_response-Modified : (o : Options) (p : Reply) → Modified o p (modify_response o p).0
  unfolding modify_response
  modify_response-Modified o p = elim (Bool-cases (is_over o.size_limit p.content_length)) [
    | inl e ↦ elim (Option-cases p.request) [
      | inl f ↦ rw (modified o p none f e) (within o p (inr f))
      | inr (r, f) ↦ rw (modified o p (some r) f e) (beyond o p r e f)
    ]
    | inr e ↦ rw (e, modify_response) (within o p (inl e))
  ]

  modify_response-cases :
      (o : Options) (p : Reply)
      → ((modify_response o p).0 ≡ moved o p)
        ⊎ ((r : Outgoing) × ((modify_response o p).0 ≡ (redirect_oversized o (moved o p) r).0))
  unfolding modify_response
  modify_response-cases o p = elim (Bool-cases (is_over o.size_limit p.content_length)) [
    | inl e ↦ elim (Option-cases p.request) [
      | inl f ↦ inl (modified o p none f e)
      | inr (r, f) ↦ inr (r, modified o p (some r) f e)
    ]
    | inr e ↦ inl (rw (e, modify_response) refl)
  ]

  -- A name that `modifyResponse` may set
  abbrev pub is_written : Bytes → Bool
  is_written name =
      same (codes "Location") name
      || (same (codes "Content-Type") name || (same (codes "X-Robots-Tag") name || is_cors name))

  -- Any other name that is not on the response is not on what goes back either.
  pub modify_response_absent :
      (o : Options) (p : Reply) (name : Bytes)
      → is_written name ≡ false
      → values p.header name ≡ []
      → values (modify_response o p).0.header name ≡ []
  unfolding redirect_oversized values
  modify_response_absent o p name other absent = elim (modify_response-cases o p) [
    | inl e ↦ rw e (values-moved o p name ∙ gone (location_of p))
    | inr (r, e) ↦ rw e (
        three _ _ _ (same (codes "Location") name) (same (codes "Content-Type") name)
          (same (codes "X-Robots-Tag") name) (is_cors name) other)
  ]
    where
      three :
          (vs ws us : List Bytes) (a b d f : Bool)
          → (a || (b || (d || f))) ≡ false
          → (if a then vs else if b then ws else if d then us else []) ≡ []
      three vs ws us a b d f h = ground arith

      cleaned_absent :
          (us ws : List Bytes) (a b d f g k : Bool)
          → (a || (b || (d || f))) ≡ false
          → (if g && f then us else if d then ws else if k then [] else []) ≡ []
      cleaned_absent us ws a b d f g k h = ground arith

      still : cleaned o.cors p.header name ≡ []
      still = rw absent (
          cleaned_absent (codes "*" ∷ []) (codes "noindex, nofollow, noarchive" ∷ [])
            (same (codes "Location") name) (same (codes "Content-Type") name)
            (same (codes "X-Robots-Tag") name) (is_cors name) o.cors (is_banned name) other)

      not_location : (a b d f : Bool) → (a || (b || (d || f))) ≡ false → a ≡ false
      not_location a b d f h = ground arith

      gone : (loc : Option Bytes) → moved_to loc name (cleaned o.cors p.header name) ≡ []
      gone none = still
      gone (some loc) =
          rw
            (not_location (same (codes "Location") name) (same (codes "Content-Type") name)
              (same (codes "X-Robots-Tag") name) (is_cors name) other)
            still
