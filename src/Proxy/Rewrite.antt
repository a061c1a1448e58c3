-- ===== src/Proxy/Rewrite.antt =====
-- internal/proxy/proxy.go: what `rewrite` lets out to GitHub.
use gh_proxy.Base.{
  Bool, true, false, not, ◌&&◌, ◌||◌, some, List, [], ◌∷◌, ◌++◌, ◌≡◌, refl, sym, inl, inr,
  if◌then◌else◌, Bool-cases, Bytes, codes, same, same_iff, is_empty,
}
use gh_proxy.GoLib.Strings.{Unicode}
use gh_proxy.GoLib.Header.{Header, values, set, values-del, values-set}
use gh_proxy.Proxy.{
  Options, Outgoing, Info, auth_header, is_forwarded, strip_forwarded, strip, rewrite,
  upstream_token,
}

module _ ⦃c : Unicode⦄ where
  -- The names that identify the client, or hold the proxy's own secret
  abbrev pub is_private : Bytes → Bool
  is_private name =
      same (codes "Referer") name
      || (is_forwarded name
          || (same (codes "Forwarded") name
              || (same (codes "X-Real-Ip") name
                  || (same auth_header name
                      || (same (codes "Cookie") name || same (codes "Authorization") name)))))

  -- The values that a name of the header has on its way to GitHub, where `token` is the proxy's own
  -- token for GitHub
  abbrev pub let_out : Bytes → Header → Bytes → List Bytes
  let_out token h name =
      if same (codes "Authorization") name && not (is_empty token)
      then (codes "Bearer " ++ token) ∷ []
      else if is_private name
      then []
      else values h name

  values-strip_forwarded :
      (h : Header) (name : Bytes)
      → values (strip_forwarded h) name ≡ (if is_forwarded name then [] else values h name)
  unfolding values strip_forwarded
  values-strip_forwarded [] name = elim (Bool-cases (is_forwarded name)) [
    | inl e ↦ rw e refl
    | inr e ↦ rw e refl
  ]
  values-strip_forwarded ((n, vs) ∷ h) name = elim (Bool-cases (is_forwarded n)) [
    | inl e ↦ elim (Bool-cases (same n name)) [
      | inl f ↦
          let g : is_forwarded name ≡ true = rw ((same_iff n name).0 f) at e in
          rw (e, g) (rw g at (values-strip_forwarded h name))
      | inr f ↦ rw (e, f) (values-strip_forwarded h name)
    ]
    | inr e ↦ elim (Bool-cases (same n name)) [
      | inl f ↦
          let g : is_forwarded name ≡ false = rw ((same_iff n name).0 f) at e in rw (e, f, g) refl
      | inr f ↦ rw (e, f) (values-strip_forwarded h name)
    ]
  ]

  or_else :
      (a b : Bool) (vs : List Bytes)
      → (if a then [] else if b then [] else vs) ≡ (if a || b then [] else vs)
  or_else true b vs = refl
  or_else false b vs = refl

  values-strip :
      (h : Header) (name : Bytes)
      → values (strip h) name ≡ (if is_private name then [] else values h name)
  unfolding strip
  values-strip h name = simp (values-del, values-strip_forwarded, or_else)

  neither : (a : Bool) (vs ws : List Bytes) → (if a && not true then vs else ws) ≡ ws
  neither true vs ws = refl
  neither false vs ws = refl

  both :
      (a : Bool) (vs ws : List Bytes) → (if a then vs else ws) ≡ (if a && not false then vs else ws)
  both true vs ws = refl
  both false vs ws = refl

  header_lem :
      (token : Bytes) (h : Header) (name : Bytes)
      → values
          (if is_empty token
            then strip h
            else set (strip h) (codes "Authorization") (codes "Bearer " ++ token))
          name
        ≡ let_out token h name
  header_lem token h name = elim (Bool-cases (is_empty token)) [
    | inl e ↦ rw (e, values-strip h name) (sym (neither (same (codes "Authorization") name) _ _))
    | inr e ↦
        rw
          (
            e,
            values-set (strip h) (codes "Authorization") (codes "Bearer " ++ token) name,
            values-strip h name,
          )
          (both (same (codes "Authorization") name) _ _)
  ]

  -- `rewrite` sends the request to the URL that was asked for and keeps its method and body; of the
  -- headers it lets out what is not private, and `Authorization` is the proxy's own or absent.
  pub record LetOut (o : Options) (r : Outgoing) (info : Info) (out : Outgoing) : Type 0 where
    pub to_target : (out.url ≡ info.target) × (out.host ≡ info.target.host)
    pub unchanged : (out.method ≡ r.method) × (out.body ≡ r.body) × (out.info ≡ r.info)
    pub headers : (name : Bytes) → values out.header name ≡ let_out (upstream_token o) r.header name

  -- Where the context names a target, `rewrite` sends the request there with its method and body; every
  -- private header is gone, every other one is kept, and `Authorization` is the bearer of the token for
  -- GitHub, or absent where there is none.
  pub rewrite-LetOut :
      (o : Options) (r : Outgoing) (info : Info)
      → r.info ≡ some info
      → LetOut o r info (rewrite o r)
  unfolding rewrite
  rewrite-LetOut o r info e = rw e (record {
    to_target = (refl, refl);
    unchanged = (refl, refl, refl);
    headers = λ name. header_lem (upstream_token o) r.header name;
  })
