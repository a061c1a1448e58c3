-- ===== src/Proxy/Reverse/Fields.antt =====
-- internal/proxy/proxy.go: the header of the request that `ServeHTTP` sends to GitHub.
use gh_proxy.Base.{
  Bool, true, false, not, ◌||◌, Option, none, some, [], ◌∷◌, ◌++◌, ◌≡◌, refl, sym, inl, inr, ◌∙◌,
  arith, if◌then◌else◌, any, Bool-cases, Bytes, codes, same, same_iff, is_empty,
}
use mathlib.Core.Path.{subst}
use gh_proxy.GoLib.Strings.{Unicode, to_lower, has_prefix}
use gh_proxy.GoLib.Header.{Header, set, del, values, values-del, values-set}
use gh_proxy.GoLib.Hop.{
  has_token, upgrade_type, hop_headers, connection_names, remove_hop_by_hop, is_hop_by_hop,
  values-remove_hop_by_hop,
}
use gh_proxy.Proxy.{Options, Outgoing, Info, upstream_token, rewrite}
use gh_proxy.Proxy.Rewrite.{is_private, let_out, rewrite-LetOut}
use gh_proxy.Proxy.Redirect.{Transport}
use gh_proxy.Proxy.Reverse.{
  Network, new, with_defaults, outgoing_header, keep_agent, has_name, outgoing, is_zero,
}

-- A `set` under a condition leaves another name alone.
set_if :
    (b : Bool) (h : Header) (n v name : Bytes)
    → same n name ≡ false
    → values (if b then set h n v else h) name ≡ values h name
set_if true h n v name e = values-set h n v name ∙ rw e refl
set_if false h n v name e = refl

set_unless :
    (b : Bool) (h : Header) (n v name : Bytes)
    → same n name ≡ false
    → values (if b then h else set h n v) name ≡ values h name
set_unless true h n v name e = refl
set_unless false h n v name e = values-set h n v name ∙ rw e refl

pub values-keep_agent :
    (h : Header) (name : Bytes)
    → same (codes "User-Agent") name ≡ false
    → values (keep_agent h) name ≡ values h name
unfolding keep_agent
values-keep_agent h name e =
    set_unless (has_name h (codes "User-Agent")) h (codes "User-Agent") [] name e

upgraded_lem :
    (b : Bool) (h : Header) (u name : Bytes)
    → same (codes "Connection") name ≡ false
    → same (codes "Upgrade") name ≡ false
    → values
        (if b then h else set (set h (codes "Connection") (codes "Upgrade")) (codes "Upgrade") u)
        name
      ≡ values h name
upgraded_lem true h u name e f = refl
upgraded_lem false h u name e f =
    values-set (set h (codes "Connection") (codes "Upgrade")) (codes "Upgrade") u name
    ∙ rw f (values-set h (codes "Connection") (codes "Upgrade") name ∙ rw e refl)

del_lem :
    (h : Header) (n name : Bytes) → same n name ≡ false → values (del h n) name ≡ values h name
del_lem h n name e = values-del h n name ∙ rw e refl

any-hop_headers :
    (name : Bytes)
    → any (λ n. same n name) hop_headers ≡ false
    → (same (codes "Connection") name ≡ false)
      × (same (codes "Te") name ≡ false)
      × (same (codes "Upgrade") name ≡ false)
any-hop_headers name h = (ground arith, ground arith, ground arith)

module _ ⦃c : Unicode⦄ where
  -- A private name is not one that is not.
  unlike :
      (n name : Bytes) (b : Bool) → is_private n ≡ b → is_private name ≡ not b → same n name ≡ false
  unlike n name b e f = elim (Bool-cases (same n name)) [
    | inr g ↦ g
    | inl g ↦
        let k : is_private name ≡ b = subst (λ x. is_private x ≡ b) ((same_iff n name).0 g) e in
        absurd (clash b (sym k ∙ f))
  ]
    where
      clash : (x : Bool) → x ≡ not x → ⊥
      clash true k = cc
      clash false k = cc

  forwarded_lem :
      (is_private (codes "Forwarded") ≡ true)
      × (is_private (codes "X-Forwarded-For") ≡ true)
      × (is_private (codes "X-Forwarded-Host") ≡ true)
      × (is_private (codes "X-Forwarded-Proto") ≡ true)
  unfolding same to_lower has_prefix
  forwarded_lem = (refl, refl, refl, refl)

  values-outgoing_header :
      (h : Header) (name : Bytes)
      → is_private name ≡ false
      → is_hop_by_hop h name ≡ false
      → values (outgoing_header h) name ≡ values h name
  unfolding outgoing_header
  values-outgoing_header h name public end_to_end =
      let (k, k_for, k_host, k_proto) = forwarded_lem in
      let (connection, te, up) = any-hop_headers name (
        or_false (any (λ n. same n name) (connection_names (values h (codes "Connection")))) _
          end_to_end) in
      let bare : values (remove_hop_by_hop h) name ≡ values h name =
        values-remove_hop_by_hop h name ∙ rw end_to_end refl in
      del_lem _ _ name (unlike (codes "X-Forwarded-Proto") name true k_proto public)
      ∙ (del_lem _ _ name (unlike (codes "X-Forwarded-Host") name true k_host public)
          ∙ (del_lem _ _ name (unlike (codes "X-Forwarded-For") name true k_for public)
              ∙ (del_lem _ _ name (unlike (codes "Forwarded") name true k public)
                  ∙ (upgraded_lem (is_empty (upgrade_type h)) _ (upgrade_type h) name connection up
                      ∙ (set_if (has_token (values h (codes "Te")) (codes "trailers"))
                            (remove_hop_by_hop h) (codes "Te") (codes "trailers") name te
                          ∙ bare)))))
    where
      or_false : (a b : Bool) → (a || b) ≡ false → b ≡ false
      or_false a b e = ground arith

  -- A request to GitHub: it goes to the target with the method of the client's, and without its
  -- body where that has no length; no private header is on it but for `Authorization`, which is the
  -- bearer of the token or absent; every other header that is meant for the far end, `User-Agent`
  -- apart, has the client's values.
  pub record SentFor (o : Options) (r : Outgoing) (info : Info) (out : Outgoing) : Type 0 where
    pub to_target : (out.url ≡ info.target) × (out.host ≡ info.target.host)
    pub same_method : out.method ≡ r.method
    pub same_info : out.info ≡ r.info
    pub body : out.body ≡ (if is_zero r.content_length then none else r.body)
    pub private :
        (name : Bytes)
        → is_private name ≡ true
        → same (codes "Authorization") name ≡ false
        → values out.header name ≡ []
    pub credential :
        values out.header (codes "Authorization")
        ≡ (if is_empty (upstream_token o) then [] else (codes "Bearer " ++ upstream_token o) ∷ [])
    pub kept :
        (name : Bytes)
        → is_private name ≡ false
        → is_hop_by_hop r.header name ≡ false
        → same (codes "User-Agent") name ≡ false
        → values out.header name ≡ values r.header name

  agent_lem : is_private (codes "User-Agent") ≡ false
  unfolding same to_lower has_prefix
  agent_lem = refl

  pub authorization_lem :
      (same (codes "User-Agent") (codes "Authorization") ≡ false)
      × (is_private (codes "Authorization") ≡ true)
      × (same (codes "Authorization") (codes "Authorization") ≡ true)
  unfolding same to_lower has_prefix
  authorization_lem = (refl, refl, refl)

  let_out_private :
      (token : Bytes) (h : Header) (name : Bytes)
      → is_private name ≡ true
      → same (codes "Authorization") name ≡ false
      → let_out token h name ≡ []
  let_out_private token h name e f = rw (e, f) refl

  let_out_public :
      (token : Bytes) (h : Header) (name : Bytes)
      → is_private name ≡ false
      → same (codes "Authorization") name ≡ false
      → let_out token h name ≡ values h name
  let_out_public token h name e f = rw (e, f) refl

  let_out_credential :
      (token : Bytes) (h : Header)
      → let_out token h (codes "Authorization")
        ≡ (if is_empty token then [] else (codes "Bearer " ++ token) ∷ [])
  unfolding same to_lower has_prefix
  let_out_credential token h = elim (Bool-cases (is_empty token)) [
    | inl e ↦ rw e refl
    | inr e ↦ rw e refl
  ]

  module _ {W : Type 0} ⦃n : Network W⦄ (o : Options) (base : Option (Transport W)) where
    pub outgoing-SentFor :
        (r : Outgoing) (info : Info)
        → r.info ≡ some info
        → SentFor o r info (outgoing (new o base).rp r)
    unfolding outgoing new with_defaults upstream_token
    outgoing-SentFor r info e =
        let before : Outgoing = record r {
          body = if is_zero r.content_length then none else r.body;
          header = outgoing_header r.header;
        } in
        let out = rewrite-LetOut (with_defaults o) before info e in
        let token = upstream_token o in
        let header = (rewrite (with_defaults o) before).header in
        let (agent, secret, itself) = authorization_lem in
        record {
          to_target = out.to_target;
          same_method = out.unchanged.0;
          same_info = out.unchanged.2;
          body = out.unchanged.1;
          private = λ name p q.
              values-keep_agent header name (not_agent name p)
              ∙ (out.headers name ∙ let_out_private token (outgoing_header r.header) name p q);
          credential =
              values-keep_agent header (codes "Authorization") agent
              ∙ (out.headers (codes "Authorization")
                  ∙ let_out_credential token (outgoing_header r.header));
          kept = λ name p q a.
              values-keep_agent header name a
              ∙ (out.headers name
                  ∙ (let_out_public token (outgoing_header r.header) name p
                        (not_authorization name p)
                      ∙ values-outgoing_header r.header name p q));
        }
      where
        not_agent : (name : Bytes) → is_private name ≡ true → same (codes "User-Agent") name ≡ false
        not_agent name p = unlike (codes "User-Agent") name false agent_lem p

        not_authorization :
            (name : Bytes) → is_private name ≡ false → same (codes "Authorization") name ≡ false
        not_authorization name p = unlike (codes "Authorization") name true authorization_lem.1 p
