-- ===== src/Main/Boot/Start.antt =====
-- cmd/gh-proxy/main.go: whether `run` listens at all, and what it says when it does.
use gh_proxy.Base.{
  Bool, true, false, not, ◌&&◌, ◌||◌, List, [], ◌∷◌, ◌++◌, ◌≡◌, ◌≢◌, ◌⊎◌, inl, inr, refl, ◌∙◌,
  arith, any, Bool-cases, Bytes, codes, same, is_empty,
}
use gh_proxy.GoLib.Strings.{Unicode}
use gh_proxy.Config.{Config, status_auth_none}
use gh_proxy.Config.Normalize.{Refusal, Setting, set_to, refused}
use gh_proxy.Config.Env.{Environment}
use gh_proxy.Config.Load
use gh_proxy.Config.Load.Valid.{IsValid, load-IsValid}
use gh_proxy.Ghcli.{Gh, System, Trouble, Options, Source}
use gh_proxy.Main.{
  Linked, Credential, fixed, sourced, unavailable, upstream_credential, status_info, upstream_mode,
}
use gh_proxy.Main.Admin.{health_address, load-health_address}
use gh_proxy.Main.Boot.{
  Line, page_unguarded, no_authentication, credential_lent, RunError, config_error,
  credential_error, Boot, gave_up, listening, is_sourced, page_lines, anonymous_lines, boot, start,
}

abbrev pub is_no_authentication : Line → Bool
is_no_authentication no_authentication = true
is_no_authentication other = false

abbrev pub is_lent : Line → Bool
is_lent credential_lent = true
is_lent other = false

abbrev pub is_unguarded : Line → Bool
is_unguarded page_unguarded = true
is_unguarded other = false

-- The status page is open to everybody.
abbrev pub opens_page : Config → Bool
opens_page cfg = not (is_empty cfg.status_path) && same cfg.status_auth (codes "none")

any-append {ℓ} :
    {A : Type ℓ} (p : A → Bool) (xs ys : List A) → any p (xs ++ ys) ≡ (any p xs || any p ys)
any-append p [] ys = refl
any-append p (x ∷ xs) ys = rw (any-append p xs ys) (or_assoc (p x) (any p xs) (any p ys))
  where
    or_assoc : (a b c : Bool) → (a || (b || c)) ≡ ((a || b) || c)
    or_assoc a b c = ground arith

page_lines_lem :
    (cfg : Config)
    → (any is_no_authentication (page_lines cfg) ≡ false)
      × (any is_lent (page_lines cfg) ≡ false)
      × (any is_unguarded (page_lines cfg) ≡ opens_page cfg)
unfolding page_lines
page_lines_lem cfg = elim (Bool-cases (is_empty cfg.status_path)) [
  | inl e ↦ rw (e, page_lines) (refl, refl, refl)
  | inr e ↦ elim (Bool-cases (same cfg.status_auth status_auth_none)) [
    | inl f ↦ rw (e, f, page_lines) (refl, refl, refl)
    | inr f ↦ rw (e, f, page_lines) (refl, refl, refl)
  ]
]

-- The credential for GitHub is lent to everybody.
abbrev pub lends : Config → Credential → Bool
lends cfg cred = cfg.allow_anonymous && (not (is_empty cfg.upstream_token) || is_sourced cred)

anonymous_lines_lem :
    (cfg : Config) (cred : Credential)
    → (any is_no_authentication (anonymous_lines cfg cred) ≡ cfg.allow_anonymous)
      × (any is_lent (anonymous_lines cfg cred) ≡ lends cfg cred)
      × (any is_unguarded (anonymous_lines cfg cred) ≡ false)
unfolding anonymous_lines
anonymous_lines_lem cfg cred = elim (Bool-cases cfg.allow_anonymous) [
  | inr e ↦ rw (e, anonymous_lines) (refl, refl, refl)
  | inl e ↦ elim (Bool-cases (not (is_empty cfg.upstream_token) || is_sourced cred)) [
    | inl f ↦ rw (e, f, anonymous_lines) (refl, refl, refl)
    | inr f ↦ rw (e, f, anonymous_lines) (refl, refl, refl)
  ]
]

or_false : (b : Bool) → (b || false) ≡ b
or_false b = ground arith

Setting-cases :
    (s : Setting Config)
    → ((why : Refusal) × (s ≡ refused why)) ⊎ ((cfg : Config) × (s ≡ set_to cfg))
Setting-cases (refused why) = inl (why, refl)
Setting-cases (set_to cfg) = inr (cfg, refl)

Credential-cases :
    (x : Credential)
    → ((t : Trouble) × (x ≡ unavailable t))
      ⊎ ((x ≡ fixed) ⊎ ((o : Options) × (s : Source) × (x ≡ sourced o s)))
Credential-cases (unavailable t) = inl (t, refl)
Credential-cases fixed = inr (inl refl)
Credential-cases (sourced o s) = inr (inr (o, s, refl))

module _ ⦃c : Unicode⦄ where
  warned_lem :
      (linked : Linked) (cfg : Config) (cred : Credential)
      → (any is_no_authentication (boot linked cfg cred).lines ≡ cfg.allow_anonymous)
        × (any is_lent (boot linked cfg cred).lines ≡ lends cfg cred)
        × (any is_unguarded (boot linked cfg cred).lines ≡ opens_page cfg)
  unfolding boot
  warned_lem linked cfg cred =
      let (page, page', page_open) = page_lines_lem cfg in
      let (warned, lent, apart) = anonymous_lines_lem cfg cred in
      (
        any-append is_no_authentication (page_lines cfg) (anonymous_lines cfg cred)
            ∙ rw page warned,
        any-append is_lent (page_lines cfg) (anonymous_lines cfg cred) ∙ rw page' lent,
        any-append is_unguarded (page_lines cfg) (anonymous_lines cfg cred)
            ∙ rw (page_open, apart) (or_false (opens_page cfg)),
      )

  -- Another token, and another credential where there was one, gives the same lines.
  secretless :
      (linked : Linked) (cfg : Config) (cred : Credential) (token upstream : Bytes)
      → is_empty upstream ≡ is_empty cfg.upstream_token
      → (boot linked (record cfg { token = token; upstream_token = upstream }) cred).lines
        ≡ (boot linked cfg cred).lines
  unfolding boot status_info upstream_mode anonymous_lines
  secretless linked cfg cred token upstream e = rw e refl

  -- A program that listens: its configuration is one that `Load` returned, and valid; the credential
  -- that it was set to use is in hand; the admin listener is where the health check asks; the log
  -- warns of anonymous requests, of a credential lent to them, and of a status page that nothing
  -- guards, exactly where there are any;
  -- and what it says does not depend on the tokens.
  pub record Up ⦃e : Environment⦄ (sys : System) (linked : Linked) (gh : Gh) (b : Boot)
      : Type 0 where
    pub loaded : Load.load ≡ set_to b.cfg
    pub valid : IsValid b.cfg
    pub credential :
        (upstream_credential sys b.cfg gh ≡ b.credential)
        × ((t : Trouble) → b.credential ≢ unavailable t)
    pub addresses : (b.public.addr ≡ b.cfg.listen) × (b.admin.addr ≡ health_address)
    pub warned :
        (any is_no_authentication b.lines ≡ b.cfg.allow_anonymous)
        × (any is_lent b.lines ≡ lends b.cfg b.credential)
        × (any is_unguarded b.lines ≡ opens_page b.cfg)
    pub secret :
        (token upstream : Bytes)
        → is_empty upstream ≡ is_empty b.cfg.upstream_token
        → (boot linked
            (record b.cfg { token = token; upstream_token = upstream })
            b.credential).lines
          ≡ b.lines

  module _ ⦃e : Environment⦄ (sys : System) (linked : Linked) (gh : Gh) where
    -- Why the program does not listen
    abbrev pub GaveUp : RunError → Type 0
    GaveUp x =
        ((why : Refusal) × (Load.load ≡ refused why) × (x ≡ config_error why))
        ⊎ ((cfg : Config) × (t : Trouble) × (Load.load ≡ set_to cfg)
            × (upstream_credential sys cfg gh ≡ unavailable t)
            × (x ≡ credential_error t))

    boot-Up :
        (cfg : Config) (cred : Credential)
        → Load.load ≡ set_to cfg
        → upstream_credential sys cfg gh ≡ cred
        → ((t : Trouble) → cred ≢ unavailable t)
        → Up sys linked gh (boot linked cfg cred)
    unfolding boot
    boot-Up cfg cred loaded found there = record {
      loaded = loaded;
      valid = load-IsValid loaded;
      credential = (found, there);
      addresses = (refl, load-health_address loaded);
      warned = warned_lem linked cfg cred;
      secret = secretless linked cfg cred;
    }

    pub start-Up :
        ((x : RunError) × (start sys linked gh ≡ gave_up x) × GaveUp x)
        ⊎ ((b : Boot) × (start sys linked gh ≡ listening b) × Up sys linked gh b)
    unfolding start
    start-Up = elim (Setting-cases Load.load) [
      | inl (why, f) ↦ inl (config_error why, rw (f, start) refl, inl (why, f, refl))
      | inr (cfg, f) ↦ elim (Credential-cases (upstream_credential sys cfg gh)) [
        | inl (t, g) ↦ inl (credential_error t, rw (f, start) (rw g refl), inr (cfg, t, f, g, refl))
        | inr (inl g) ↦
            inr
              (boot linked cfg fixed, rw (f, start) (rw g refl), boot-Up cfg fixed f g (λ t k. cc))
        | inr (inr (o, s, g)) ↦ inr (
          boot linked cfg (sourced o s),
          rw (f, start) (rw g refl),
          boot-Up cfg (sourced o s) f g (λ t k. cc),
        )
      ]
    ]
