-- ===== src/Config/Load/Valid.antt =====
-- internal/config/config.go: what holds of every configuration that `Load` returns.
use gh_proxy.Base.{
  Bool, true, false, not, ◌&&◌, List, [], ◌∷◌, ◌≡◌, ◌⊎◌, inl, inr, refl, sym, ap, ◌∙◌,
  if◌then◌else◌, Bool-cases, Bytes, codes, same, same_iff, ltb, is_empty, length, All, ℤ, pos,
}
use mathlib.Core.Path.{subst}
use gh_proxy.GoLib.Strings.{Unicode, to_lower, contains_any}
use gh_proxy.Ghurl.Rule.{Rule, Parsed, ok, err, parse_rules}
use gh_proxy.Ghurl.Rule.WellFormed.{IsRule, parse_rules-IsRule}
use gh_proxy.Config.{
  Config, status_auth_token, status_auth_none, upstream_source_env, upstream_source_gh,
}
use gh_proxy.Config.Normalize.{
  clash, set_inj, Setting, set_to, refused, Refusal, bad_rules, token_missing, token_and_anonymous,
  token_short, token_unsafe, check_token, normalize_prefix, normalize_status_path, default_hosts,
}
use gh_proxy.Config.Normalize.Paths.{IsMount, IsPagePath, normalize_prefix-IsMount}
use gh_proxy.Config.Normalize.PagePath.{normalize_status_path-IsPagePath}
use gh_proxy.Config.Normalize.Token.{IsAccepted, check_token_iff}
use gh_proxy.Config.Normalize.Hosts.{IsSupported, default_hosts-IsSupported}
use gh_proxy.Config.Env.{
  Environment, getenv, env, env_int, env_bool, env_duration, env_bytes, secret, rules,
}
use gh_proxy.Config.Load.{
  ◌>>=◌, is_negative, seconds, Upstream, load_gh, load_upstream_source, load_status_auth,
  load_max_redirects, load,
}

-- A chain of settings that succeeds has a first setting, and goes on from it.
passed {κ ℓ} :
    {V : Type ℓ} {Z : Type κ} (first : Setting V) (next : V → Setting Z) {z : Z}
    → (first >>= next) ≡ set_to z
    → (v : V) × (first ≡ set_to v) × (next v ≡ set_to z)
passed (set_to v) next h = (v, refl, h)
passed (refused why) next h = absurd (clash h)

-- Where a test does not refuse, the rest decides.
last_word {ℓ} :
    {V : Type ℓ} (a : Bool) (why : Refusal) (rest : Setting V) {v : V}
    → (if a then refused why else rest) ≡ set_to v
    → (a ≡ false) × (rest ≡ set_to v)
last_word true why rest h = absurd (clash h)
last_word false why rest h = (refl, h)

same_after_four :
    (a b c d : Bool) (w x y z : Refusal) (t : Bytes) {t' : Bytes}
    → (if a
        then refused w
        else if b
        then refused x
        else if c
        then refused y
        else if d
        then refused z
        else set_to t)
      ≡ set_to t'
    → t ≡ t'
same_after_four a b c d w x y z t h =
    set_inj
      (last_word d z (set_to t) (last_word c y _ (last_word b x _ (last_word a w _ h).1).1).1).1

kept_token :
    (t : Bytes) (anonymous : Bool) {t' : Bytes} → check_token t anonymous ≡ set_to t' → t ≡ t'
unfolding check_token
kept_token t anonymous h =
    same_after_four (is_empty t && not anonymous) (not (is_empty t) && anonymous)
      (not (is_empty t) && ltb (length t) 16) (contains_any t (codes "/?# ")) token_missing
      token_and_anonymous (token_short (length t)) token_unsafe t h

check_token-IsAccepted :
    (t : Bytes) (anonymous : Bool) {t' : Bytes}
    → check_token t anonymous ≡ set_to t'
    → IsAccepted t' anonymous
check_token-IsAccepted t anonymous {t'} h =
    (check_token_iff t' anonymous).0 (rw (kept_token t anonymous h) at h)

module _ ⦃c : Unicode⦄ ⦃e : Environment⦄ where
  parsed-IsRule :
      (text key : Bytes) (q : Parsed (List Rule)) {rs : List Rule}
      → parse_rules text ≡ q
      → elim q [ ok out ↦ set_to out | err x ↦ refused (bad_rules key) ] ≡ set_to rs
      → All IsRule rs
  parsed-IsRule text key (ok out) e h = parse_rules-IsRule text (e ∙ ap ok (set_inj h))
  parsed-IsRule text key (err x) e h = absurd (clash h)

  rules-IsRule : (key : Bytes) {rs : List Rule} → rules key ≡ set_to rs → All IsRule rs
  unfolding rules
  rules-IsRule key h = parsed-IsRule (getenv key) key (parse_rules (getenv key)) refl h

  -- One of the two sources; with the gh CLI no token is configured, and the refresh is no negative
  -- time.
  abbrev pub IsSource : Bytes → Bytes → ℤ → Type 0
  IsSource source token refresh =
      (source ≡ upstream_source_env)
      ⊎ ((source ≡ upstream_source_gh) × (token ≡ []) × (is_negative refresh ≡ false))

  empty_lem : (t : Bytes) → is_empty t ≡ true → t ≡ []
  empty_lem [] e = refl
  empty_lem (x ∷ t) e = cc

  load_gh_lem :
      {u : Upstream}
      → load_gh ≡ set_to u
      → (is_negative u.gh_refresh ≡ false) × (u.source ≡ upstream_source_gh)
  unfolding load_gh
  load_gh_lem h =
      let (fine, made) =
        last_word (is_negative (env_duration (codes "GHP_GH_REFRESH") (seconds 300))) _ _ h in
      (
        ap (λ x. is_negative x.gh_refresh) (sym (set_inj made)) ∙ fine,
        ap (λ x. x.source) (sym (set_inj made)),
      )

  load_upstream_source-IsSource :
      (token : Bytes) {u : Upstream}
      → load_upstream_source token ≡ set_to u
      → IsSource u.source token u.gh_refresh
  unfolding load_upstream_source load_gh
  load_upstream_source-IsSource token {u} h = elim (Bool-cases (same source upstream_source_env)) [
    | inl a ↦ inl (
        ap (λ x. x.source) (sym (set_inj (rw (a, load_upstream_source) at h)))
        ∙ (same_iff source upstream_source_env).0 a)
    | inr a ↦ elim (Bool-cases (same source upstream_source_gh)) [
      | inr b ↦ absurd (clash (rw (a, b, load_upstream_source) at h))
      | inl b ↦ elim (Bool-cases (is_empty token)) [
        | inr d ↦ absurd (clash (rw (a, b, d, load_upstream_source) at h))
        | inl d ↦
            let gh : load_gh ≡ set_to u = rw (a, b, d, load_upstream_source) at h in
            let (fine, made) = load_gh_lem gh in inr (made, empty_lem token d, fine)
      ]
    ]
  ]
    where
      source : Bytes
      source = to_lower (env (codes "GHP_UPSTREAM_TOKEN_SOURCE") upstream_source_env)

  abbrev pub IsAuth : Bytes → Type 0
  IsAuth a = (a ≡ status_auth_token) ⊎ (a ≡ status_auth_none)

  load_status_auth-IsAuth : {a : Bytes} → load_status_auth ≡ set_to a → IsAuth a
  unfolding load_status_auth
  load_status_auth-IsAuth {a} h = elim (Bool-cases (same auth status_auth_token)) [
    | inl k ↦
        inl (sym (set_inj (rw (k, load_status_auth) at h)) ∙ (same_iff auth status_auth_token).0 k)
    | inr k ↦ elim (Bool-cases (same auth status_auth_none)) [
      | inl l ↦
          inr (
            sym (set_inj (rw (k, l, load_status_auth) at h)) ∙ (same_iff auth status_auth_none).0 l)
      | inr l ↦ absurd (clash (rw (k, l, load_status_auth) at h))
    ]
  ]
    where
      auth : Bytes
      auth = to_lower (env (codes "GHP_STATUS_AUTH") status_auth_token)

  load_max_redirects_lem : {n : ℤ} → load_max_redirects ≡ set_to n → is_negative n ≡ false
  unfolding load_max_redirects
  load_max_redirects_lem h =
      let (n, read, k) = passed (env_int (codes "GHP_MAX_REDIRECTS") (pos 5)) _ h in
      let (fine, same_n) = last_word (is_negative n) _ _ k in
      ap is_negative (sym (set_inj same_n)) ∙ fine

  -- The shape of a configuration: the admin listener is the one that the environment names, its paths, lists and hosts are well formed, and its token, source,
  -- page and bounds are those that the program runs with.
  pub record IsValid (cfg : Config) : Type 0 where
    pub admin : cfg.admin_listen ≡ env (codes "GHP_ADMIN_LISTEN") (codes "127.0.0.1:8900")
    pub mount : IsMount cfg.prefix
    pub token : IsAccepted cfg.token cfg.allow_anonymous
    pub source : IsSource cfg.upstream_source cfg.upstream_token cfg.gh_refresh
    pub allowed : All IsRule cfg.allow_list
    pub denied : All IsRule cfg.deny_list
    pub hosts : All IsSupported cfg.default_hosts
    pub page : (cfg.status_path ≡ []) ⊎ IsPagePath cfg.status_path
    pub auth : IsAuth cfg.status_auth
    pub redirects : is_negative cfg.max_redirects ≡ false

  -- Every configuration that `Load` returns is valid, whatever the environment and the files.
  pub load-IsValid : {cfg : Config} → load ≡ set_to cfg → IsValid cfg
  unfolding load
  load-IsValid h =
      let (prefix, e1, h1) = passed (normalize_prefix (env (codes "GHP_PREFIX") (codes "/"))) _ h in
      let (given, e2, h2) = passed (secret (codes "GHP_TOKEN")) _ h1 in
      let (upstream_token, e3, h3) = passed (secret (codes "GHP_UPSTREAM_TOKEN")) _ h2 in
      let anonymous = env_bool (codes "GHP_ALLOW_ANONYMOUS") false in
      let (token, e4, h4) = passed (check_token given anonymous) _ h3 in
      let (upstream, e5, h5) = passed (load_upstream_source upstream_token) _ h4 in
      let (allow_list, e6, h6) = passed (rules (codes "GHP_ALLOW_LIST")) _ h5 in
      let (deny_list, e7, h7) = passed (rules (codes "GHP_DENY_LIST")) _ h6 in
      let (hosts, e8, h8) = passed (default_hosts (getenv (codes "GHP_DEFAULT_HOST"))) _ h7 in
      let (status_path, e9, h9) =
        passed (normalize_status_path (env (codes "GHP_STATUS_PATH") [])) _ h8 in
      let (status_auth, e10, h10) = passed load_status_auth _ h9 in
      let (max_redirects, e11, h11) = passed load_max_redirects _ h10 in
      let (size_limit, e12, h12) = passed (env_bytes (codes "GHP_SIZE_LIMIT") (pos 0)) _ h11 in
      subst IsValid (set_inj h12) (record {
        admin = refl;
        mount = normalize_prefix-IsMount (env (codes "GHP_PREFIX") (codes "/")) e1;
        token = check_token-IsAccepted given anonymous e4;
        source = load_upstream_source-IsSource upstream_token e5;
        allowed = rules-IsRule (codes "GHP_ALLOW_LIST") e6;
        denied = rules-IsRule (codes "GHP_DENY_LIST") e7;
        hosts = default_hosts-IsSupported (getenv (codes "GHP_DEFAULT_HOST")) e8;
        page = normalize_status_path-IsPagePath (env (codes "GHP_STATUS_PATH") []) e9;
        auth = load_status_auth-IsAuth e10;
        redirects = load_max_redirects_lem e11;
      })
