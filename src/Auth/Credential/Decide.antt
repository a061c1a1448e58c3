-- ===== src/Auth/Credential/Decide.antt =====
-- internal/auth/auth.go: `Check` decides what is let through, and what remains of the target.
use gh_proxy.Base.{
  Bool, true, false, Option, none, some, [], ◌∷◌, ◌++◌, ◌≡◌, ◌↔◌, inl, inr, refl, sym, ap, ◌∙◌,
  if◌then◌else◌, Bytes, append_assoc, some_inj,
}
use gh_proxy.GoLib.Strings.{Unicode}
use gh_proxy.GoLib.Header.{Header}
use gh_proxy.Auth.{Authenticator, check_path, check_headers, check}
use gh_proxy.Auth.Credential.{Grants}
use gh_proxy.Auth.Credential.Path.{check_path_iff}
use gh_proxy.Auth.Credential.Headers.{check_headers_iff}

-- The answer of `Check` from its three tests.
abbrev answer : Bytes → Bool → Option Bytes → Bool → Bytes × Bool
answer rest true o d = (rest, true)
answer rest false (some r) d = (r, true)
answer rest false none d = (rest, d)

module _ ⦃c : Unicode⦄ (a : Authenticator) (h : Header) (rest : Bytes) where
  check-answer : check a h rest ≡ answer rest a.anonymous (check_path a rest) (check_headers a h)
  unfolding check
  check-answer = go a.anonymous (check_path a rest) (check_headers a h)
    where
      go :
          (b : Bool) (o : Option Bytes) (d : Bool)
          → (if b
              then (rest, true)
              else elim o [ some r ↦ (r, true) | none ↦ if d then (rest, true) else (rest, false) ])
            ≡ answer rest b o d
      go true o d = refl
      go false (some r) d = refl
      go false none true = refl
      go false none false = refl

  -- `Check` lets a request through, with `r` for what remains of its target, exactly when
  -- authentication is off and `r` is the whole, or the first segment of the target is the token,
  -- plain or percent-encoded, and `r` follows it, or no segment is, `X-Proxy-Token` or
  -- `Authorization` carries the token, and `r` is the whole.
  pub check_iff : (r : Bytes) → (check a h rest ≡ (r, true)) ↔ Grants a h rest r
  check_iff r =
      rw check-answer (go a.anonymous (check_path a rest) (check_headers a h) refl refl refl)
    where
      go :
          (b : Bool) (o : Option Bytes) (d : Bool)
          → a.anonymous ≡ b
          → check_path a rest ≡ o
          → check_headers a h ≡ d
          → (answer rest b o d ≡ (r, true)) ↔ Grants a h rest r
      go true o d eb eo ed = (λ e. inl (eb, sym (λ i. (e i).0)), back)
        where
          back : Grants a h rest r → ◌≡◌ {A = Bytes × Bool} (rest, true) (r, true)
          back (inl (x, e)) = λ i. (sym e i, true)
          back (inr (x, y)) = cc
      go false (some r') d eb eo ed =
          (λ e. inr (eb, inl ((check_path_iff a rest r).0 (eo ∙ ap some (λ i. (e i).0)))), back)
        where
          back : Grants a h rest r → ◌≡◌ {A = Bytes × Bool} (r', true) (r, true)
          back (inl (x, e)) = cc
          back (inr (x, inl p)) = λ i. (some_inj (sym eo ∙ (check_path_iff a rest r).1 p) i, true)
          back (inr (x, inr (no_path, y, z))) =
              absurd (no_path r' ((check_path_iff a rest r').0 eo))
      go false none d eb eo ed = (forth, back)
        where
          forth : ◌≡◌ {A = Bytes × Bool} (rest, d) (r, true) → Grants a h rest r
          forth e = inr (
            eb,
            inr (
              (λ r' p. none_ne (sym eo ∙ (check_path_iff a rest r').1 p)),
              (check_headers_iff a h).0 (ed ∙ (λ i. (e i).1)),
              sym (λ i. (e i).0),
            ),
          )
            where
              none_ne : {x : Bytes} → none ≡ some x → ⊥
              none_ne q = cc

          back : Grants a h rest r → ◌≡◌ {A = Bytes × Bool} (rest, d) (r, true)
          back (inl (x, e)) = cc
          back (inr (x, inl p)) = cc (eo, (check_path_iff a rest r).1 p)
          back (inr (x, inr (no_path, y, z))) =
              λ i. (sym z i, (sym ed ∙ (check_headers_iff a h).1 y) i)

  -- What remains of the target is an end of it, whatever the answer.
  pub check_suffix : (pre : Bytes) × (rest ≡ pre ++ (check a h rest).0)
  check_suffix = rw check-answer (go a.anonymous (check_path a rest) (check_headers a h) refl)
    where
      go :
          (b : Bool) (o : Option Bytes) (d : Bool)
          → check_path a rest ≡ o
          → (pre : Bytes) × (rest ≡ pre ++ (answer rest b o d).0)
      go true o d eo = ([], refl)
      go false none d eo = ([], refl)
      go false (some r) d eo =
          let (seg, split, _, _) = (check_path_iff a rest r).0 eo in
          (seg ++ b'/' ∷ [], split ∙ sym (append_assoc seg (b'/' ∷ []) r))
