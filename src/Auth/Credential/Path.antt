-- ===== src/Auth/Credential/Path.antt =====
-- internal/auth/auth.go: `equal` and `checkPath`.
use gh_proxy.Base.{
  Bool, true, false, not, ◌||◌, ◌&&◌, none, some, [], ◌∷◌, ◌≡◌, ◌↔◌, inl, inr, refl, sym, ◌∙◌,
  arith, if◌then◌else◌, Bytes, Bool-cases, Option-cases, same, same_iff, is_empty, some_inj,
}
use gh_proxy.GoLib.Strings.{cut}
use gh_proxy.GoLib.Strings.Cut.{IsCut, cut-IsCut, cut-append}
use gh_proxy.GoLib.Url.{path_unescape}
use gh_proxy.GoLib.Url.Escape.{unescape}
use gh_proxy.Auth.{Authenticator, equal, equal_decoded, check_path}
use gh_proxy.Auth.Credential.{IsToken, SpellsToken, PathCredential}

empty_iff : (s : Bytes) → (is_empty s ≡ true) ↔ (s ≡ [])
empty_iff [] = (λ h. refl, λ h. refl)
empty_iff (c ∷ s) = (λ h. cc, λ h. cc)

pub equal_iff : (a : Authenticator) (s : Bytes) → (equal a s ≡ true) ↔ IsToken a s
unfolding equal
equal_iff a s = (
  λ h. (ground (arith, same_iff s a.token), λ e. ground (arith, empty_iff a.token)),
  λ (e, ne). ground (arith, same_iff s a.token, empty_iff a.token, empty_iff s),
)

pub equal-false : (a : Authenticator) (s : Bytes) → equal a s ≡ false → ¬ IsToken a s
equal-false a s h t = ground (arith, (equal_iff a s).1 t)

decoded_some :
    (a : Authenticator) (seg : Bytes) {dec : Bytes}
    → path_unescape seg ≡ some dec
    → equal_decoded a seg ≡ (not (same dec seg) && equal a dec)
unfolding equal_decoded
decoded_some a seg d = rw (d, equal_decoded)

decoded_none :
    (a : Authenticator) (seg : Bytes) → path_unescape seg ≡ none → equal_decoded a seg ≡ false
unfolding equal_decoded
decoded_none a seg d = rw (d, equal_decoded)

-- The two tries of `checkPath` together.
spells_iff :
    (a : Authenticator) (seg : Bytes)
    → ((equal a seg || equal_decoded a seg) ≡ true) ↔ SpellsToken a seg
spells_iff a seg = (sound, complete)
  where
    sound : (equal a seg || equal_decoded a seg) ≡ true → SpellsToken a seg
    sound h = elim (Bool-cases (equal a seg)) [
      | inl e ↦ inl ((equal_iff a seg).0 e)
      | inr e ↦ elim (Option-cases (path_unescape seg)) [
        | inl n ↦ absurd (ground (arith, decoded_none a seg n))
        | inr (dec, d) ↦ inr (dec, d, (equal_iff a dec).0 (ground (arith, decoded_some a seg d)))
      ]
    ]

    complete : SpellsToken a seg → (equal a seg || equal_decoded a seg) ≡ true
    complete (inl t) = rw ((equal_iff a seg).1 t)
    complete (inr (dec, d, t)) = elim (Bool-cases (same dec seg)) [
      | inl e ↦ rw ((equal_iff a seg).1 (rw ((same_iff dec seg).0 e) at t))
      | inr e ↦ ground (arith, (equal_iff a dec).1 t, decoded_some a seg d)
    ]

spells_nonempty : (a : Authenticator) → ¬ SpellsToken a []
unfolding unescape
spells_nonempty a (inl (e, ne)) = ne (sym e)
spells_nonempty a (inr (dec, d, (e, ne))) = ne (sym e ∙ sym (some_inj d))

-- `checkPath` behind the cut.
tries :
    (a : Authenticator) (seg remainder : Bytes) {r : Bytes}
    → (if equal a seg then some remainder else if equal_decoded a seg then some remainder else none)
      ≡ some r
    → SpellsToken a seg × (remainder ≡ r)
tries a seg remainder h = elim (Bool-cases (equal a seg || equal_decoded a seg)) [
  | inl e ↦ ((spells_iff a seg).0 e, ground arith)
  | inr e ↦ absurd (ground arith)
]

tries_complete :
    (a : Authenticator) (seg remainder : Bytes)
    → SpellsToken a seg
    → (if equal a seg then some remainder else if equal_decoded a seg then some remainder else none)
      ≡ some remainder
tries_complete a seg remainder t = ground (arith, (spells_iff a seg).1 t)

-- `checkPath` accepts exactly a leading segment that spells the token, and drops it.
pub check_path_iff :
    (a : Authenticator) (rest r : Bytes) → (check_path a rest ≡ some r) ↔ PathCredential a rest r
unfolding check_path
check_path_iff a rest r = (sound (cut b'/' rest) (cut-IsCut b'/' rest) refl, complete)
  where
    sound :
        (p : Bytes × Bytes × Bool)
        → IsCut b'/' rest p
        → cut b'/' rest ≡ p
        → check_path a rest ≡ some r
        → PathCredential a rest r
    sound (seg, rem, false) k e h = absurd (ground arith)
    sound ([], rem, true) k e h = absurd (ground arith)
    sound (c ∷ seg, rem, true) (split, lacks) e h =
        let (spells, same_rest) = tries a (c ∷ seg) rem (rw (e, check_path) at h) in
        (c ∷ seg, rw (← same_rest) split, lacks, spells)

    complete : PathCredential a rest r → check_path a rest ≡ some r
    complete ([], e, lacks, spells) = absurd (spells_nonempty a spells)
    complete (c ∷ seg, e, lacks, spells) =
        rw (e, cut-append b'/' (c ∷ seg) r lacks, check_path) (tries_complete a (c ∷ seg) r spells)
