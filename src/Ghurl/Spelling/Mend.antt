-- ===== src/Ghurl/Spelling/Mend.antt =====
-- internal/ghurl/ghurl.go: `RepairScheme` makes the whole URL of each spelling.
use gh_proxy.Base.{
  drop, ap, ◌||◌, Bool, true, false, ◌++◌, ◌≡◌, refl, ◌∙◌, map, all, if◌then◌else◌, Bytes, codes,
  is_empty,
}
use gh_proxy.GoLib.Strings.{Unicode, is_ascii, lower_byte, has_prefix}
use gh_proxy.GoLib.Url.Plain.{
  all-append, is_plain, is_visible, all-visible, visible_lem, trim_space-visible,
}
use gh_proxy.Ghurl.Repair.{repair_scheme, decode_scheme, add_scheme}
use gh_proxy.Ghurl.Spelling.{
  Host, github, www, raw_content, raw_old, gist_page, gist_content, host_text, Spelling, whole,
  insecure, merged_slash, no_slash, bare, spell, host-visible, spell-visible, rooted, mended,
}

-- `add_scheme` and `decode_scheme` within ASCII
abbrev add_ascii : Bytes → Bytes
add_ascii x =
    let low = map lower_byte x in
    if has_prefix low (codes "https://") || has_prefix low (codes "http://")
    then x
    else if has_prefix low (codes "https:/")
    then codes "https://" ++ drop 7 x
    else if has_prefix low (codes "http:/")
    then codes "http://" ++ drop 6 x
    else if has_prefix low (codes "https:")
    then codes "https://" ++ drop 6 x
    else if has_prefix low (codes "http:")
    then codes "http://" ++ drop 5 x
    else codes "https://" ++ x

abbrev is_encoded : Bytes → Bool
is_encoded x =
    let low = map lower_byte x in
    has_prefix low (codes "https%3a") || has_prefix low (codes "http%3a")

module _ ⦃c : Unicode⦄ (x : Bytes) (v : all is_visible x ≡ true) where
  ascii : is_ascii x ≡ true
  ascii = (visible_lem x v).0

  add_scheme_lem : add_scheme x ≡ add_ascii x
  unfolding add_scheme
  add_scheme_lem = rw ascii refl

  decode_scheme_lem : is_encoded x ≡ false → decode_scheme x ≡ x
  unfolding decode_scheme
  decode_scheme_lem e = rw ascii (rw e refl)

  -- `RepairScheme` on a visible text
  repair_lem : is_empty x ≡ false → is_encoded x ≡ false → repair_scheme x ≡ add_ascii x
  unfolding repair_scheme
  repair_lem e f =
      rw (trim_space-visible x v, e) (ap add_scheme (decode_scheme_lem f) ∙ add_scheme_lem)

module _ ⦃c : Unicode⦄ (s : Bytes) (plain : all is_plain s ≡ true) where
  pub text-visible :
      (sp : Spelling) (h : Host) → all is_visible (spell sp (host_text h ++ rooted s)) ≡ true
  text-visible sp h = spell-visible sp (host_text h ++ rooted s) (
      all-append is_visible (host_text h) (rooted s) (host-visible h)
        (all-visible (rooted s) plain))

  abbrev Mends : Spelling → Host → Type 0
  Mends sp h =
      let x = spell sp (host_text h ++ rooted s) in
      (is_empty x ≡ false) × (is_encoded x ≡ false) × (add_ascii x ≡ mended sp h s)

  mends :
      (h : Host)
      → Mends whole h × Mends insecure h × Mends merged_slash h × Mends no_slash h × Mends bare h
  unfolding has_prefix lower_byte
  mends github = (
    (refl, refl, refl),
    (refl, refl, refl),
    (refl, refl, refl),
    (refl, refl, refl),
    (refl, refl, refl),
  )
  mends www = (
    (refl, refl, refl),
    (refl, refl, refl),
    (refl, refl, refl),
    (refl, refl, refl),
    (refl, refl, refl),
  )
  mends raw_content = (
    (refl, refl, refl),
    (refl, refl, refl),
    (refl, refl, refl),
    (refl, refl, refl),
    (refl, refl, refl),
  )
  mends raw_old = (
    (refl, refl, refl),
    (refl, refl, refl),
    (refl, refl, refl),
    (refl, refl, refl),
    (refl, refl, refl),
  )
  mends gist_page = (
    (refl, refl, refl),
    (refl, refl, refl),
    (refl, refl, refl),
    (refl, refl, refl),
    (refl, refl, refl),
  )
  mends gist_content = (
    (refl, refl, refl),
    (refl, refl, refl),
    (refl, refl, refl),
    (refl, refl, refl),
    (refl, refl, refl),
  )

  repaired :
      (sp : Spelling) (h : Host)
      → Mends sp h
      → repair_scheme (spell sp (host_text h ++ rooted s)) ≡ mended sp h s
  repaired sp h m =
      repair_lem (spell sp (host_text h ++ rooted s)) (text-visible sp h) m.0 m.1 ∙ m.2

  pub spelled_lem :
      (sp : Spelling) (h : Host)
      → repair_scheme (spell sp (host_text h ++ rooted s)) ≡ mended sp h s
  spelled_lem whole h = repaired whole h (mends h).0
  spelled_lem insecure h = repaired insecure h (mends h).1
  spelled_lem merged_slash h = repaired merged_slash h (mends h).2
  spelled_lem no_slash h = repaired no_slash h (mends h).3
  spelled_lem bare h = repaired bare h (mends h).4
