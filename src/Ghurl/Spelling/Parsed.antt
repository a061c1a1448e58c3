-- ===== src/Ghurl/Spelling/Parsed.antt =====
-- internal/ghurl/ghurl.go: what `prepare` makes of the spellings of a plain URL.
use gh_proxy.Base.{
  ◌>>=◌, true, false, Option, none, some, [], ◌∷◌, ◌++◌, ◌≡◌, refl, ◌∙◌, any, all, Bytes, codes,
  same, same_refl, is_empty,
}
use gh_proxy.GoLib.Strings.{Unicode, cut_prefix, to_lower, has_prefix}
use gh_proxy.GoLib.Strings.Cut.{cut-Lacks}
use gh_proxy.GoLib.Url
use gh_proxy.GoLib.Url.{Url, is_ctl, empty_url, hostname}
use gh_proxy.GoLib.Url.Plain.{
  all-append, is_plain, is_visible, all-visible, visible_lem, escape-plain, unescape-plain,
}
use gh_proxy.Ghurl.Parse.{prepare, normalize}
use gh_proxy.Ghurl.Spelling.{
  Host, github, www, raw_content, raw_old, gist_page, gist_content, host_text, Spelling, whole,
  insecure, merged_slash, no_slash, bare, spell, scheme_of, host-visible, plain_url, rooted, mended,
}
use gh_proxy.Ghurl.Spelling.Mend.{text-visible, spelled_lem}

-- `net/url` on a visible text, and on a plain path
kept : (o : Option Url) → (o >>= λ u. some u) ≡ o
kept none = refl
kept (some u) = refl

no_fragment_lem :
    ⦃c : Unicode⦄ (x : Bytes) → all is_visible x ≡ true → Url.parse x ≡ Url.parse_no_fragment x
unfolding Url.parse
no_fragment_lem x v = rw (cut-Lacks b'#' x (visible_lem x v).2) (kept (Url.parse_no_fragment x))

no_query_lem : (x : Bytes) → all is_visible x ≡ true → Url.split_query x ≡ (x, [], false)
unfolding Url.split_query
no_query_lem x v = rw (cut-Lacks b'?' x (visible_lem x v).3) refl

set_path_lem :
    (u : Url) (p : Bytes)
    → all is_plain p ≡ true
    → Url.set_path u p ≡ some (record u { path = p; raw_path = [] })
unfolding Url.set_path
set_path_lem u p e = rw (unescape-plain p e, escape-plain p e, same_refl p) refl

-- A URL of the web, behind its scheme
abbrev Behind : ⦃c : Unicode⦄ → Bytes → Bytes → Type 0
Behind scheme x =
    any is_ctl x ≡ false
    → Url.parse_no_fragment (scheme ++ (b':' ∷ x))
      ≡ Url.parse_rest
          (record empty_url {
            scheme = scheme;
            raw_query = (Url.split_query x).1;
            force_query = (Url.split_query x).2;
          })
          (Url.split_query x).0

https_lem : ⦃c : Unicode⦄ (x : Bytes) → Behind (codes "https") x
unfolding Url.parse_no_fragment Url.get_scheme same to_lower
https_lem x e = rw e refl

http_lem : ⦃c : Unicode⦄ (x : Bytes) → Behind (codes "http") x
unfolding Url.parse_no_fragment Url.get_scheme same to_lower
http_lem x e = rw e refl

has_scheme : (sp : Spelling) → is_empty (scheme_of sp) ≡ false
has_scheme insecure = refl
has_scheme _ = refl

web :
    (host path : Bytes) (sp : Spelling)
    → normalize (plain_url (scheme_of sp) host path) ≡ some (plain_url (codes "https") host path)
unfolding normalize same
web host path insecure = refl
web host path whole = refl
web host path merged_slash = refl
web host path no_slash = refl
web host path bare = refl

module _ ⦃c : Unicode⦄ (s : Bytes) (plain : all is_plain s ≡ true) where
  -- Behind the scheme
  abbrev behind : Host → Bytes
  behind h = codes "//" ++ (host_text h ++ rooted s)

  behind-visible : (h : Host) → all is_visible (behind h) ≡ true
  behind-visible h =
      all-append is_visible (host_text h) (rooted s) (host-visible h) (all-visible (rooted s) plain)

  Rests : Host → Type 0
  Rests h =
      (u : Url)
      → is_empty u.scheme ≡ false
      → Url.parse_rest u (behind h)
        ≡ Url.set_path (record u { user = none; host = host_text h }) (rooted s)

  rest_lem : (h : Host) → Rests h
  unfolding Rests Url.parse_rest has_prefix cut_prefix Url.split_authority Url.parse_authority
  rest_lem github u e = rw e refl
  rest_lem www u e = rw e refl
  rest_lem raw_content u e = rw e refl
  rest_lem raw_old u e = rw e refl
  rest_lem gist_page u e = rw e refl
  rest_lem gist_content u e = rw e refl

  scheme_lem : (sp : Spelling) (x : Bytes) → Behind (scheme_of sp) x
  scheme_lem whole x = https_lem x
  scheme_lem insecure x = http_lem x
  scheme_lem merged_slash x = https_lem x
  scheme_lem no_slash x = https_lem x
  scheme_lem bare x = https_lem x

  mended-visible : (sp : Spelling) (h : Host) → all is_visible (mended sp h s) ≡ true
  mended-visible whole h = text-visible s plain whole h
  mended-visible insecure h = text-visible s plain insecure h
  mended-visible merged_slash h = text-visible s plain whole h
  mended-visible no_slash h = text-visible s plain whole h
  mended-visible bare h = text-visible s plain whole h

  parsed_lem :
      (sp : Spelling) (h : Host)
      → Url.parse (mended sp h s) ≡ some (plain_url (scheme_of sp) (host_text h) (rooted s))
  unfolding Rests
  parsed_lem sp h =
      let x = behind h in
      no_fragment_lem (mended sp h s) (mended-visible sp h)
      ∙ (scheme_lem sp x (visible_lem x (behind-visible h)).1
          ∙ rw (no_query_lem x (behind-visible h)) (
              rest_lem h (record empty_url { scheme = scheme_of sp }) (has_scheme sp)
              ∙ set_path_lem (record empty_url { scheme = scheme_of sp; host = host_text h })
                  (rooted s) plain))

  -- `prepare` makes one URL of all spellings.
  pub prepared_lem :
      (sp : Spelling) (h : Host)
      → prepare (spell sp (host_text h ++ rooted s))
        ≡ some (plain_url (codes "https") (host_text h) (rooted s))
  unfolding prepare
  prepared_lem sp h =
      rw (spelled_lem s plain sp h, parsed_lem sp h) (web (host_text h) (rooted s) sp)
