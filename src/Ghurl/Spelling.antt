-- ===== src/Ghurl/Spelling.antt =====
-- internal/ghurl/ghurl.go: the spellings of a plain URL that `RepairScheme` mends.
pub mod Mend
pub mod Parsed
use gh_proxy.Base.{
  drop, ap, ◌||◌, ◌>>=◌, Bool, true, false, Option, none, some, [], ◌∷◌, ◌++◌, ◌≡◌, refl, ◌∙◌, map,
  any, all, if◌then◌else◌, Bytes, codes, same, same_refl, is_empty,
}
use gh_proxy.GoLib.Strings.{Unicode, cut_prefix, is_ascii, to_lower, lower_byte, has_prefix}
use gh_proxy.GoLib.Strings.Cut.{cut-Lacks}
use gh_proxy.GoLib.Url
use gh_proxy.GoLib.Url.{Url, is_ctl, empty_url, hostname}
use gh_proxy.GoLib.Url.Plain.{
  all-append, is_plain, is_visible, all-visible, visible_lem, trim_space-visible, escape-plain,
  unescape-plain,
}
use gh_proxy.Ghurl.Repair.{repair_scheme, decode_scheme, add_scheme}
use gh_proxy.Ghurl.Parse.{prepare, normalize}

-- The hosts that serve GitHub's files
pub data Host : Type 0 where
  github www raw_content raw_old gist_page gist_content : Host

abbrev pub host_text : Host → Bytes
host_text github = codes "github.com"
host_text www = codes "www.github.com"
host_text raw_content = codes "raw.githubusercontent.com"
host_text raw_old = codes "raw.github.com"
host_text gist_page = codes "gist.github.com"
host_text gist_content = codes "gist.githubusercontent.com"

-- The spellings of a URL: whole, over http, with a slash that a server has merged, without slashes,
-- and without a scheme
pub data Spelling : Type 0 where
  whole insecure merged_slash no_slash bare : Spelling

abbrev pub spell : Spelling → Bytes → Bytes
spell whole s = codes "https://" ++ s
spell insecure s = codes "http://" ++ s
spell merged_slash s = codes "https:/" ++ s
spell no_slash s = codes "https:" ++ s
spell bare s = s

abbrev pub scheme_of : Spelling → Bytes
scheme_of insecure = codes "http"
scheme_of other = codes "https"

pub host-visible : (h : Host) → all is_visible (host_text h) ≡ true
host-visible github = refl
host-visible www = refl
host-visible raw_content = refl
host-visible raw_old = refl
host-visible gist_page = refl
host-visible gist_content = refl

pub spell-visible :
    (sp : Spelling) (s : Bytes) → all is_visible s ≡ true → all is_visible (spell sp s) ≡ true
spell-visible whole s h = all-append is_visible (codes "https://") s refl h
spell-visible insecure s h = all-append is_visible (codes "http://") s refl h
spell-visible merged_slash s h = all-append is_visible (codes "https:/") s refl h
spell-visible no_slash s h = all-append is_visible (codes "https:") s refl h
spell-visible bare s h = h

-- The parsed URL
abbrev pub plain_url : Bytes → Bytes → Bytes → Url
plain_url scheme host path = record empty_url { scheme = scheme; host = host; path = path }

-- A path: a slash and more
abbrev pub rooted : Bytes → Bytes
rooted s = b'/' ∷ s

-- The whole URL that a spelling stands for
abbrev pub mended : Spelling → Host → Bytes → Bytes
mended sp h s = scheme_of sp ++ (codes "://" ++ (host_text h ++ rooted s))
