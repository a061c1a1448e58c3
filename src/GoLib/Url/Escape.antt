-- ===== src/GoLib/Url/Escape.antt =====
-- Go's `net/url` (1.23): percent-encoding of the parts of a URL.
use gh_proxy.Base.{
  ℕ, ◌+◌, ◌-◌, ◌*◌, ◌/◌, ◌%◌, Bool, true, false, not, ◌&&◌, ◌||◌, Option, none, some, [], ◌∷◌, ltb,
  ◌==◌, within, if◌then◌else◌, Bytes, codes, all,
}
use mathlib.Core.Option
use gh_proxy.GoLib.Strings.{contains_byte}

pub data Mode : Type 0 where
  encode_path encode_path_segment encode_host encode_zone : Mode
  encode_user_password encode_fragment : Mode

abbrev is_alnum : ℕ → Bool
is_alnum c = within b'a' b'z' c || within b'A' b'Z' c || within b'0' b'9' c

-- The reserved characters that a mode escapes.
reserved_escaped : Mode → ℕ → Bool
reserved_escaped encode_path c = c == b'?'
reserved_escaped encode_path_segment c = contains_byte c (codes "/;,?")
reserved_escaped encode_user_password c = contains_byte c (codes "@/?:")
reserved_escaped encode_fragment c = false
reserved_escaped _ c = true

abbrev is_host_mode : Mode → Bool
is_host_mode encode_host = true
is_host_mode encode_zone = true
is_host_mode _ = false

abbrev is_fragment_mode : Mode → Bool
is_fragment_mode encode_fragment = true
is_fragment_mode _ = false

-- `shouldEscape`
unfoldable pub should_escape : Mode → ℕ → Bool
unfolding reserved_escaped
should_escape m c =
    if is_alnum c
    then false
    else if is_host_mode m && contains_byte c (codes "!$&'()*+,;=:[]<>\"")
    then false
    else if contains_byte c (codes "-_.~")
    then false
    else if contains_byte c (codes "$&+,/:;=?@")
    then reserved_escaped m c
    else not (is_fragment_mode m && contains_byte c (codes "!()*"))

-- `unhex`, with `none` for what `ishex` refuses
unfoldable pub unhex : ℕ → Option ℕ
unhex c =
    if within b'0' b'9' c
    then some (c - b'0')
    else if within b'a' b'f' c
    then some (c - b'a' + 10)
    else if within b'A' b'F' c
    then some (c - b'A' + 10)
    else none

-- The checks on one escape `%xy` of value `v`.
escape_allowed : Mode → ℕ → Bool
unfolding should_escape
escape_allowed encode_host v = not (ltb v 128) || v == b'%'
escape_allowed encode_zone v = v == b'%' || v == b' ' || not (should_escape encode_host v)
escape_allowed _ v = true

-- The checks on one byte that is not escaped.
byte_allowed : Mode → ℕ → Bool
unfolding should_escape
byte_allowed m c = not (is_host_mode m && (ltb c 128 && should_escape m c))

-- `unescape`, with `none` for an error
unfoldable pub unescape : Mode → Bytes → Option Bytes
unfolding unhex escape_allowed byte_allowed
unescape m [] = some []
unescape m (c ∷ []) = if c == b'%' then none else if byte_allowed m c then some (c ∷ []) else none
unescape m (c ∷ x ∷ []) =
    let rest = unescape m (x ∷ []) in
    if c == b'%' then none else if byte_allowed m c then Option.map (λ r. c ∷ r) rest else none
unescape m (c ∷ x ∷ y ∷ s) =
    let escaped = unescape m s in
    let plain = unescape m (x ∷ y ∷ s) in
    if c == b'%'
    then elim (unhex x) [
      | none ↦ none
      | some h ↦ elim (unhex y) [
        | none ↦ none
        | some l ↦
            let v = h * 16 + l in
            if escape_allowed m v then Option.map (λ r. v ∷ r) escaped else none
      ]
    ]
    else if byte_allowed m c
    then Option.map (λ r. c ∷ r) plain
    else none

-- A digit of `upperhex`
abbrev hex_digit : ℕ → ℕ
hex_digit n = if ltb n 10 then b'0' + n else b'A' + (n - 10)

-- `escape` for a mode that leaves the space to `%20`
unfoldable pub escape : Mode → Bytes → Bytes
unfolding should_escape
escape m [] = []
escape m (c ∷ s) =
    let rest = escape m s in
    if should_escape m c then b'%' ∷ hex_digit (c / 16) ∷ hex_digit (c % 16) ∷ rest else c ∷ rest

-- `validEncoded`
unfoldable pub valid_encoded : Mode → Bytes → Bool
unfolding should_escape
valid_encoded m = all (λ c. contains_byte c (codes "!$&'()*+,;=:@[]%") || not (should_escape m c))
