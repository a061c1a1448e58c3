-- ===== src/GoLib/Base64.antt =====
-- `encoding/base64.StdEncoding.DecodeString`.
use gh_proxy.Base.{
  ℕ, ◌+◌, ◌-◌, ◌*◌, ◌/◌, ◌%◌, ◌||◌, ◌&&◌, Option, none, some, [], ◌∷◌, ◌==◌, within, if◌then◌else◌,
  ◌>>=◌, Bytes, codes, ◌≡◌, refl,
}

-- The value of a character of the alphabet.
sextet : ℕ → Option ℕ
sextet c =
    if within b'A' b'Z' c
    then some (c - b'A')
    else if within b'a' b'z' c
    then some (c - b'a' + 26)
    else if within b'0' b'9' c
    then some (c - b'0' + 52)
    else if c == b'+'
    then some 62
    else if c == b'/'
    then some 63
    else none

-- Line ends are skipped wherever they stand.
skip_newlines : Bytes → Bytes
skip_newlines [] = []
skip_newlines (c ∷ s) =
    let rest = skip_newlines s in if c == b'\r' || c == b'\n' then rest else c ∷ rest

-- The last quantum, with its padding.
last_quantum : ℕ → ℕ → ℕ → ℕ → Option Bytes
unfolding sextet
last_quantum a b c d =
    if c == b'=' && d == b'='
    then (do x ← sextet a; y ← sextet b; some ((x * 4 + y / 16) ∷ []))
    else if d == b'='
    then (do
      x ← sextet a
      y ← sextet b
      z ← sextet c
      some ((x * 4 + y / 16) ∷ ((y % 16 * 16 + z / 4) ∷ [])))
    else (do
      x ← sextet a
      y ← sextet b
      z ← sextet c
      w ← sextet d
      some ((x * 4 + y / 16) ∷ ((y % 16 * 16 + z / 4) ∷ ((z % 4 * 64 + w) ∷ []))))

quanta : Bytes → Option Bytes
unfolding sextet last_quantum
quanta [] = some []
quanta (a ∷ b ∷ c ∷ d ∷ []) = last_quantum a b c d
quanta (a ∷ b ∷ c ∷ d ∷ (e ∷ s)) = do
  x ← sextet a
  y ← sextet b
  z ← sextet c
  w ← sextet d
  rest ← quanta (e ∷ s)
  some ((x * 4 + y / 16) ∷ ((y % 16 * 16 + z / 4) ∷ ((z % 4 * 64 + w) ∷ rest)))
quanta _ = none

-- `none` for an error
unfoldable pub decode : Bytes → Option Bytes
unfolding skip_newlines quanta
decode s = quanta (skip_newlines s)

decode_example : decode (codes "eDp0b2tlbg==") ≡ some (codes "x:token")
unfolding decode
decode_example = refl
