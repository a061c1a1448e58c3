-- ===== src/GoLib/Strconv.antt =====
-- `strconv`: numbers and Booleans read from text.
use gh_proxy.Base.{
  ◌<◌, ◌≤◌, ◌≡◌, refl, arith, Bool-cases, inl, inr, ℕ, zero, suc, ◌+◌, ◌-◌, ◌*◌, ◌/◌, ◌%◌, ◌^◌,
  Bool, true, false, Option, none, some, List, [], ◌∷◌, ltb, leb, ◌==◌, within, if◌then◌else◌,
  Bytes, codes, any, same, is_empty, ℤ, pos, negsuc,
}

abbrev pub i63 : ℕ
i63 = 2 ^ 63

-- The value of decimal digits behind `n`; `none` at any other byte.
unfoldable pub digits : ℕ → Bytes → Option ℕ
digits n [] = some n
digits n (c ∷ s) =
    let rest = digits (10 * n + (c - b'0')) s in if within b'0' b'9' c then rest else none

-- `ParseUint` in base 10 on a text without a sign, with no bound yet
unfoldable pub natural : Bytes → Option ℕ
unfolding digits
natural s = if is_empty s then none else digits 0 s

abbrev pub up_to : ℕ → Option ℕ → (ℕ → ℤ) → Option ℤ
up_to limit none f = none
up_to limit (some n) f = if leb n limit then some (f n) else none

abbrev pub negative : ℕ → ℤ
negative zero = pos 0
negative (suc n) = negsuc n

-- `ParseInt(s, 10, 64)`, with `none` for an error; `Atoi` is the same where int has 64 bits.
unfoldable pub parse_int : Bytes → Option ℤ
unfolding natural
parse_int [] = none
parse_int (c ∷ s) =
    if c == b'-'
    then up_to i63 (natural s) negative
    else up_to (i63 - 1) (natural (if c == b'+' then s else c ∷ s)) pos

abbrev pub one_of : List Bytes → Bytes → Bool
one_of words s = any (λ w. same w s) words

-- `ParseBool`, with `none` for an error
unfoldable pub parse_bool : Bytes → Option Bool
unfolding same
parse_bool s =
    if one_of
      (codes "1"
        ∷ (codes "t" ∷ (codes "T" ∷ (codes "true" ∷ (codes "TRUE" ∷ (codes "True" ∷ []))))))
      s
    then some true
    else if one_of
        (codes "0"
          ∷ (codes "f" ∷ (codes "F" ∷ (codes "false" ∷ (codes "FALSE" ∷ (codes "False" ∷ []))))))
        s
    then some false
    else none

-- The digits of `n` in front of a text; `fuel` bounds their number, and `n` is enough of it.
unfoldable pub decimal_loop : ℕ → ℕ → Bytes → Bytes
decimal_loop zero n text = text
decimal_loop (suc fuel) n text =
    let longer = (b'0' + n % 10) ∷ text in
    let rest = decimal_loop fuel (n / 10) longer in if ltb n 10 then longer else rest

-- `Itoa` and `%d` of a number that is not negative
unfoldable pub decimal : ℕ → Bytes
unfolding decimal_loop
decimal n = decimal_loop (suc n) n []

-- More fuel than the number changes nothing.
pub decimal_loop-enough :
    (f g n : ℕ) (text : Bytes) → n < f → n < g → decimal_loop f n text ≡ decimal_loop g n text
unfolding decimal_loop
decimal_loop-enough zero g n text h k = absurd (omega (arith, h))
decimal_loop-enough (suc f) zero n text h k = absurd (omega (arith, k))
decimal_loop-enough (suc f) (suc g) n text h k = elim (Bool-cases (ltb n 10)) [
  | inl e ↦ rw e refl
  | inr e ↦
      let big : 10 ≤ n = ground (arith, e) in
      rw e (
        decimal_loop-enough f g (n / 10) ((b'0' + n % 10) ∷ text) (omega (arith, h, big))
          (omega (arith, k, big)))
]
