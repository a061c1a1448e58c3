-- ===== src/Server/Writer.antt =====
-- internal/server/server.go: `countingWriter`, which observes what a handler sends. The writer it
-- wraps belongs to net/http and is an interface here.
use gh_proxy.Base.{
  ℕ, ◌+◌, ◌%◌, ◌^◌, ◌-◌, Bool, true, false, List, [], ◌∷◌, ◌≡◌, refl, ap, ◌∙◌, arith, ltb,
  if◌then◌else◌, Bytes, Bool-cases, inl, inr, ℤ, pos, negsuc,
}
use gh_proxy.Metrics.{u64, add64}

-- `http.ResponseWriter` as far as the wrapper calls it; `write` says how many bytes were taken
-- and whether that failed.
pub record ResponseWriter (W : Type 0) : Type 0 where
  pub send_header : W → ℕ → W
  pub send : W → Bytes → W × ℕ × Bool
  pub send_flush : W → W

-- `countingWriter`; `written` is an int64, as a bit pattern.
pub record CountingWriter (W : Type 0) : Type 0 where
  pub inner : W
  pub status : ℕ
  pub written : ℕ
  pub wrote : Bool

-- The literal of `ServeHTTP`
abbrev pub counting : {W : Type 0} → W → CountingWriter W
counting w = record { inner = w; status = 200; written = 0; wrote = false }

-- The reading of an int64
unfoldable pub int64 : ℕ → ℤ
int64 n = if ltb n (2 ^ 63) then pos n else negsuc (u64 - 1 - n)

-- A call that a handler makes.
pub data Call : Type 0 where
  header : ℕ → Call
  body : Bytes → Call
  flushed : Call

module _ {W : Type 0} ⦃i : ResponseWriter W⦄ where
  -- `WriteHeader`
  unfoldable pub write_header : CountingWriter W → ℕ → CountingWriter W
  write_header c code =
      let seen = if c.wrote then c else record c { status = code; wrote = true } in
      record seen { inner = i.send_header c.inner code }

  -- `Write`
  unfoldable pub write : CountingWriter W → Bytes → CountingWriter W × ℕ × Bool
  write c b =
      let (w, n, err) = i.send c.inner b in
      (record c { inner = w; wrote = true; written = add64 c.written n }, n, err)

  -- `Flush`
  unfoldable pub flush : CountingWriter W → CountingWriter W
  flush c = record c { inner = i.send_flush c.inner }

  unfoldable pub perform : CountingWriter W → Call → CountingWriter W
  unfolding write_header write flush
  perform c (header code) = write_header c code
  perform c (body b) = (write c b).0
  perform c flushed = flush c

  unfoldable pub perform_all : CountingWriter W → List Call → CountingWriter W
  unfolding perform
  perform_all c [] = c
  perform_all c (x ∷ xs) = perform_all (perform c x) xs

  -- The wrapped writer alone: where it ends, and the bytes that it took.
  unfoldable pub pass_on : W → Call → W × ℕ
  pass_on w (header code) = (i.send_header w code, 0)
  pass_on w (body b) = let (w', n, err) = i.send w b in (w', n)
  pass_on w flushed = (i.send_flush w, 0)

  unfoldable pub pass_all : W → List Call → W × ℕ
  unfolding pass_on
  pass_all w [] = (w, 0)
  pass_all w (x ∷ xs) = let (w1, n) = pass_on w x in let (w2, k) = pass_all w1 xs in (w2, n + k)

-- The status of the response under net/http's rules: the first header that is not informational,
-- and 200 where a body or a flush comes before one.
unfoldable pub sent : List Call → ℕ
sent [] = 200
sent (header code ∷ xs) = let rest = sent xs in if ltb code 200 then rest else code
sent (body b ∷ xs) = 200
sent (flushed ∷ xs) = 200

-- No informational header and no flush comes first.
abbrev pub Opens : List Call → Type 0
Opens [] = Unit
Opens (header code ∷ xs) = ltb code 200 ≡ false
Opens (body b ∷ xs) = Unit
Opens (flushed ∷ xs) = ⊥

module _ {W : Type 0} ⦃i : ResponseWriter W⦄ where
  header-locked :
      (c : CountingWriter W) (code : ℕ)
      → c.wrote ≡ true
      → ((write_header c code).wrote ≡ true) × ((write_header c code).status ≡ c.status)
  unfolding write_header
  header-locked c code h = rw h (refl, refl)

  status_locked :
      (xs : List Call) (c : CountingWriter W)
      → c.wrote ≡ true
      → (perform_all c xs).status ≡ c.status
  unfolding perform_all perform write flush
  status_locked [] c h = refl
  status_locked (header code ∷ xs) c h =
      let (wrote, kept) = header-locked c code h in status_locked xs _ wrote ∙ kept
  status_locked (body b ∷ xs) c h = status_locked xs _ refl
  status_locked (flushed ∷ xs) c h = status_locked xs _ h

  status-sent : (w : W) (xs : List Call) → Opens xs → (perform_all (counting w) xs).status ≡ sent xs
  unfolding perform_all perform write_header write sent
  status-sent w [] h = refl
  status-sent w (header code ∷ xs) h = status_locked xs _ refl ∙ ground arith
  status-sent w (body b ∷ xs) h = status_locked xs _ refl
  status-sent w (flushed ∷ xs) h = absurd h

  perform-pass_on :
      (x : Call) (c : CountingWriter W)
      → ((perform c x).inner ≡ (pass_on c.inner x).0)
        × ((perform c x).written % u64 ≡ (c.written + (pass_on c.inner x).1) % u64)
  unfolding perform pass_on write_header write flush
  perform-pass_on (header code) c = elim (Bool-cases c.wrote) [
    | inl e ↦ rw e (refl, omega arith)
    | inr e ↦ rw e (refl, omega arith)
  ]
  perform-pass_on (body b) c = (refl, omega arith)
  perform-pass_on flushed c = (refl, omega arith)

  inner-pass_all :
      (xs : List Call) (c : CountingWriter W)
      → ((perform_all c xs).inner ≡ (pass_all c.inner xs).0)
        × ((perform_all c xs).written % u64 ≡ (c.written + (pass_all c.inner xs).1) % u64)
  unfolding perform_all pass_all
  inner-pass_all [] c = (refl, omega arith)
  inner-pass_all (x ∷ xs) c =
      let (first_inner, first_written) = perform-pass_on x c in
      let (rest_inner, rest_written) = inner-pass_all xs (perform c x) in
      (
        rest_inner ∙ ap (λ v. (pass_all v xs).0) first_inner,
        omega (arith, rest_written, first_written, ap (λ v. (pass_all v xs).1) first_inner),
      )

  -- Whatever the wrapped writer does: it sees the calls unchanged, the bytes counted are those it
  -- took, up to 2^64, and the status seen is the one sent, where no informational header and no
  -- flush comes before the first header or body.
  pub perform_all_lem :
      (w : W) (xs : List Call)
      → Opens xs
      → ((perform_all (counting w) xs).inner ≡ (pass_all w xs).0)
        × ((perform_all (counting w) xs).written % u64 ≡ (pass_all w xs).1 % u64)
        × ((perform_all (counting w) xs).status ≡ sent xs)
  perform_all_lem w xs h =
      let (same_inner, same_written) = inner-pass_all xs (counting w) in
      (same_inner, omega (arith, same_written), status-sent w xs h)
