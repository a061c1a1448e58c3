-- ===== src/Main/Run/Bound.antt =====
-- cmd/gh-proxy/main.go: `run` comes to an end once a listener fails or a signal comes.
use gh_proxy.Base.{
  ℕ, ◌+◌, ◌*◌, ◌≤◌, ◌<◌, arith, Bool, true, false, not, Option, none, ◌≡◌, ◌≢◌, ◌⊎◌, inl, inr, refl,
  ap, ◌∙◌, [], ◌++◌, codes, length, length-append, Bool-cases, List-cases,
}
use gh_proxy.Main.Boot.{Boot, RunError}
use gh_proxy.Main.Run.{
  Returned, server_closed, error_capacity, serve, Phase, waiting, shutting_down, returned, Process,
  initial, Step, public_ends, admin_ends, signal, take_error, take_signal, shutdown, Steps, here,
  and_then,
}
use gh_proxy.Main.Run.Reach.{Sound, running, initial-Sound, length-serve, Steps-Sound}

abbrev to_go : Phase → ℕ
to_go waiting = 2
to_go shutting_down = 1
to_go (returned r) = 0

-- What is still to come: each listener ends once, each error is taken once, and the signal counts
-- once.
abbrev measure : Process → ℕ
measure p =
    2 * running p.public_runs
    + 2 * running p.admin_runs
    + length p.errors
    + running (not p.signalled)
    + to_go p.phase

Step-measure : {b : Boot} {p q : Process} → Step b p q → measure q < measure p
Step-measure {b} {p} (public_ends r up fits) =
    let more = length-append p.errors (serve b.public (codes "public") r) in
    let one = length-serve b.public (codes "public") r in rw up (omega (arith, more, one))
Step-measure {b} {p} (admin_ends r up fits) =
    let more = length-append p.errors (serve b.admin (codes "admin") r) in
    let one = length-serve b.admin (codes "admin") r in rw up (omega (arith, more, one))
Step-measure (signal off) = rw off (omega arith)
Step-measure (take_error e es waits first) = rw (waits, first) (omega arith)
Step-measure (take_signal waits on) = rw waits (omega arith)
Step-measure (shutdown e stops) = rw stops (omega arith)

Steps-measure : {b : Boot} {n : ℕ} {p q : Process} → Steps b n p q → n + measure q ≤ measure p
Steps-measure here = omega arith
Steps-measure (and_then step rest) =
    let first = Step-measure step in let others = Steps-measure rest in omega (arith, first, others)

-- Nothing can happen any more but for a signal that has not come.
abbrev pub IsResting : Boot → Process → Type 0
IsResting b p = (q : Process) → Step b p q → (p.signalled ≡ false) × (q.signalled ≡ true)

-- `run` waits, for nothing that has happened: no error is in the channel, no signal has come, and the
-- listeners have ended.
pub record Waits (p : Process) : Type 0 where
  pub phase : p.phase ≡ waiting
  pub quiet : p.errors ≡ []
  pub unsignalled : p.signalled ≡ false
  pub ended : (p.public_runs ≡ false) × (p.admin_runs ≡ false)

clash : {x : Bool} → x ≡ true → x ≡ false → ⊥
clash e f = cc

-- A step that moves no signal does not happen at rest.
stays : {b : Boot} {p q : Process} → IsResting b p → q.signalled ≡ p.signalled → Step b p q → ⊥
stays {b} {p} {q} rests same_signal step =
    let (off, on) = rests q step in clash on (same_signal ∙ off)

public_fits :
    {b : Boot} {p : Process} (r : Returned)
    → Sound b p
    → p.public_runs ≡ true
    → length (p.errors ++ serve b.public (codes "public") r) ≤ error_capacity
public_fits {b} {p} r s up =
    let room : length p.errors + 1 + running p.admin_runs ≤ error_capacity = rw up at s.room in
    omega (
      arith,
      room,
      length-append p.errors (serve b.public (codes "public") r),
      length-serve b.public (codes "public") r,
    )

admin_fits :
    {b : Boot} {p : Process} (r : Returned)
    → Sound b p
    → p.admin_runs ≡ true
    → length (p.errors ++ serve b.admin (codes "admin") r) ≤ error_capacity
admin_fits {b} {p} r s up =
    let room : length p.errors + running p.public_runs + 1 ≤ error_capacity = rw up at s.room in
    omega (
      arith,
      room,
      length-append p.errors (serve b.admin (codes "admin") r),
      length-serve b.admin (codes "admin") r,
    )

-- A process at rest has returned or waits.
IsResting-cases :
    (b : Boot) (p : Process)
    → Sound b p
    → IsResting b p
    → ((r : Option RunError) × (p.phase ≡ returned r)) ⊎ Waits p
IsResting-cases b p s rests = go p.phase refl
  where
    no_error : p.phase ≡ waiting → p.errors ≡ []
    no_error e = elim (List-cases p.errors) [
      | inl f ↦ f
      | inr (x, xs, f) ↦ absurd (stays rests refl (take_error x xs e f))
    ]

    public_over : p.public_runs ≡ false
    public_over = elim (Bool-cases p.public_runs) [
      | inr f ↦ f
      | inl f ↦ absurd (stays rests refl (public_ends server_closed f (public_fits _ s f)))
    ]

    admin_over : p.admin_runs ≡ false
    admin_over = elim (Bool-cases p.admin_runs) [
      | inr f ↦ f
      | inl f ↦ absurd (stays rests refl (admin_ends server_closed f (admin_fits _ s f)))
    ]

    no_signal : p.phase ≡ waiting → p.signalled ≡ false
    no_signal e = elim (Bool-cases p.signalled) [
      | inr f ↦ f
      | inl f ↦ absurd (stays rests refl (take_signal e f))
    ]

    go : (f : Phase) → p.phase ≡ f → ((r : Option RunError) × (p.phase ≡ returned r)) ⊎ Waits p
    go (returned r) e = inl (r, e)
    go shutting_down e = absurd (stays rests refl (shutdown none e))
    go waiting e = inr (record {
      phase = e;
      quiet = no_error e;
      unsignalled = no_signal e;
      ended = (public_over, admin_over);
    })

-- `run` will not wait for ever: an error is in the channel, or a signal has come, or it waits no more.
Roused : Process → Type 0
Roused p = (1 ≤ length p.errors) ⊎ ((p.signalled ≡ true) ⊎ (p.phase ≢ waiting))

Step-Roused : {b : Boot} {p q : Process} → Step b p q → Roused p → Roused q
unfolding Roused
Step-Roused {b} {p} (public_ends r up fits) h = elim h [
  | inl e ↦
      let more = length-append p.errors (serve b.public (codes "public") r) in
      inl (omega (arith, e, more))
  | inr k ↦ inr k
]
Step-Roused {b} {p} (admin_ends r up fits) h = elim h [
  | inl e ↦
      let more = length-append p.errors (serve b.admin (codes "admin") r) in
      inl (omega (arith, e, more))
  | inr k ↦ inr k
]
Step-Roused (signal off) h = inr (inl refl)
Step-Roused (take_error e es waits first) h = inr (inr (λ k. cc))
Step-Roused (take_signal waits on) h = inr (inr (λ k. cc))
Step-Roused (shutdown e stops) h = inr (inr (λ k. cc))

Steps-Roused : {b : Boot} {n : ℕ} {p q : Process} → Steps b n p q → Roused p → Roused q
Steps-Roused here h = h
Steps-Roused (and_then step rest) h = Steps-Roused rest (Step-Roused step h)

Waits-Roused : {p : Process} → Waits p → Roused p → ⊥
unfolding Roused
Waits-Roused w (inl e) = absurd (omega (arith, ap length w.quiet, e))
Waits-Roused w (inr (inl e)) = clash e w.unsignalled
Waits-Roused w (inr (inr k)) = k w.phase

-- How a run of `n` steps may go on
pub record Ends (b : Boot) (n : ℕ) (p : Process) : Type 0 where
  pub short : n ≤ 7
  pub sound : Sound b p
  pub public_sends :
      (r : Returned)
      → p.public_runs ≡ true
      → Step b p
          (record p { public_runs = false; errors = p.errors ++ serve b.public (codes "public") r })
  pub admin_sends :
      (r : Returned)
      → p.admin_runs ≡ true
      → Step b p
          (record p { admin_runs = false; errors = p.errors ++ serve b.admin (codes "admin") r })
  pub rests : IsResting b p → ((r : Option RunError) × (p.phase ≡ returned r)) ⊎ Waits p
  pub heard :
      {m : ℕ} {q : Process}
      → (1 ≤ length p.errors) ⊎ (p.signalled ≡ true)
      → Steps b m p q
      → IsResting b q
      → (r : Option RunError) × (q.phase ≡ returned r)

-- From the start of the listeners seven steps happen at most, in whatever order. The channel, of two
-- places, holds up no send. Where nothing can happen but for a signal, `run` has returned, or it
-- waits and nothing has come to it; and once an error is in the channel or a signal has come, it can
-- only have returned. An error that it returns is one of a listener or, behind a signal, of the
-- shutdown, and a return without one follows a signal.
pub Steps-Ends : (b : Boot) (n : ℕ) (p : Process) → Steps b n initial p → Ends b n p
unfolding Roused
Steps-Ends b n p steps =
    let sound = Steps-Sound steps (initial-Sound b) in
    record {
      short = let bound = Steps-measure steps in omega (arith, bound);
      sound = sound;
      public_sends = λ r up. public_ends r up (public_fits r sound up);
      admin_sends = λ r up. admin_ends r up (admin_fits r sound up);
      rests = IsResting-cases b p sound;
      heard = λ {m} {q} came more resting.
          let roused : Roused p = elim came [ inl e ↦ inl e | inr e ↦ inr (inl e) ] in
          elim (IsResting-cases b q (Steps-Sound more sound) resting) [
            | inl done ↦ done
            | inr waits ↦ absurd (Waits-Roused waits (Steps-Roused more roused))
          ];
    }
