-- ===== src/Main/Run/Reach.antt =====
-- cmd/gh-proxy/main.go: what holds of `run` at every time, in whatever order things happen.
use gh_proxy.Base.{
  ℕ, ◌+◌, ◌≤◌, arith, Bool, true, false, Option, none, some, ◌≡◌, ◌⊎◌, inl, inr, refl, sym, Bytes,
  codes, length, length-append, All, All-append,
}
use mathlib.Core.Option
use mathlib.Core.Path.{subst}
use gh_proxy.Main.Boot.{Boot, HttpServer, RunError, listener_error, shutdown_error}
use gh_proxy.Main.Run.{
  Returned, server_closed, broken, serve, waiting, shutting_down, returned, Process, initial,
  error_capacity, Step, public_ends, admin_ends, signal, take_error, take_signal, shutdown, Steps,
  here, and_then,
}

-- An error of one of the two listeners, under its name and address
abbrev pub FromListener : Boot → RunError → Type 0
FromListener b e =
    ((m : Bytes) × (e ≡ listener_error (codes "public") b.public.addr m))
    ⊎ ((m : Bytes) × (e ≡ listener_error (codes "admin") b.admin.addr m))

abbrev pub running : Bool → ℕ
running true = 1
running false = 0

-- The channel has room for whatever is still to come, and holds errors of the listeners alone. A
-- shutdown follows a signal. A return without an error does, too, and an error returned is one of a
-- listener or, behind a signal, of the shutdown.
pub record Sound (b : Boot) (p : Process) : Type 0 where
  pub room : length p.errors + running p.public_runs + running p.admin_runs ≤ error_capacity
  pub queued : All (FromListener b) p.errors
  pub stopping : p.phase ≡ shutting_down → p.signalled ≡ true
  pub ended_well : p.phase ≡ returned none → p.signalled ≡ true
  pub ended_badly :
      (e : RunError)
      → p.phase ≡ returned (some e)
      → FromListener b e ⊎ ((p.signalled ≡ true) × ((m : Bytes) × (e ≡ shutdown_error m)))

waiting_stopping : waiting ≡ shutting_down → ⊥
waiting_stopping e = cc

pub initial-Sound : (b : Boot) → Sound b initial
initial-Sound b = record {
  room = omega arith;
  queued = tt;
  stopping = λ e. absurd (waiting_stopping e);
  ended_well = λ e. absurd cc;
  ended_badly = λ x e. absurd cc;
}

pub length-serve : (s : HttpServer) (name : Bytes) (r : Returned) → length (serve s name r) ≤ 1
unfolding serve
length-serve s name server_closed = omega arith
length-serve s name (broken e) = omega arith

serve-public : (b : Boot) (r : Returned) → All (FromListener b) (serve b.public (codes "public") r)
unfolding serve
serve-public b server_closed = tt
serve-public b (broken e) = (inl (e, refl), tt)

serve-admin : (b : Boot) (r : Returned) → All (FromListener b) (serve b.admin (codes "admin") r)
unfolding serve
serve-admin b server_closed = tt
serve-admin b (broken e) = (inr (e, refl), tt)

returned_inj : {e x : RunError} → returned (some e) ≡ returned (some x) → e ≡ x
returned_inj k = cc

shutdown_failed :
    (o : Option Bytes) (x : RunError)
    → returned (Option.map shutdown_error o) ≡ returned (some x)
    → (m : Bytes) × (x ≡ shutdown_error m)
shutdown_failed none x k = absurd cc
shutdown_failed (some m) x k = (m, sym (returned_inj k))

Step-Sound : {b : Boot} {p q : Process} → Step b p q → Sound b p → Sound b q
Step-Sound {b} {p} (public_ends r up fits) s = record {
  room =
      let more = length-append p.errors (serve b.public (codes "public") r) in
      let one = length-serve b.public (codes "public") r in
      let room : length p.errors + 1 + running p.admin_runs ≤ 2 = rw up at s.room in
      omega (arith, more, one, room);
  queued = All-append (FromListener b) p.errors _ s.queued (serve-public b r);
  stopping = s.stopping;
  ended_well = s.ended_well;
  ended_badly = s.ended_badly;
}
Step-Sound {b} {p} (admin_ends r up fits) s = record {
  room =
      let more = length-append p.errors (serve b.admin (codes "admin") r) in
      let one = length-serve b.admin (codes "admin") r in
      let room : length p.errors + running p.public_runs + 1 ≤ 2 = rw up at s.room in
      omega (arith, more, one, room);
  queued = All-append (FromListener b) p.errors _ s.queued (serve-admin b r);
  stopping = s.stopping;
  ended_well = s.ended_well;
  ended_badly = s.ended_badly;
}
Step-Sound (signal off) s = record {
  room = s.room;
  queued = s.queued;
  stopping = λ e. refl;
  ended_well = λ e. refl;
  ended_badly = λ x e. elim (s.ended_badly x e) [ inl f ↦ inl f | inr f ↦ inr (refl, f.1) ];
}
Step-Sound {b} (take_error e es waits first) s = record {
  room = let room = rw first at s.room in omega (arith, room);
  queued = (rw first at s.queued).1;
  stopping = λ k. absurd cc;
  ended_well = λ k. absurd cc;
  ended_badly = λ x k. inl (subst (FromListener b) (returned_inj k) (rw first at s.queued).0);
}
Step-Sound (take_signal waits on) s = record {
  room = s.room;
  queued = s.queued;
  stopping = λ k. on;
  ended_well = λ k. absurd cc;
  ended_badly = λ x k. absurd cc;
}
Step-Sound (shutdown e stops) s = record {
  room = s.room;
  queued = s.queued;
  stopping = λ k. absurd cc;
  ended_well = λ k. s.stopping stops;
  ended_badly = λ x k. inr (s.stopping stops, shutdown_failed e x k);
}

-- Whatever happens in whatever order, `run` is sound.
pub Steps-Sound : {b : Boot} {n : ℕ} {p q : Process} → Steps b n p q → Sound b p → Sound b q
Steps-Sound here s = s
Steps-Sound (and_then step rest) s = Steps-Sound rest (Step-Sound step s)
