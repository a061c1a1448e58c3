-- ===== src/Main/Run.antt =====
-- cmd/gh-proxy/main.go: `main`, `serve`, and `run` behind the start of the listeners. What the
-- operating system does (a listener that ends, a signal, the result of a shutdown) is left open: a
-- run is a sequence of steps.
pub mod Reach
pub mod Bound
pub mod Exit
mod Tests
use gh_proxy.Base.{
  ℕ, suc, ◌+◌, ◌-◌, ◌≤◌, length, leb, ◌≡◌, Bool, true, false, not, ◌&&◌, ◌||◌, Option, none, some,
  List, [], ◌∷◌, ◌++◌, if◌then◌else◌, ◌==◌, Bytes, codes, same, is_empty, ℤ, pos, negsuc,
}
use mathlib.Core.Option
use gh_proxy.GoLib.Strings.{Unicode, to_upper}
use gh_proxy.GoLib.Strconv.{parse_int}
use gh_proxy.Ghurl.Rule.{rules_string}
use gh_proxy.Config.{Config, status_auth_none}
use gh_proxy.Config.Normalize.{Refusal, set_to, refused}
use gh_proxy.Config.Env.{Environment}
use gh_proxy.Config.Load
use gh_proxy.Config.Load.{seconds}
use gh_proxy.Ghcli.{Gh, System, Trouble}
use gh_proxy.Proxy
use gh_proxy.Status.{Info, Build}
use gh_proxy.Main.{
  Linked, Credential, fixed, sourced, unavailable, build_info, status_info, upstream_credential,
  proxy_options,
}
use gh_proxy.Main.Admin.{Health, healthy}
use gh_proxy.Main.Boot.{
  HttpServer, RunError, listener_error, shutdown_error, Boot, Started, gave_up, listening, start,
}

-- How `ListenAndServe` returns: behind a shutdown, or with another error
pub data Returned : Type 0 where
  server_closed : Returned
  broken : Bytes → Returned

-- `serve`: what it sends on the channel
unfoldable pub serve : HttpServer → Bytes → Returned → List RunError
serve s name server_closed = []
serve s name (broken e) = listener_error name s.addr e ∷ []

-- Where `run` stands once the listeners are started
pub data Phase : Type 0 where
  waiting : Phase
  shutting_down : Phase
  returned : Option RunError → Phase

-- `run`, its two goroutines, the channel of errors and the signal
pub record Process : Type 0 where
  pub public_runs : Bool
  pub admin_runs : Bool
  pub errors : List RunError
  pub signalled : Bool
  pub phase : Phase

abbrev pub initial : Process
initial = record {
  public_runs = true;
  admin_runs = true;
  errors = [];
  signalled = false;
  phase = waiting;
}

-- `make(chan error, 2)`
abbrev pub error_capacity : ℕ
error_capacity = 2

-- One step: a listener ends and its goroutine sends, which a full channel holds up; the signal comes;
-- `select` takes either; or the shutdown ends.
pub data Step (b : Boot) (p : Process) : Process → Type 0 where
  public_ends :
      (r : Returned)
      → p.public_runs ≡ true
      → length (p.errors ++ serve b.public (codes "public") r) ≤ error_capacity
      → Step b p
          (record p { public_runs = false; errors = p.errors ++ serve b.public (codes "public") r })
  admin_ends :
      (r : Returned)
      → p.admin_runs ≡ true
      → length (p.errors ++ serve b.admin (codes "admin") r) ≤ error_capacity
      → Step b p
          (record p { admin_runs = false; errors = p.errors ++ serve b.admin (codes "admin") r })
  signal : p.signalled ≡ false → Step b p (record p { signalled = true })
  take_error :
      (e : RunError) (es : List RunError)
      → p.phase ≡ waiting
      → p.errors ≡ e ∷ es
      → Step b p (record p { errors = es; phase = returned (some e) })
  take_signal :
      p.phase ≡ waiting → p.signalled ≡ true → Step b p (record p { phase = shutting_down })
  shutdown :
      (e : Option Bytes)
      → p.phase ≡ shutting_down
      → Step b p (record p { phase = returned (Option.map shutdown_error e) })

-- Some number of steps
pub data Steps (b : Boot) : ℕ → Process → Process → Type 0 where
  here : {p : Process} → Steps b 0 p p
  and_then : {n : ℕ} {p q r : Process} → Step b p q → Steps b n q r → Steps b (suc n) p r

-- The arguments ask for the health check.
abbrev pub is_healthcheck : List Bytes → Bool
is_healthcheck (program ∷ (command ∷ rest)) = same command (codes "healthcheck")
is_healthcheck args = false

-- The exit code of `main`, from the arguments, the health check and what `run` returns
unfoldable pub main : List Bytes → Health → Option RunError → ℕ
unfolding same
main args probed result =
    if is_healthcheck args
    then elim probed [ healthy ↦ 0 | _ ↦ 1 ]
    else elim result [ none ↦ 0 | some e ↦ 1 ]

-- `run`, with what it returns
pub data Ran ⦃c : Unicode⦄ ⦃e : Environment⦄ (sys : System) (linked : Linked) (gh : Gh)
    : Option RunError → Type 0 where
  never_listened : {x : RunError} → start sys linked gh ≡ gave_up x → Ran sys linked gh (some x)
  listened :
      {b : Boot} {n : ℕ} {p : Process} {r : Option RunError}
      → start sys linked gh ≡ listening b
      → Steps b n initial p
      → p.phase ≡ returned r
      → Ran sys linked gh r
