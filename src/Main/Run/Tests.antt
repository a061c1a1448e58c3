-- ===== src/Main/Run/Tests.antt =====
-- Runs of `main` and `run`, and their properties at a concrete start.
use gh_proxy.Base.{
  arith, Option, true, false, none, some, [], ◌∷◌, ◌≡◌, ◌⊎◌, refl, codes, pos, negsuc,
}
use gh_proxy.GoLib.Ascii.{plain}
use gh_proxy.Config.Sample.{environment, loaded}
use gh_proxy.Config.Load
use gh_proxy.Ghcli.Sample.{bare_system, file_only}
use gh_proxy.Main.{Linked, fixed, upstream_credential}
use gh_proxy.Main.Admin.{healthy, unreachable}
use gh_proxy.Main.Boot.{RunError, listener_error, Boot, listening, log_level, boot, start}
use gh_proxy.Main.Run.{
  broken, Process, initial, returned, public_ends, signal, take_error, take_signal, shutdown, Steps,
  here, and_then, serve, main, Ran, listened,
}
use gh_proxy.Main.Run.Bound.{Ends, Steps-Ends}
use gh_proxy.Main.Run.Exit.{Finished, Broken, Ran-exit}

abbrev linked : Linked
linked = record {
  version = codes "v1";
  commit = [];
  branch = [];
  build_time = [];
  build_number = [];
  repo = codes "prettyleaf/gh-proxy";
}

level_tests :
    (log_level (codes "debug") ≡ negsuc 3)
    × (log_level (codes "Warn") ≡ pos 4)
    × (log_level (codes "info-6") ≡ negsuc 5)
    × (log_level (codes "debug+5") ≡ pos 1)
    × (log_level (codes "verbose") ≡ pos 0)
    × (log_level (codes "warn+x") ≡ pos 0)
unfolding log_level
level_tests = (refl, refl, refl, refl, refl, refl)

abbrev booted : Boot
booted = boot linked loaded fixed

main_tests :
    (main (codes "gh-proxy" ∷ (codes "healthcheck" ∷ [])) unreachable none ≡ 1)
    × (main (codes "gh-proxy" ∷ []) unreachable none ≡ 0)
    × (booted.public.addr ≡ codes "0.0.0.0:8899")
unfolding main boot
main_tests = (refl, refl, refl)

-- A signal, and a shutdown without an error
abbrev stopped : Process
stopped = record initial { signalled = true; phase = returned none }

interrupted : Steps booted 3 initial stopped
interrupted =
    and_then (signal refl) (and_then (take_signal refl refl) (and_then (shutdown none refl) here))

-- The public listener cannot listen.
in_use : RunError
in_use = listener_error (codes "public") booted.public.addr (codes "address already in use")

abbrev failed : Process
failed = record initial { public_runs = false; phase = returned (some in_use) }

unlucky : Steps booted 2 initial failed
unfolding serve in_use
unlucky =
    and_then (public_ends (broken (codes "address already in use")) refl (omega arith))
      (and_then (take_error in_use [] refl refl) here)

started : start bare_system linked file_only ≡ listening booted
unfolding start Load.load upstream_credential
started = refl

Steps-Ends_example : Ends booted 2 failed
Steps-Ends_example = Steps-Ends booted 2 failed unlucky

abbrev no_error : Option RunError
no_error = none

abbrev interrupted_run : Ran bare_system linked file_only no_error
interrupted_run = listened started interrupted refl

Ran-exit_example :
    ((main (codes "gh-proxy" ∷ []) healthy no_error ≡ 0)
      × (no_error ≡ none)
      × Finished bare_system linked file_only interrupted_run)
    ⊎ ((main (codes "gh-proxy" ∷ []) healthy no_error ≡ 1)
        × ((x : RunError) × (no_error ≡ some x)
            × Broken bare_system linked file_only interrupted_run x))
Ran-exit_example =
    Ran-exit bare_system linked file_only (codes "gh-proxy" ∷ []) healthy no_error refl
      interrupted_run
