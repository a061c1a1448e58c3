-- ===== src/Main/Run/Exit.antt =====
-- cmd/gh-proxy/main.go: what the exit code of the program says.
use gh_proxy.Base.{false, Option, none, some, List, ◌≡◌, ◌⊎◌, inl, inr, refl, sym, ◌∙◌, true, Bytes}
use mathlib.Core.Path.{subst}
use gh_proxy.GoLib.Strings.{Unicode}
use gh_proxy.Config.Env.{Environment}
use gh_proxy.Ghcli.{Gh, System}
use gh_proxy.Main.{Linked}
use gh_proxy.Main.Admin.{Health}
use gh_proxy.Main.Boot.{RunError, shutdown_error, Boot, gave_up, listening, start}
use gh_proxy.Main.Run.{is_healthcheck, main, Ran, never_listened, listened}
use gh_proxy.Main.Boot.Start.{Up, GaveUp, start-Up}
use gh_proxy.Main.Run.Reach.{FromListener, initial-Sound, Steps-Sound}

module _ ⦃c : Unicode⦄ ⦃e : Environment⦄ (sys : System) (linked : Linked) (gh : Gh) where
  -- This run listened, and a signal ended it.
  abbrev pub Finished : {r : Option RunError} → Ran sys linked gh r → Type 0
  Finished (never_listened h) = ⊥
  Finished (listened {b} {n} {p} h steps done) = Up sys linked gh b × (p.signalled ≡ true)

  -- This run could not start, or one of its listeners failed, or its shutdown did behind a signal.
  abbrev pub Broken : {r : Option RunError} → Ran sys linked gh r → RunError → Type 0
  Broken (never_listened h) x = GaveUp sys linked gh x
  Broken (listened {b} {n} {p} h steps done) x =
      Up sys linked gh b
      × (FromListener b x ⊎ ((p.signalled ≡ true) × ((m : Bytes) × (x ≡ shutdown_error m))))

  gave_up_inj : {x y : RunError} → gave_up x ≡ gave_up y → x ≡ y
  gave_up_inj k = cc

  listening_inj : {b d : Boot} → listening b ≡ listening d → b ≡ d
  listening_inj k = cc

  differ : {x : RunError} {b : Boot} → gave_up x ≡ listening b → ⊥
  differ k = cc

  given_up : {x : RunError} → start sys linked gh ≡ gave_up x → GaveUp sys linked gh x
  given_up h = elim (start-Up sys linked gh) [
    | inl (y, k, why) ↦ subst (GaveUp sys linked gh) (gave_up_inj (sym k ∙ h)) why
    | inr (b, k, up) ↦ absurd (differ (sym h ∙ k))
  ]

  listening-Up : {b : Boot} → start sys linked gh ≡ listening b → Up sys linked gh b
  listening-Up h = elim (start-Up sys linked gh) [
    | inl (y, k, why) ↦ absurd (differ (sym k ∙ h))
    | inr (d, k, up) ↦ subst (Up sys linked gh) (listening_inj (sym k ∙ h)) up
  ]

  Ran-Finished : (ran : Ran sys linked gh none) → Finished ran
  Ran-Finished (listened {b} {n} {p} h steps done) =
      (listening-Up h, (Steps-Sound steps (initial-Sound b)).ended_well done)

  Ran-Broken : {x : RunError} (ran : Ran sys linked gh (some x)) → Broken ran x
  Ran-Broken (never_listened h) = given_up h
  Ran-Broken {x} (listened {b} {n} {p} h steps done) =
      (listening-Up h, (Steps-Sound steps (initial-Sound b)).ended_badly x done)

  -- The exit code is 0 exactly where `run` returns nothing, and then that run listened and a signal
  -- came to it; otherwise it is 1, and the error says what was broken in that run.
  pub Ran-exit :
      (args : List Bytes) (probed : Health) (r : Option RunError)
      → is_healthcheck args ≡ false
      → (ran : Ran sys linked gh r)
      → ((main args probed r ≡ 0) × (r ≡ none) × Finished ran)
        ⊎ ((main args probed r ≡ 1) × ((x : RunError) × (r ≡ some x) × Broken ran x))
  unfolding main
  Ran-exit args probed none runs ran = inl (rw (runs, main) refl, refl, Ran-Finished ran)
  Ran-exit args probed (some x) runs ran = inr (rw (runs, main) refl, (x, refl, Ran-Broken ran))
