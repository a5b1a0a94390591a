-- ===== src/Simulator/Bootstrap/Outcome.antt =====
-- simulator/simulator-bootstrap.service.ts: how a start of the service ends.
use pl_backend_sdk_demo.Prelude.{
  ◌≡◌, refl, List, [], ◌∷◌, ◌++◌, Text, thrown_text, Result, ok, thrown, on_throw,
}
use pl_backend_sdk_demo.Money.{Floats}
use pl_backend_sdk_demo.Simulator.Bootstrap.{
  BootstrapPorts, Boot, run_simulator_bootstrap, log_error, mark_failed, failed, start,
}

module _ (floats : Floats) {W : Type 0} (ports : BootstrapPorts floats.Float W) where
  -- The state after a start, by what the bootstrap itself came to.
  abbrev pub Ended : Result (Unit {0}) × W → Boot W → Boot W → Type 0
  Ended (ok _, w) before after = (after.world ≡ w) × (after.errors ≡ before.errors)
  Ended (thrown e, w) before after =
      (after.world ≡ (mark_failed floats ports (thrown_text e) w).1)
      × ((more : List Text) × (after.errors ≡ more ++ thrown_text e ∷ before.errors))

  abbrev recover : Result (Unit {0}) × Boot W → Result (Unit {0}) × Boot W
  recover = on_throw (λ x. log_error floats ports (thrown_text x))

  recovered :
      (r : Result (Unit {0})) (w : W) (l : List Text)
      → ((recover (r, record { world = w; errors = l })).0 ≡ ok tt)
        × ((recover (r, record { world = w; errors = l })).1.world ≡ w)
        × ((more : List Text) × ((recover (r, record { world = w; errors = l })).1.errors
              ≡ more ++ l))
  recovered (ok _) w l = (refl, refl, ([], refl))
  recovered (thrown x) w l = (refl, refl, (thrown_text x ∷ [], refl))

  abbrev end_of : Result (Unit {0}) × W → Boot W → Result (Unit {0}) × Boot W
  end_of r s = on_throw (failed floats ports) (r.0, record s { world = r.1 })

  ended :
      (r : Result (Unit {0}) × W) (s : Boot W) → ((end_of r s).0 ≡ ok tt) × Ended r s (end_of r s).1
  ended (ok _, w) s = (refl, (refl, refl))
  ended (thrown e, w) s =
      let after = mark_failed floats ports (thrown_text e) w in
      let (done, same, logged) = recovered after.0 after.1 (thrown_text e ∷ s.errors) in
      (done, (same, logged))

  -- A start of the service never throws. Where the bootstrap returns, nothing is logged as an error and
  -- the world is what it left; where it throws, its message is logged, and the world is what marking
  -- the failure leaves, whether or not that throws in turn.
  pub start-Ended :
      (s : Boot W)
      → ((start floats ports s).0 ≡ ok tt)
        × Ended (run_simulator_bootstrap floats ports s.world) s (start floats ports s).1
  unfolding start
  start-Ended s = ended (run_simulator_bootstrap floats ports s.world) s
