-- ===== src/Client/Prober/Tests.antt =====
-- A history of probes.
use chitanda.Base.{◌≡◌, none, some, [], ◌∷◌}
use chitanda.Client.Prober.{probe_failed, after}
use chitanda.Client.Prober.Laws.{fail_run, success_run, is_degraded, after-is_degraded}

after-is_degraded_example :
    ((after ((3000, none) ∷ (0, some probe_failed) ∷ (5, none) ∷ [])).consecutive_fails
      ≡ fail_run ((3000, none) ∷ (0, some probe_failed) ∷ (5, none) ∷ []))
    × ((after ((3000, none) ∷ (0, some probe_failed) ∷ (5, none) ∷ [])).consecutive_successes
        ≡ success_run ((3000, none) ∷ (0, some probe_failed) ∷ (5, none) ∷ []))
    × ((after ((3000, none) ∷ (0, some probe_failed) ∷ (5, none) ∷ [])).h2_degraded
        ≡ is_degraded ((3000, none) ∷ (0, some probe_failed) ∷ (5, none) ∷ []))
after-is_degraded_example =
    after-is_degraded ((3000, none) ∷ (0, some probe_failed) ∷ (5, none) ∷ [])
