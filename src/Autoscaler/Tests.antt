-- ===== src/Autoscaler/Tests.antt =====
-- A run of the autoscaler.
use chitanda.Base.{◌≤◌, ◌<◌, true, List, [], ◌∷◌, arith}
use chitanda.Autoscaler.{Config, h2, new, Step, grow, sweep, steps}
use chitanda.Autoscaler.Laws.{IsSpaced, steps-new}

abbrev settings : Config
settings = record {
  max_carriers = 3;
  scale_up_threshold = 0;
  scale_down_idle = 0;
  cooldown = 10;
  sweep_interval = 0;
}

abbrev run : List Step
run = grow 100 4 4 4 true 105 ∷ grow 110 9 4 5 true 111 ∷ grow 120 9 4 5 true 121 ∷ sweep true ∷ []

one_carrier : 1 ≤ (new settings).cfg.max_carriers
unfolding new
one_carrier = omega arith

steps-new_example :
    let a = new settings in
    let p = steps h2 (record { autoscaler = a; carriers = 1; additions = [] }) run in
    (0 < a.cfg.max_carriers)
    × (a.cfg.max_carriers ≤ 16)
    × (0 < a.cfg.cooldown)
    × (p.carriers ≤ a.cfg.max_carriers)
    × IsSpaced a.cfg.cooldown p.additions
steps-new_example = steps-new settings h2 1 run one_carrier
