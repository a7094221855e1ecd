-- ===== src/Autoscaler/Laws.antt =====
-- The pool stays within its limit, and additions keep the cooldown.
use chitanda.Base.{
  ltb, ℕ, ◌+◌, ◌-◌, ◌≤◌, ◌<◌, ◌≡◌, refl, sym, ap, ◌⊎◌, inl, inr, Bool, true, false, Option, none,
  some, List, [], ◌∷◌, arith,
}
use mathlib.Core.Path.{subst}
use chitanda.Autoscaler.{
  Config, Transport, h2, h3, PoolStats, Autoscaler, new, last_scale_up, scaled_up, is_cooling,
  try_scale_up, try_scale_down, Step, grow, sweep, Pool, grown, step, steps,
}

-- Each carrier was asked for a cooldown after the one before it was added.
pub IsSpaced : ℕ → List (ℕ × ℕ) → Type 0
IsSpaced cooldown [] = Unit
IsSpaced cooldown (x ∷ []) = Unit
IsSpaced cooldown (x ∷ y ∷ rest) = (y.1 + cooldown ≤ x.0) × IsSpaced cooldown (y ∷ rest)

abbrev pub last_added : List (ℕ × ℕ) → Option ℕ
last_added [] = none
last_added (x ∷ rest) = some x.1

pub record IsKept (transport : Transport) (cfg : Config) (p : Pool) : Type 0 where
  pub same_cfg : p.autoscaler.cfg ≡ cfg
  pub within : p.carriers ≤ cfg.max_carriers
  pub last : last_scale_up p.autoscaler transport ≡ last_added p.additions
  pub spaced : IsSpaced cfg.cooldown p.additions

try_scale_up-cases :
    (a : Autoscaler) (t : Transport) (now : ℕ) (stats : PoolStats) (added : Bool) (done : ℕ)
    → (try_scale_up a t now stats added done ≡ (a, false))
      ⊎ ((try_scale_up a t now stats added done ≡ (scaled_up a t done, true))
          × (is_cooling a t now ≡ false)
          × (stats.total_carriers < a.cfg.max_carriers))
unfolding try_scale_up
try_scale_up-cases a t now stats added done = ground arith

more-IsSpaced :
    (cooldown now done : ℕ) (additions : List (ℕ × ℕ))
    → 0 < cooldown
    → elim (last_added additions) as (λ x. Bool) [
      | none ↦ false
      | some last ↦ ltb (now - last) cooldown
    ]
      ≡ false
    → IsSpaced cooldown additions
    → IsSpaced cooldown ((now, done) ∷ additions)
unfolding IsSpaced
more-IsSpaced cooldown now done [] p c s = tt
more-IsSpaced cooldown now done (y ∷ rest) p c s = (ground arith, s)

-- The clock of the code and the list of additions tell the same cooldown.
cooled :
    (t : Transport) (cfg : Config) (p : Pool) (now : ℕ)
    → IsKept t cfg p
    → is_cooling p.autoscaler t now ≡ false
    → elim (last_added p.additions) as (λ x. Bool) [
      | none ↦ false
      | some last ↦ ltb (now - last) cfg.cooldown
    ]
      ≡ false
cooled t cfg p now k cool =
    subst
      (λ o.
        elim o as (λ x. Bool) [ none ↦ false | some last ↦ ltb (now - last) cfg.cooldown ] ≡ false)
      k.last
      (subst
        (λ (c : Config).
          elim (last_scale_up p.autoscaler t) as (λ x. Bool) [
            | none ↦ false
            | some last ↦ ltb (now - last) c.cooldown
          ]
          ≡ false)
        k.same_cfg cool)

grown-IsKept :
    (t : Transport) (cfg : Config) (p : Pool) (now done : ℕ)
    → 0 < cfg.cooldown
    → IsKept t cfg p
    → is_cooling p.autoscaler t now ≡ false
    → p.carriers < p.autoscaler.cfg.max_carriers
    → IsKept t cfg (grown p now done (scaled_up p.autoscaler t done, true))
grown-IsKept h2 cfg p now done c k cool free = record {
  same_cfg = k.same_cfg;
  within = omega (arith, ap (λ (x : Config). x.max_carriers) k.same_cfg, free);
  last = refl;
  spaced = more-IsSpaced cfg.cooldown now done p.additions c (cooled h2 cfg p now k cool) k.spaced;
}
grown-IsKept h3 cfg p now done c k cool free = record {
  same_cfg = k.same_cfg;
  within = omega (arith, ap (λ (x : Config). x.max_carriers) k.same_cfg, free);
  last = refl;
  spaced = more-IsSpaced cfg.cooldown now done p.additions c (cooled h3 cfg p now k cool) k.spaced;
}

swept :
    (t : Transport) (cfg : Config) (p : Pool)
    → IsKept t cfg p
    → IsKept t cfg (record p {
      autoscaler = record p.autoscaler { scale_down_count = p.autoscaler.scale_down_count + 1 };
      carriers = p.carriers - 1;
    })
swept h2 cfg p k = record {
  same_cfg = k.same_cfg;
  within = omega (arith, k.within);
  last = k.last;
  spaced = k.spaced;
}
swept h3 cfg p k = record {
  same_cfg = k.same_cfg;
  within = omega (arith, k.within);
  last = k.last;
  spaced = k.spaced;
}

step-IsKept :
    (t : Transport) (cfg : Config) (p : Pool) (s : Step)
    → 0 < cfg.cooldown
    → IsKept t cfg p
    → IsKept t cfg (step t p s)
unfolding step try_scale_down
step-IsKept t cfg p (grow now total least most added done) c k =
    let stats : PoolStats = record {
      total_carriers = p.carriers;
      total_active_streams = total;
      min_active_streams = least;
      max_active_streams = most;
    } in
    elim (try_scale_up-cases p.autoscaler t now stats added done) [
      | inl e ↦ subst (λ r. IsKept t cfg (grown p now done r)) (sym e) k
      | inr (e, cool, free) ↦
          subst (λ r. IsKept t cfg (grown p now done r)) (sym e)
            (grown-IsKept t cfg p now done c k cool free)
    ]
step-IsKept t cfg p (sweep true) c k = swept t cfg p k
step-IsKept t cfg p (sweep false) c k = k

steps-IsKept :
    (t : Transport) (cfg : Config) (p : Pool) (ss : List Step)
    → 0 < cfg.cooldown
    → IsKept t cfg p
    → IsKept t cfg (steps t p ss)
unfolding steps
steps-IsKept t cfg p [] c k = k
steps-IsKept t cfg p (s ∷ ss) c k = steps-IsKept t cfg (step t p s) ss c (step-IsKept t cfg p s c k)

new-bounds :
    (settings : Config)
    → (0 < (new settings).cfg.max_carriers)
      × ((new settings).cfg.max_carriers ≤ 16)
      × (0 < (new settings).cfg.cooldown)
unfolding new
new-bounds settings = ground arith

new-IsKept :
    (settings : Config) (t : Transport) (carriers : ℕ)
    → carriers ≤ (new settings).cfg.max_carriers
    → IsKept t
        (new settings).cfg
        (record { autoscaler = new settings; carriers = carriers; additions = [] })
unfolding new IsSpaced
new-IsKept settings h2 carriers h = record { same_cfg = refl; within = h; last = refl; spaced = tt }
new-IsKept settings h3 carriers h = record { same_cfg = refl; within = h; last = refl; spaced = tt }

-- From New with any settings and a pool within the limit of carriers, which is from 1 to 16: after
-- any signals and sweeps of one transport the pool is within the limit, and each carrier was asked
-- for at least the cooldown, which is positive, after the one before it was added.
pub steps-new :
    (settings : Config) (t : Transport) (carriers : ℕ) (ss : List Step)
    → let a = new settings in
      let p = steps t (record { autoscaler = a; carriers = carriers; additions = [] }) ss in
      carriers ≤ a.cfg.max_carriers
      → (0 < a.cfg.max_carriers)
        × (a.cfg.max_carriers ≤ 16)
        × (0 < a.cfg.cooldown)
        × (p.carriers ≤ a.cfg.max_carriers)
        × IsSpaced a.cfg.cooldown p.additions
steps-new settings t carriers ss h =
    let (positive, small, cools) = new-bounds settings in
    let k =
      steps-IsKept t (new settings).cfg
        (record { autoscaler = new settings; carriers = carriers; additions = [] }) ss cools
        (new-IsKept settings t carriers h) in
    (positive, small, cools, k.within, k.spaced)
