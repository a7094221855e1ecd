-- ===== src/Autoscaler.antt =====
-- pkg/plugin/autoscaler/autoscaler.go: when the pool of carriers grows. A setting that is not
-- positive is 0 here, since New treats them alike; times are in nanoseconds, and the zero time is
-- `none`. The division of tryScaleUp in float64 is written without rounding, as `total ≥ threshold *
-- carriers`, which is the same for counts below 2 ^ 49 and 16 carriers.
pub mod Laws
mod Tests
use chitanda.Base.{
  ltb, leb, ◌==◌, if◌then◌else◌, bytes_eq, bytes_eq→eq, bytes_eq_self, ltb→lt, lt→ltb, leb→le,
  le→leb, lt→leb, le→ltb, ==_iff, Bool-cases, Option-cases, some_inj, length, get_or, set, take,
  drop, replicate, All, All-take, All-drop, length-append, length-set, get_or-set_self,
  get_or-set_ne, length-replicate, get_or-replicate, take-append-drop, length-take, length-drop,
  take-append_exact, drop-append_exact, take-nil, take-add, drop-nil, drop-drop, All-append, ℕ,
  zero, suc, ◌+◌, ◌-◌, ◌*◌, ◌/◌, ◌%◌, ◌^◌, ◌≤◌, ◌<◌, min, max, bit_and, bit_or, bit_xor, ◌≡◌, refl,
  sym, ap, ap₂, ◌∙◌, ◌≢◌, ◌↔◌, ◌⊎◌, inl, inr, Bool, true, false, not, ◌&&◌, ◌||◌, Option, none,
  some, List, [], ◌∷◌, ◌++◌, map, append-nil, append_assoc, arith,
}

pub record Config : Type 0 where
  pub max_carriers : ℕ
  pub scale_up_threshold : ℕ
  pub scale_down_idle : ℕ
  pub cooldown : ℕ
  pub sweep_interval : ℕ

pub data Transport : Type 0 where
  h2 h3 : Transport

pub record PoolStats : Type 0 where
  pub total_carriers : ℕ
  pub total_active_streams : ℕ
  pub min_active_streams : ℕ
  pub max_active_streams : ℕ

pub record Autoscaler : Type 0 where
  pub cfg : Config
  pub last_scale_up_h2 : Option ℕ
  pub last_scale_up_h3 : Option ℕ
  pub scale_up_count : ℕ
  pub scale_down_count : ℕ

abbrev pub second : ℕ
second = 10 ^ 9

abbrev pub default_to : ℕ → ℕ → ℕ
default_to setting default = if setting == 0 then default else setting

unfoldable pub new : Config → Autoscaler
new cfg = record {
  cfg = record {
    max_carriers = min 16 (default_to cfg.max_carriers 8);
    scale_up_threshold = default_to cfg.scale_up_threshold 4;
    scale_down_idle = default_to cfg.scale_down_idle (30 * second);
    cooldown = default_to cfg.cooldown second;
    sweep_interval = default_to cfg.sweep_interval (5 * second);
  };
  last_scale_up_h2 = none;
  last_scale_up_h3 = none;
  scale_up_count = 0;
  scale_down_count = 0;
}

abbrev pub last_scale_up : Autoscaler → Transport → Option ℕ
last_scale_up a h2 = a.last_scale_up_h2
last_scale_up a h3 = a.last_scale_up_h3

abbrev pub scaled_up : Autoscaler → Transport → ℕ → Autoscaler
scaled_up a h2 done = record a {
  last_scale_up_h2 = some done;
  scale_up_count = a.scale_up_count + 1;
}
scaled_up a h3 done = record a {
  last_scale_up_h3 = some done;
  scale_up_count = a.scale_up_count + 1;
}

-- `time.Since(*lastScale) < a.cfg.Cooldown`
abbrev pub is_cooling : Autoscaler → Transport → ℕ → Bool
is_cooling a transport now = elim (last_scale_up a transport) [
  | none ↦ false
  | some last ↦ ltb (now - last) a.cfg.cooldown
]

unfoldable pub should_scale : ℕ → PoolStats → Bool
should_scale threshold stats =
    leb threshold stats.min_active_streams
    || leb (threshold * stats.total_carriers) stats.total_active_streams
    || (leb (max 6 (threshold * 2)) stats.max_active_streams
        && ltb stats.total_carriers stats.total_active_streams)

-- `added` is whether AddCarrier succeeds if it is called, `done` the time when it returns. The
-- answer is whether a carrier was added.
unfoldable pub try_scale_up : Autoscaler → Transport → ℕ → PoolStats → Bool → ℕ → Autoscaler × Bool
try_scale_up a transport now stats added done =
    if is_cooling a transport now
    then (a, false)
    else if leb a.cfg.max_carriers stats.total_carriers || (stats.total_carriers == 0)
    then (a, false)
    else if not (should_scale a.cfg.scale_up_threshold stats)
    then (a, false)
    else if added
    then (scaled_up a transport done, true)
    else (a, false)

-- `removed` is whether RemoveIdleCarrier removed one without an error.
unfoldable pub try_scale_down : Autoscaler → Bool → Autoscaler
try_scale_down a removed =
    if removed then record a { scale_down_count = a.scale_down_count + 1 } else a

-- What the loop handles for one transport: a signal to grow, or a sweep. The pool has as many
-- carriers as its Stats say.
pub data Step : Type 0 where
  grow : (now total_active min_active max_active : ℕ) → Bool → ℕ → Step
  sweep : Bool → Step

-- The autoscaler, the carriers of the transport, and when each was asked for and added, the last
-- first.
pub record Pool : Type 0 where
  pub autoscaler : Autoscaler
  pub carriers : ℕ
  pub additions : List (ℕ × ℕ)

abbrev pub grown : Pool → ℕ → ℕ → Autoscaler × Bool → Pool
grown p now done (a, true) = record {
  autoscaler = a;
  carriers = p.carriers + 1;
  additions = (now, done) ∷ p.additions;
}
grown p now done (a, false) = record p { autoscaler = a }

unfoldable pub step : Transport → Pool → Step → Pool
step transport p (grow now total_active min_active max_active added done) =
    let stats : PoolStats = record {
      total_carriers = p.carriers;
      total_active_streams = total_active;
      min_active_streams = min_active;
      max_active_streams = max_active;
    } in
    grown p now done (try_scale_up p.autoscaler transport now stats added done)
step transport p (sweep removed) = record p {
  autoscaler = try_scale_down p.autoscaler removed;
  carriers = if removed then p.carriers - 1 else p.carriers;
}

unfoldable pub steps : Transport → Pool → List Step → Pool
steps transport p [] = p
steps transport p (s ∷ rest) = steps transport (step transport p s) rest
