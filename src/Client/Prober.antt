-- ===== src/Client/Prober.antt =====
-- pkg/client/prober.go: the probe that moves TCP from HTTP/2 to HTTP/3 when HTTP/2 degrades.
pub mod Laws
mod Tests
use chitanda.Base.{
  ltb, leb, ◌==◌, if◌then◌else◌, bytes_eq, bytes_eq→eq, bytes_eq_self, ltb→lt, lt→ltb, leb→le,
  le→leb, lt→leb, le→ltb, ==_iff, Bool-cases, Option-cases, some_inj, length, get_or, set, take,
  drop, replicate, All, All-take, All-drop, length-append, length-set, get_or-set_self,
  get_or-set_ne, length-replicate, get_or-replicate, take-append-drop, length-take, length-drop,
  take-append_exact, drop-append_exact, take-nil, take-add, drop-nil, drop-drop, All-append, ℕ,
  zero, suc, ◌+◌, ◌-◌, ◌*◌, ◌/◌, ◌%◌, ◌^◌, ◌≤◌, ◌<◌, min, max, bit_and, bit_or, bit_xor, ◌≡◌, refl,
  sym, ap, ap₂, ◌∙◌, ◌≢◌, ◌↔◌, ◌⊎◌, inl, inr, Bool, true, false, not, ◌&&◌, ◌||◌, Option, none,
  some, List, [], ◌∷◌, ◌++◌, map, append-nil, append_assoc, arith,
}

-- `carrier_not_ready` is ErrCarrierNotReady; `probe_failed` any other error.
pub data ProbeError : Type 0 where
  carrier_not_ready probe_failed : ProbeError

-- The limit of a round trip, in milliseconds.
abbrev pub rtt_limit : ℕ
rtt_limit = 2500

-- (skip, failed)
unfoldable pub classify_h2_probe : ℕ → Option ProbeError → Bool × Bool
classify_h2_probe rtt none = (false, ltb rtt_limit rtt)
classify_h2_probe rtt (some carrier_not_ready) = (true, false)
classify_h2_probe rtt (some probe_failed) = (false, true)

pub record H2Prober : Type 0 where
  pub consecutive_fails : ℕ
  pub consecutive_successes : ℕ
  pub h2_degraded : Bool

abbrev pub new_h2_prober : H2Prober
new_h2_prober = record { consecutive_fails = 0; consecutive_successes = 0; h2_degraded = false }

-- One tick of the loop, with what pingH2 returned.
unfoldable pub tick : H2Prober → ℕ × Option ProbeError → H2Prober
tick p (rtt, error) =
    let (skip, failed) = classify_h2_probe rtt error in
    let fails = p.consecutive_fails + 1 in
    let successes = p.consecutive_successes + 1 in
    if skip
    then record p { consecutive_fails = 0; consecutive_successes = 0 }
    else if failed
    then record {
      consecutive_fails = fails;
      consecutive_successes = 0;
      h2_degraded = if leb 2 fails && not p.h2_degraded then true else p.h2_degraded;
    }
    else record {
      consecutive_fails = 0;
      consecutive_successes = successes;
      h2_degraded = if leb 10 successes && p.h2_degraded then false else p.h2_degraded;
    }

-- The state after a history of probes, the last one first.
unfoldable pub after : List (ℕ × Option ProbeError) → H2Prober
after [] = new_h2_prober
after (probe ∷ past) = tick (after past) probe
