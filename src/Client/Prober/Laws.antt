-- ===== src/Client/Prober/Laws.antt =====
-- The contract of the prober, in terms of the last probes alone.
use chitanda.Base.{
  ltb, leb, if◌then◌else◌, ℕ, ◌+◌, ◌≡◌, refl, Bool, true, false, Option, none, some, List, [], ◌∷◌,
  arith,
}
use chitanda.Client.Prober.{
  ProbeError, carrier_not_ready, probe_failed, classify_h2_probe, tick, after,
}

-- How many of the last probes in a row failed, or succeeded. A probe fails by an error, or by a
-- round trip of more than 2500 ms; one that found the carrier not ready ends both runs.
unfoldable pub fail_run : List (ℕ × Option ProbeError) → ℕ
fail_run [] = 0
fail_run ((rtt, some probe_failed) ∷ past) = fail_run past + 1
fail_run ((rtt, some carrier_not_ready) ∷ past) = 0
fail_run ((rtt, none) ∷ past) = let more = fail_run past in if ltb 2500 rtt then more + 1 else 0

unfoldable pub success_run : List (ℕ × Option ProbeError) → ℕ
success_run [] = 0
success_run ((rtt, some _) ∷ past) = 0
success_run ((rtt, none) ∷ past) =
    let more = success_run past in if leb rtt 2500 then more + 1 else 0

-- Two failures in a row degrade, ten successes in a row restore, anything else leaves it.
unfoldable pub is_degraded : List (ℕ × Option ProbeError) → Bool
is_degraded [] = false
is_degraded (probe ∷ past) =
    let before = is_degraded past in
    if leb 2 (fail_run (probe ∷ past))
    then true
    else if leb 10 (success_run (probe ∷ past))
    then false
    else before

-- After any history of probes the prober counts the failures and the successes at its end, where a
-- round trip of more than 2500 ms is a failure, and reports HTTP/2 degraded once two in a row
-- failed, not degraded once ten in a row succeeded, and otherwise as before.
pub after-is_degraded :
    (history : List (ℕ × Option ProbeError))
    → ((after history).consecutive_fails ≡ fail_run history)
      × ((after history).consecutive_successes ≡ success_run history)
      × ((after history).h2_degraded ≡ is_degraded history)
unfolding after fail_run success_run is_degraded tick classify_h2_probe
after-is_degraded [] = (refl, refl, refl)
after-is_degraded ((rtt, none) ∷ past) = let (f, s, d) = after-is_degraded past in ground arith
after-is_degraded ((rtt, some carrier_not_ready) ∷ past) =
    let (f, s, d) = after-is_degraded past in ground arith
after-is_degraded ((rtt, some probe_failed) ∷ past) =
    let (f, s, d) = after-is_degraded past in ground arith
