-- ===== src/Frame/Replay/Tests.antt =====
-- Runs of the window, and its theorems at concrete inputs.
use chitanda.Base.{ℕ, ◌-◌, ◌^◌, ◌≡◌, refl, arith, true, false, List, [], ◌∷◌, replicate}
use chitanda.Base.Bits.{shl_word, and_not_word}
use chitanda.Frame.Replay.{
  ReplayWindow, zero_window, mark, clear_round, clear_loop, clear_slots, accept, accepts,
}
use chitanda.Frame.Replay.Refine.{spec_accepts, accepts_refines}
use chitanda.Frame.Replay.Once.{after, accept_once}

-- In order, repeated, late, ahead by more than a window, too old, and late within the new window.
abbrev arrivals : List ℕ
arrivals = 5 ∷ 6 ∷ 5 ∷ 3 ∷ 3 ∷ 4000 ∷ 6 ∷ 1953 ∷ 1953 ∷ 1952 ∷ []

accepts-arrivals :
    accepts zero_window arrivals
    ≡ true ∷ true ∷ false ∷ true ∷ false ∷ true ∷ false ∷ true ∷ false ∷ false ∷ []
unfolding accepts accept mark clear_slots clear_loop clear_round shl_word and_not_word
accepts-arrivals = refl

accepts_refines_example : accepts zero_window arrivals ≡ spec_accepts [] arrivals
accepts_refines_example = accepts_refines arrivals (omega arith)

abbrev marked : ReplayWindow
marked = record { initialized = true; highest = 100; bits = replicate 32 (2 ^ 64 - 1) }

seven_accepted : (accept (after zero_window (5 ∷ 9 ∷ [])) 7).1 ≡ true
unfolding accept mark clear_slots clear_loop clear_round shl_word and_not_word
seven_accepted = refl

accept_once_example :
    (accept (after (accept (after zero_window (5 ∷ 9 ∷ [])) 7).0 (8 ∷ 300 ∷ [])) 7).1 ≡ false
accept_once_example =
    accept_once (5 ∷ 9 ∷ []) (8 ∷ 300 ∷ []) 7 (omega arith) (omega arith) (omega arith)
      seven_accepted
