-- ===== src/Frame/Replay.antt =====
-- ReplayWindow of internal/frame/frame.go: a sliding window of 2048 sequence numbers as 32 words
-- of 64 bits, slot `sequence % 2048`.
pub mod Slots
pub mod Clear
pub mod Refine
pub mod Once
mod Tests
use chitanda.Base.{
  ℕ, zero, suc, ◌+◌, ◌-◌, ◌*◌, ◌/◌, ◌%◌, ◌^◌, min, bit_and, bit_or, Bool, true, false, ltb, leb,
  ◌==◌, not, if◌then◌else◌, List, [], ◌∷◌, get_or, set, replicate,
}
use chitanda.Base.Bits.{shl_word, and_not_word}

abbrev pub replay_window_size : ℕ
replay_window_size = 2048

pub record ReplayWindow : Type 0 where
  pub initialized : Bool
  pub highest : ℕ
  pub bits : List ℕ

-- `var w ReplayWindow`
abbrev pub zero_window : ReplayWindow
zero_window = record { initialized = false; highest = 0; bits = replicate 32 0 }

abbrev pub replay_slot : ℕ → ℕ × ℕ
replay_slot sequence =
    let slot = sequence % replay_window_size in (slot / 64, shl_word 1 (slot % 64))

unfoldable pub mark : ReplayWindow → ℕ → ReplayWindow
mark w sequence =
    let (word, mask) = replay_slot sequence in
    record w { bits = set w.bits word (bit_or (get_or w.bits word 0) mask) }

-- One round of the loop of `clearSlots`; the number of slots that it clears is `clear_chunk`.
abbrev pub clear_chunk : ℕ → ℕ → ℕ
clear_chunk sequence count = min count (64 - sequence % replay_window_size % 64)

unfoldable pub clear_round : ReplayWindow → ℕ → ℕ → ReplayWindow
clear_round w sequence count =
    let slot = sequence % replay_window_size in
    let word = slot / 64 in
    let bit = slot % 64 in
    let chunk = clear_chunk sequence count in
    let mask = if ltb chunk 64 then shl_word 1 chunk - 1 else 2 ^ 64 - 1 in
    record w { bits = set w.bits word (and_not_word (get_or w.bits word 0) (shl_word mask bit)) }

-- A round clears one slot at least, so `count` rounds are enough fuel.
unfoldable pub clear_loop : ℕ → ReplayWindow → ℕ → ℕ → ReplayWindow
clear_loop zero w sequence count = w
clear_loop (suc fuel) w sequence count =
    let chunk = clear_chunk sequence count in
    elim (ltb 0 count) [
      | true ↦
          clear_loop fuel (clear_round w sequence count) ((sequence + chunk) % 2 ^ 64)
            (count - chunk)
      | false ↦ w
    ]

unfoldable pub clear_slots : ReplayWindow → ℕ → ℕ → ReplayWindow
clear_slots w sequence count = clear_loop count w sequence count

abbrev advance_to : ReplayWindow → ℕ → ReplayWindow
advance_to w sequence =
    let advance = sequence - w.highest in
    if leb replay_window_size advance
    then record w { bits = replicate 32 0 }
    else clear_slots w ((w.highest + 1) % 2 ^ 64) (advance - 1)

unfoldable pub accept : ReplayWindow → ℕ → ReplayWindow × Bool
accept w sequence =
    if not w.initialized
    then (mark (record w { initialized = true; highest = sequence }) sequence, true)
    else if ltb w.highest sequence
    then (mark (record (advance_to w sequence) { highest = sequence }) sequence, true)
    else if leb replay_window_size (w.highest - sequence)
    then (w, false)
    else let (word, mask) = replay_slot sequence in
      if not (bit_and (get_or w.bits word 0) mask == 0)
      then (w, false)
      else (record w { bits = set w.bits word (bit_or (get_or w.bits word 0) mask) }, true)

-- The answers to a sequence of datagrams.
unfoldable pub accepts : ReplayWindow → List ℕ → List Bool
accepts w [] = []
accepts w (s ∷ rest) = let (w', answer) = accept w s in answer ∷ accepts w' rest
