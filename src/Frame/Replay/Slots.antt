-- ===== src/Frame/Replay/Slots.antt =====
-- The window seen as 2048 slots, each marked (1) or clear (0), and what `mark` does to them.
use chitanda.Base.{
  ◌↔◌, ℕ, ◌*◌, ◌/◌, ◌%◌, ◌<◌, bit_and, ◌≡◌, ◌≢◌, ap, ◌∙◌, arith, List, length, get_or, set,
  replicate, length-set, get_or-set_self, get_or-set_ne, get_or-replicate,
}
use chitanda.Base.Bits.{
  digit, digit-zero, digit-lt_two, shl_word, digit-bit_or, digit-shl_word_one_self,
  digit-shl_word_one_ne, bit_and-one_iff,
}
use chitanda.Frame.Replay.{ReplayWindow, replay_window_size, mark, replay_slot}
use native.Mathlib.Decide.{ℕ_discrete}

abbrev pub word_slot : List ℕ → ℕ → ℕ
word_slot bits k = digit (get_or bits (k / 64) 0) (k % 64)

-- The slot that a sequence number falls in.
unfoldable pub slot_at : ReplayWindow → ℕ → ℕ
slot_at w sequence = word_slot w.bits (sequence % replay_window_size)

abbrev pub HasWords : ReplayWindow → Type 0
HasWords w = length w.bits ≡ 32

-- A write to the word of slot `i` changes the slots of that word only.
pub word_slot-set_same :
    (bits : List ℕ) (i k v : ℕ)
    → i / 64 ≡ k / 64
    → k < 64 * length bits
    → word_slot (set bits (i / 64) v) k ≡ digit v (k % 64)
word_slot-set_same bits i k v e h =
    rw e (ap (λ t. digit t (k % 64)) (get_or-set_self bits (k / 64) v 0 (omega arith)))

pub word_slot-set_other :
    (bits : List ℕ) (i k v : ℕ)
    → i / 64 ≢ k / 64
    → word_slot (set bits (i / 64) v) k ≡ word_slot bits k
word_slot-set_other bits i k v e =
    ap (λ t. digit t (k % 64)) (get_or-set_ne bits (i / 64) (k / 64) v 0 e)

pub slot_at-clear : (w : ReplayWindow) (s : ℕ) → w.bits ≡ replicate 32 0 → slot_at w s ≡ 0
unfolding slot_at
slot_at-clear w s e =
    ap (λ t. word_slot t (s % replay_window_size)) e
    ∙ ap (λ t. digit t (s % replay_window_size % 64))
        (get_or-replicate 32 (s % replay_window_size / 64) 0)
    ∙ digit-zero (s % replay_window_size % 64)

pub mark-HasWords : (w : ReplayWindow) (s : ℕ) → HasWords w → HasWords (mark w s)
unfolding mark
mark-HasWords w s h = length-set w.bits _ _ ∙ h

-- `mark` marks the slot of its sequence number.
pub slot_at-mark_self :
    (w : ReplayWindow) (s t : ℕ) → HasWords w → s % 2048 ≡ t % 2048 → slot_at (mark w s) t ≡ 1
unfolding mark slot_at
slot_at-mark_self w s t h e =
    word_slot-set_same w.bits (s % 2048) (t % 2048) _ (omega arith) (omega arith)
    ∙ digit-bit_or _ _ (t % 2048 % 64)
    ∙ omega (
      arith,
      ap (λ i. digit (shl_word 1 (i % 64)) (t % 2048 % 64)) e,
      digit-shl_word_one_self (t % 2048 % 64) (omega arith),
      digit-lt_two (get_or w.bits (s % 2048 / 64) 0) (t % 2048 % 64),
    )

-- It leaves every other slot.
pub slot_at-mark_ne :
    (w : ReplayWindow) (s t : ℕ)
    → HasWords w
    → s % 2048 ≢ t % 2048
    → slot_at (mark w s) t ≡ slot_at w t
unfolding mark slot_at
slot_at-mark_ne w s t h ne = elim (ℕ_discrete (s % 2048 / 64) (t % 2048 / 64)) [
  | yes e ↦
      word_slot-set_same w.bits (s % 2048) (t % 2048) _ e (omega arith)
      ∙ digit-bit_or _ _ (t % 2048 % 64)
      ∙ omega (
        arith,
        digit-shl_word_one_ne (s % 2048 % 64) (t % 2048 % 64) (omega arith) (omega arith),
        ap (λ i. digit (get_or w.bits i 0) (t % 2048 % 64)) e,
      )
  | no d ↦ word_slot-set_other w.bits (s % 2048) (t % 2048) _ d
]

-- The test `w.bits[word]&mask != 0` reads the slot of the sequence number.
pub marked_test_iff :
    (w : ReplayWindow) (s : ℕ)
    → (bit_and (get_or w.bits (replay_slot s).0 0) (replay_slot s).1 ≡ 0) ↔ (slot_at w s ≡ 0)
unfolding slot_at
marked_test_iff w s =
    bit_and-one_iff (get_or w.bits (s % 2048 / 64) 0) (s % 2048 % 64) (omega arith)

pub slot_at-lt_two : (w : ReplayWindow) (s : ℕ) → slot_at w s < 2
unfolding slot_at
slot_at-lt_two w s = digit-lt_two _ _
