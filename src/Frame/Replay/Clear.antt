-- ===== src/Frame/Replay/Clear.antt =====
-- `clearSlots(sequence, count)` clears the slots of `sequence`, …, `sequence + count - 1`, and no other.
use chitanda.Base.{
  ℕ, zero, suc, ◌+◌, ◌-◌, ◌/◌, ◌%◌, ◌^◌, ◌≤◌, ◌<◌, ◌≡◌, refl, ap, ◌∙◌, arith, ltb, if◌then◌else◌,
  get_or, length-set, ◌⊎◌, inl, inr, Bool-cases, ltb→lt, lt→ltb,
}
use chitanda.Base.Bits.{
  digit, digit-lt_two, shl_word, shl_word-lt, digit-and_not_word, digit-mask_inside,
  digit-mask_outside,
}
use chitanda.Frame.Replay.{ReplayWindow, clear_chunk, clear_round, clear_loop, clear_slots}
use chitanda.Frame.Replay.Slots.{
  slot_at, HasWords, word_slot, word_slot-set_same, word_slot-set_other,
}
use native.Mathlib.Decide.{ℕ_discrete, dec_lt}
use native.Mathlib.Nat.{pow-le-pow_right}

-- How far `t` lies behind `s` on the circle of slots.
abbrev pub ahead : ℕ → ℕ → ℕ
ahead s t = (t % 2048 + 2048 - s % 2048) % 2048

pub clear_round-HasWords : (w : ReplayWindow) (s c : ℕ) → HasWords w → HasWords (clear_round w s c)
unfolding clear_round
clear_round-HasWords w s c h = length-set w.bits _ _ ∙ h

round_mask : (c : ℕ) → c ≤ 64 → (if ltb c 64 then shl_word 1 c - 1 else 2 ^ 64 - 1) ≡ 2 ^ c - 1
unfolding shl_word
round_mask c h = elim (dec_lt c 64) [
  | yes k ↦
      rw (lt→ltb c 64 k)
        (omega (arith, pow-le-pow_right {n = 2} (omega arith) {i = c} {j = 63} (omega arith)))
  | no k ↦ let e : c ≡ 64 = omega arith in rw e
]

module _ (w : ReplayWindow) (s c t : ℕ) (words : HasWords w) where
  abbrev slot : ℕ
  slot = s % 2048

  abbrev bit : ℕ
  bit = s % 2048 % 64

  abbrev chunk : ℕ
  chunk = clear_chunk s c

  abbrev place : ℕ
  place = t % 2048

  mask_inside : slot ≤ place → place < slot + chunk → word_slot (clear_round w s c).bits place ≡ 0
  unfolding clear_round
  mask_inside h k =
      word_slot-set_same w.bits slot place _ (omega arith) (omega arith)
      ∙ digit-and_not_word _ _ (place % 64) (shl_word-lt _ bit) (omega arith)
      ∙ omega (
        arith,
        ap (λ m. digit (shl_word m bit) (place % 64)) (round_mask chunk (omega arith)),
        digit-mask_inside chunk bit (place % 64) (omega arith) (omega arith) (omega arith),
      )

  mask_outside :
      (place < slot) ⊎ (slot + chunk ≤ place)
      → word_slot (clear_round w s c).bits place ≡ word_slot w.bits place
  unfolding clear_round
  mask_outside h = elim (ℕ_discrete (slot / 64) (place / 64)) [
    | yes e ↦
        word_slot-set_same w.bits slot place _ e (omega arith)
        ∙ digit-and_not_word _ _ (place % 64) (shl_word-lt _ bit) (omega arith)
        ∙ omega (
          arith,
          ap (λ m. digit (shl_word m bit) (place % 64)) (round_mask chunk (omega arith)),
          digit-mask_outside chunk bit (place % 64) (outside e h) (omega arith),
          digit-lt_two (get_or w.bits (place / 64) 0) (place % 64),
          ap (λ i. digit (get_or w.bits i 0) (place % 64)) e,
        )
    | no d ↦ word_slot-set_other w.bits slot place _ d
  ]
    where
      outside :
          slot / 64 ≡ place / 64
          → (place < slot) ⊎ (slot + chunk ≤ place)
          → (place % 64 < bit) ⊎ (bit + chunk ≤ place % 64)
      outside e (inl k) = inl (omega arith)
      outside e (inr k) = inr (omega arith)

  clear_round_inside : ahead s t < clear_chunk s c → slot_at (clear_round w s c) t ≡ 0
  unfolding slot_at
  clear_round_inside k = mask_inside (omega arith) (omega arith)

  clear_round_outside : clear_chunk s c ≤ ahead s t → slot_at (clear_round w s c) t ≡ slot_at w t
  unfolding slot_at
  clear_round_outside k =
      mask_outside (elim (dec_lt place slot) [ yes p ↦ inl p | no p ↦ inr (omega arith) ])

abbrev pub Cleared : ReplayWindow → ReplayWindow → ℕ → ℕ → ℕ → Type 0
Cleared w w' s c t =
    HasWords w' × (ahead s t < c → slot_at w' t ≡ 0) × (c ≤ ahead s t → slot_at w' t ≡ slot_at w t)

-- One round, then whatever clears the rest.
Cleared-round :
    (w w'' : ReplayWindow) (s c t : ℕ)
    → HasWords w
    → 0 < c
    → c ≤ 2048
    → s + c < 2 ^ 64
    → Cleared (clear_round w s c) w'' ((s + clear_chunk s c) % 2 ^ 64) (c - clear_chunk s c) t
    → Cleared w w'' s c t
Cleared-round w w'' s c t h pos m k (words, inside, outside) = (
  words,
  λ b. elim (dec_lt (ahead s t) (clear_chunk s c)) [
    | yes p ↦ outside (omega arith) ∙ clear_round_inside w s c t h p
    | no p ↦ inside (omega arith)
  ],
  λ b. outside (omega arith) ∙ clear_round_outside w s c t h (omega arith),
)

clear_loop-Cleared :
    (fuel : ℕ) (w : ReplayWindow) (s c t : ℕ)
    → HasWords w
    → c ≤ fuel
    → c ≤ 2048
    → s + c < 2 ^ 64
    → Cleared w (clear_loop fuel w s c) s c t
unfolding clear_loop
clear_loop-Cleared zero w s c t h f m k = (h, λ b. absurd (omega arith), λ b. refl)
clear_loop-Cleared (suc fuel) w s c t h f m k = elim (Bool-cases (ltb 0 c)) [
  | inl more ↦
      rw (more, clear_loop)
        (Cleared-round w _ s c t h (ltb→lt 0 c more) m k (
          clear_loop-Cleared fuel (clear_round w s c) ((s + clear_chunk s c) % 2 ^ 64)
            (c - clear_chunk s c) t (clear_round-HasWords w s c h) (ground arith) (omega arith)
            (omega arith)))
  | inr done ↦ rw (done, clear_loop) (h, λ b. absurd (ground arith), λ b. refl)
]

-- The loop of `clearSlots` ends after at most `count` rounds, and clears the `count` slots from
-- that of `sequence` on, going round, and no other.
pub clear_slots-Cleared :
    (w : ReplayWindow) (s c t : ℕ)
    → HasWords w
    → c ≤ 2048
    → s + c < 2 ^ 64
    → Cleared w (clear_slots w s c) s c t
unfolding clear_slots
clear_slots-Cleared w s c t h m k = clear_loop-Cleared c w s c t h (omega arith) m k

clear_loop-initialized :
    (fuel : ℕ) (w : ReplayWindow) (s c : ℕ) → (clear_loop fuel w s c).initialized ≡ w.initialized
unfolding clear_loop clear_round
clear_loop-initialized zero w s c = refl
clear_loop-initialized (suc fuel) w s c = ground (
  arith,
  clear_loop-initialized fuel (clear_round w s c) ((s + clear_chunk s c) % 2 ^ 64)
      (c - clear_chunk s c),
)

pub clear_slots-initialized :
    (w : ReplayWindow) (s c : ℕ) → (clear_slots w s c).initialized ≡ w.initialized
unfolding clear_slots
clear_slots-initialized w s c = clear_loop-initialized c w s c
