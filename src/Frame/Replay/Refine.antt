-- ===== src/Frame/Replay/Refine.antt =====
-- The window against its contract: remember every accepted number, and refuse those seen before
-- and those 2048 or more behind the highest.
use chitanda.Base.{
  ℕ, ◌+◌, ◌-◌, ◌%◌, ◌^◌, ◌≤◌, ◌<◌, max, ◌≡◌, ◌≢◌, refl, sym, ap, ap₂, ◌∙◌, arith, Bool, true, false,
  ltb, ◌==◌, ◌&&◌, ◌||◌, not, if◌then◌else◌, List, [], ◌∷◌, inl, inr, Bool-cases, lt→ltb, le→leb,
  lt→leb, le→ltb, replicate, All,
}
use chitanda.Frame.Replay.{
  ReplayWindow, zero_window, mark, clear_slots, advance_to, accept, accepts,
}
use chitanda.Frame.Replay.Slots.{
  slot_at, HasWords, slot_at-clear, mark-HasWords, slot_at-mark_self, slot_at-mark_ne,
  marked_test_iff,
}
use chitanda.Frame.Replay.Clear.{Cleared, clear_slots-Cleared, clear_slots-initialized}
use native.Mathlib.Decide.{ℕ_discrete, dec_lt, dec_le}

-- The specification's state: the accepted numbers, newest first.
abbrev pub contains : List ℕ → ℕ → Bool
contains [] s = false
contains (x ∷ xs) s = (x == s) || contains xs s

abbrev pub highest_of : List ℕ → ℕ
highest_of [] = 0
highest_of (x ∷ xs) = max x (highest_of xs)

abbrev pub is_fresh : List ℕ → ℕ → Bool
is_fresh [] s = true
is_fresh (x ∷ xs) s = not (contains (x ∷ xs) s) && ltb (highest_of (x ∷ xs)) (s + 2048)

unfoldable pub spec_accepts : List ℕ → List ℕ → List Bool
spec_accepts seen [] = []
spec_accepts seen (s ∷ rest) =
    is_fresh seen s ∷ spec_accepts (if is_fresh seen s then s ∷ seen else seen) rest

-- A window that has started: its slots tell which numbers of the last 2048 were accepted.
pub record Live (w : ReplayWindow) (seen : List ℕ) : Type 0 where
  pub started : w.initialized ≡ true
  pub words : HasWords w
  pub top : w.highest ≡ highest_of seen
  pub slots :
      (t : ℕ)
      → t ≤ w.highest
      → w.highest < t + 2048
      → slot_at w t ≡ (if contains seen t then 1 else 0)

-- How a window stands for the accepted numbers.
abbrev pub Represents : ReplayWindow → List ℕ → Type 0
Represents w [] = (w.initialized ≡ false) × (w.bits ≡ replicate 32 0)
Represents w (x ∷ xs) = Live w (x ∷ xs)

le-highest_of : (seen : List ℕ) (s : ℕ) → contains seen s ≡ true → s ≤ highest_of seen
le-highest_of [] s h = absurd (ground arith)
le-highest_of (x ∷ xs) s h = ground (arith, le-highest_of xs s)

not-contains_above : (seen : List ℕ) (s : ℕ) → highest_of seen < s → contains seen s ≡ false
not-contains_above seen s h = elim (Bool-cases (contains seen s)) [
  | inl e ↦ absurd (omega (arith, le-highest_of seen s e))
  | inr e ↦ e
]

-- Marking `s` on slots that are right for every other number of the window makes them right.
mark-Live :
    (w : ReplayWindow) (s : ℕ) (seen : List ℕ)
    → w.initialized ≡ true
    → HasWords w
    → w.highest ≡ highest_of (s ∷ seen)
    → s ≤ w.highest
    → w.highest < s + 2048
    → ((t : ℕ)
        → t ≤ w.highest
        → w.highest < t + 2048
        → t ≢ s
        → slot_at w t ≡ (if contains seen t then 1 else 0))
    → Live (mark w s) (s ∷ seen)
mark-Live w s seen on words top le near others = record {
  started = unfold mark in on;
  words = mark-HasWords w s words;
  top = unfold mark in top;
  slots = λ t a b. marked t (unfold mark in a) (unfold mark in b);
}
  where
    marked :
        (t : ℕ)
        → t ≤ w.highest
        → w.highest < t + 2048
        → slot_at (mark w s) t ≡ (if contains (s ∷ seen) t then 1 else 0)
    marked t a b = elim (ℕ_discrete s t) [
      | yes e ↦ ground (arith, slot_at-mark_self w s t words (ap (λ i. i % 2048) e))
      | no d ↦
          ground (arith, slot_at-mark_ne w s t words (omega arith), others t a b (λ e. d (sym e)))
    ]

-- What `Accept` does to the slots when a number above the highest arrives.
advance_to-slots :
    (w : ReplayWindow) (s t : ℕ) (seen : List ℕ)
    → Live w seen
    → w.highest < s
    → s < 2 ^ 64
    → t ≤ s
    → s < t + 2048
    → t ≢ s
    → slot_at (advance_to w s) t ≡ (if contains seen t then 1 else 0)
advance_to-slots w s t seen live up small le near ne = elim (dec_le 2048 (s - w.highest)) [
  | yes far ↦
      rw (le→leb 2048 (s - w.highest) far, not-contains_above seen t (omega (arith, live.top)))
        (slot_at-clear (record w { bits = replicate 32 0 }) t refl)
  | no step ↦ rw (lt→leb 2048 (s - w.highest) (omega arith)) (stepped (omega arith))
]
  where
    stepped :
        s - w.highest < 2048
        → slot_at (clear_slots w ((w.highest + 1) % 2 ^ 64) (s - w.highest - 1)) t
          ≡ (if contains seen t then 1 else 0)
    stepped k =
        let h : ℕ = (w.highest + 1) % 2 ^ 64 in
        let c : Cleared w (clear_slots w h (s - w.highest - 1)) h (s - w.highest - 1) t =
          clear_slots-Cleared w h (s - w.highest - 1) t live.words (omega arith) (omega arith) in
        elim (dec_lt w.highest t) [
          | yes p ↦ rw (not-contains_above seen t (omega (arith, live.top))) (c.1 (omega arith))
          | no p ↦ c.2 (omega arith) ∙ live.slots t (omega arith) (omega arith)
        ]

advance_to-HasWords :
    (w : ReplayWindow) (s : ℕ) → HasWords w → w.highest < s → s < 2 ^ 64 → HasWords (advance_to w s)
advance_to-HasWords w s words up small = elim (dec_le 2048 (s - w.highest)) [
  | yes far ↦ rw (le→leb 2048 (s - w.highest) far)
  | no step ↦
      rw (lt→leb 2048 (s - w.highest) (omega arith))
        (clear_slots-Cleared w ((w.highest + 1) % 2 ^ 64) (s - w.highest - 1) 0 words (omega arith)
          (omega arith)).0
]

-- One call of `Accept` answers as the contract does, and keeps the window right.
abbrev pub Step : ReplayWindow × Bool → List ℕ → ℕ → Type 0
Step (w', answer) seen s =
    (answer ≡ is_fresh seen s) × Represents w' (if is_fresh seen s then s ∷ seen else seen)

accept-first_Step : (w : ReplayWindow) (s : ℕ) → Represents w [] → Step (accept w s) [] s
unfolding accept
accept-first_Step w s (off, blank) = rw off (refl, live)
  where
    w' : ReplayWindow
    w' = record w { initialized = true; highest = s }

    live : Live (mark w' s) (s ∷ [])
    live =
        mark-Live w' s [] refl (rw blank) (omega arith) (omega arith) (omega arith)
          (λ t a b d. slot_at-clear w' t blank)

Step-intro :
    (r : ReplayWindow × Bool) (w' : ReplayWindow) (b : Bool) (seen : List ℕ) (s : ℕ)
    → r ≡ (w', b)
    → is_fresh seen s ≡ b
    → Represents w' (if b then s ∷ seen else seen)
    → Step r seen s
Step-intro r w' b seen s e f h = rw (e, f) (refl, h)

module _ (w : ReplayWindow) (s : ℕ) (started : w.initialized ≡ true) where
  accept_above :
      w.highest < s → accept w s ≡ (mark (record (advance_to w s) { highest = s }) s, true)
  unfolding accept
  accept_above up = ground arith

  accept_far : s + 2048 ≤ w.highest → accept w s ≡ (w, false)
  unfolding accept
  accept_far far = ground arith

  accept_again : s ≤ w.highest → slot_at w s ≡ 1 → accept w s ≡ (w, false)
  unfolding accept
  accept_again le e = ground (arith, (marked_test_iff w s).0)

  accept_new :
      s ≤ w.highest → w.highest < s + 2048 → slot_at w s ≡ 0 → accept w s ≡ (mark w s, true)
  unfolding accept mark
  accept_new le near e = ground (arith, (marked_test_iff w s).1)

module _ (w : ReplayWindow) (s x : ℕ) (xs : List ℕ) (live : Live w (x ∷ xs)) where
  abbrev known : List ℕ
  known = x ∷ xs

  accept-above_Step : w.highest < s → s < 2 ^ 64 → Step (accept w s) known s
  unfolding slot_at
  accept-above_Step up small =
      Step-intro _ _ true known s (accept_above w s live.started up)
        (rw (not-contains_above known s (omega (arith, live.top)))
          (lt→ltb (highest_of known) (s + 2048) (omega (arith, live.top))))
        (mark-Live (record (advance_to w s) { highest = s }) s known on
          (advance_to-HasWords w s live.words up small) (omega (arith, live.top)) (omega arith)
          (omega arith) (λ t a b d. advance_to-slots w s t known live up small a b d))
    where
      on : (advance_to w s).initialized ≡ true
      on = ground (
        arith,
        live.started,
        clear_slots-initialized w ((w.highest + 1) % 2 ^ 64) (s - w.highest - 1),
      )

  accept-far_Step : s + 2048 ≤ w.highest → Step (accept w s) known s
  accept-far_Step far =
      Step-intro _ w false known s (accept_far w s live.started far)
        (rw (le→ltb (highest_of known) (s + 2048) (omega (arith, live.top))) (ground arith)) live

  accept-near_Step : s ≤ w.highest → w.highest < s + 2048 → Step (accept w s) known s
  accept-near_Step le near = elim (Bool-cases (contains known s)) [
    | inl old ↦
        Step-intro _ w false known s
          (accept_again w s live.started le (ground (arith, live.slots s le near))) (rw old) live
    | inr new ↦
        Step-intro _ (mark w s) true known s
          (accept_new w s live.started le near (ground (arith, live.slots s le near)))
          (rw new (lt→ltb (highest_of known) (s + 2048) (omega (arith, live.top))))
          (mark-Live w s known live.started live.words (omega (arith, live.top)) le near
            (λ t a b d. live.slots t a b))
  ]

  accept-live_Step : s < 2 ^ 64 → Step (accept w s) known s
  accept-live_Step small = elim (dec_lt w.highest s) [
    | yes up ↦ accept-above_Step up small
    | no down ↦ elim (dec_lt w.highest (s + 2048)) [
      | yes near ↦ accept-near_Step (omega arith) near
      | no far ↦ accept-far_Step (omega arith)
    ]
  ]

pub accept-Step :
    (w : ReplayWindow) (seen : List ℕ) (s : ℕ)
    → Represents w seen
    → s < 2 ^ 64
    → Step (accept w s) seen s
accept-Step w [] s h small = accept-first_Step w s h
accept-Step w (x ∷ xs) s h small = accept-live_Step w s x xs h small

accepts-Represents :
    (ss : List ℕ) (w : ReplayWindow) (seen : List ℕ)
    → Represents w seen
    → All (λ s. s < 2 ^ 64) ss
    → accepts w ss ≡ spec_accepts seen ss
unfolding accepts spec_accepts
accepts-Represents [] w seen h small = refl
accepts-Represents (s ∷ ss) w seen h small =
    let step : Step (accept w s) seen s = accept-Step w seen s h small.0 in
    ap₂ ◌∷◌ step.0 (accepts-Represents ss (accept w s).0 _ step.1 small.1)

-- On every sequence of 64-bit numbers a new window answers as its contract: a number is accepted
-- exactly when it was not accepted before and lies fewer than 2048 behind the highest accepted one.
pub accepts_refines :
    (ss : List ℕ) → All (λ s. s < 2 ^ 64) ss → accepts zero_window ss ≡ spec_accepts [] ss
accepts_refines ss small = accepts-Represents ss zero_window [] (refl, refl) small
