-- ===== src/Frame/Replay/Once.antt =====
-- No number is accepted twice.
use chitanda.Base.{
  ℕ, ◌^◌, ◌<◌, ◌≡◌, refl, sym, ◌∙◌, arith, true, false, if◌then◌else◌, ==_iff, List, [], ◌∷◌, All,
}
use chitanda.Frame.Replay.{ReplayWindow, zero_window, accept}
use chitanda.Frame.Replay.Refine.{contains, is_fresh, Represents, Step, accept-Step}

-- The window after a sequence of datagrams.
abbrev pub after : ReplayWindow → List ℕ → ReplayWindow
after w [] = w
after w (s ∷ rest) = after (accept w s).0 rest

abbrev spec_after : List ℕ → List ℕ → List ℕ
spec_after seen [] = seen
spec_after seen (s ∷ rest) = spec_after (if is_fresh seen s then s ∷ seen else seen) rest

after-Represents :
    (ss : List ℕ) (w : ReplayWindow) (seen : List ℕ)
    → Represents w seen
    → All (λ s. s < 2 ^ 64) ss
    → Represents (after w ss) (spec_after seen ss)
after-Represents [] w seen h small = h
after-Represents (s ∷ ss) w seen h small =
    after-Represents ss (accept w s).0 _ (accept-Step w seen s h small.0).1 small.1

contains-spec_after :
    (ss seen : List ℕ) (s : ℕ) → contains seen s ≡ true → contains (spec_after seen ss) s ≡ true
contains-spec_after [] seen s h = h
contains-spec_after (x ∷ ss) seen s h =
    contains-spec_after ss (if is_fresh seen x then x ∷ seen else seen) s (ground arith)

not-is_fresh_contained : (seen : List ℕ) (s : ℕ) → contains seen s ≡ true → is_fresh seen s ≡ false
not-is_fresh_contained [] s h = ground arith
not-is_fresh_contained (x ∷ xs) s h = rw h

-- A number that the window accepted once is refused from then on, whatever arrives in between.
pub accept_once :
    (before between : List ℕ) (s : ℕ)
    → All (λ t. t < 2 ^ 64) before
    → All (λ t. t < 2 ^ 64) between
    → s < 2 ^ 64
    → (accept (after zero_window before) s).1 ≡ true
    → (accept (after (accept (after zero_window before) s).0 between) s).1 ≡ false
accept_once before between s hb hm hs accepted =
    let seen : List ℕ = spec_after [] before in
    let first : Step (accept (after zero_window before) s) seen s =
      accept-Step _ seen s (after-Represents before zero_window [] (refl, refl) hb) hs in
    let seen' : List ℕ = if is_fresh seen s then s ∷ seen else seen in
    let second : Step (accept (after (accept (after zero_window before) s).0 between) s)
        (spec_after seen' between) s =
      accept-Step _ (spec_after seen' between) s (after-Represents between _ seen' first.1 hm) hs in
    second.0
    ∙ not-is_fresh_contained (spec_after seen' between) s (
        contains-spec_after between seen' s
          (rw (sym first.0 ∙ accepted) (rw ((==_iff s s).1 refl))))
