-- ===== src/PlainUdp/ResponseReplay/Laws.antt =====
-- A response that was accepted is never accepted again: it stays in the ring, below the floor of
-- its timestamp, or its timestamp is retired.
use chitanda.Base.{
  ltb, Bool-cases, length, get_or, ℕ, ◌+◌, ◌-◌, ◌≤◌, ◌≡◌, refl, ap, ◌∙◌, ◌⊎◌, inl, inr, Bool, true,
  false, ◌||◌, List, [], ◌∷◌, ◌++◌, arith,
}
use chitanda.PlainUdp.ResponseReplay.{
  ResponseReplayWindow, zero_window, span, is_seen, delete_seen, floor_of, drop_floors, raise_floor,
  advance, evict, remember, below_floor, is_retired, accept, accepts,
}

-- What keeps a response out.
blocked : ResponseReplayWindow → ℕ → ℕ → Bool
blocked w sequence timestamp =
    is_seen w.seen (timestamp, sequence)
    || is_retired w timestamp
    || below_floor w.floors timestamp sequence

-- The retired timestamps end `span + 1` behind the highest.
pub IsWindow : ResponseReplayWindow → Type 0
IsWindow w = (w.has_retired ≡ false) ⊎ (w.retired_through + 61 ≡ w.max_timestamp)

advance-IsWindow : (w : ResponseReplayWindow) (t : ℕ) → IsWindow w → IsWindow (advance w t)
unfolding advance IsWindow
advance-IsWindow w t h = ground arith

remember-IsWindow : (w : ResponseReplayWindow) (id : ℕ × ℕ) → IsWindow w → IsWindow (remember w id)
unfolding remember evict IsWindow
remember-IsWindow w id h = ground arith

accept-IsWindow : (w : ResponseReplayWindow) (s t : ℕ) → IsWindow w → IsWindow (accept w s t).0
unfolding accept
accept-IsWindow w s t h =
    ground (
      arith,
      advance-IsWindow w t h,
      remember-IsWindow (advance w t) (t, s) (advance-IsWindow w t h),
    )

is_seen-delete_seen :
    (xs : List (ℕ × ℕ)) (t s u r : ℕ)
    → is_seen xs (t, s) ≡ true
    → (is_seen (delete_seen xs (u, r)) (t, s) ≡ true) ⊎ ((t ≡ u) × (s ≡ r))
unfolding is_seen delete_seen
is_seen-delete_seen [] t s u r h = ground arith
is_seen-delete_seen ((a, b) ∷ xs) t s u r h = ground (arith, is_seen-delete_seen xs t s u r)

below_floor-drop_floors :
    (floors : List (ℕ × ℕ)) (through t s : ℕ)
    → below_floor floors t s ≡ true
    → (below_floor (drop_floors floors through) t s ≡ true) ⊎ (t ≤ through)
unfolding floor_of drop_floors
below_floor-drop_floors [] through t s h = ground arith
below_floor-drop_floors ((a, f) ∷ rest) through t s h =
    ground (arith, below_floor-drop_floors rest through t s)

floor_same : (floors : List (ℕ × ℕ)) (t u : ℕ) → t ≡ u → floor_of floors t ≡ floor_of floors u
floor_same floors t u e = ap (floor_of floors) e

below_floor-raise_floor :
    (floors : List (ℕ × ℕ)) (t s u r : ℕ)
    → (below_floor floors t s ≡ true) ⊎ ((t ≡ u) × (s ≡ r))
    → below_floor (raise_floor floors (u, r)) t s ≡ true
unfolding floor_of raise_floor
below_floor-raise_floor floors t s u r h = ground (arith, floor_same floors t u)

advance-blocked :
    (w : ResponseReplayWindow) (u s t : ℕ)
    → IsWindow w
    → blocked w s t ≡ true
    → blocked (advance w u) s t ≡ true
unfolding advance blocked IsWindow
advance-blocked w u s t h b = ground (arith, below_floor-drop_floors w.floors (u - span - 1) t s)

evict-blocked :
    (w : ResponseReplayWindow) (a c u r s t : ℕ)
    → blocked w s t ≡ true
    → blocked (evict w (a, c) (u, r)) s t ≡ true
unfolding evict blocked is_seen
evict-blocked w a c u r s t b =
    ground (arith, is_seen-delete_seen w.seen t s a c, below_floor-raise_floor w.floors t s a c)

more_seen :
    (w : ResponseReplayWindow) (u r s t : ℕ)
    → blocked w s t ≡ true
    → blocked (record w { ring = w.ring ++ (u, r) ∷ []; seen = (u, r) ∷ w.seen }) s t ≡ true
unfolding blocked is_seen
more_seen w u r s t b = ground arith

remember_two :
    (w : ResponseReplayWindow) (u r s t : ℕ)
    → blocked w s t ≡ true
    → blocked (evict w (get_or w.ring w.next (0, 0)) (u, r)) s t ≡ true
    → blocked (remember w (u, r)) s t ≡ true
unfolding remember
remember_two w u r s t b e = elim (Bool-cases (ltb (length w.ring) 2048)) [
  | inl z ↦ rw (z, remember) (more_seen w u r s t b)
  | inr z ↦ rw (z, remember) e
]

remember-blocked_self :
    (w : ResponseReplayWindow) (s t : ℕ) → blocked (remember w (t, s)) s t ≡ true
unfolding remember evict blocked is_seen
remember-blocked_self w s t = ground arith

accept-true :
    (w : ResponseReplayWindow) (s t : ℕ)
    → (accept w s t).1 ≡ true
    → (accept w s t).0 ≡ remember (advance w t) (t, s)
unfolding accept
accept-true w s t h = ground arith

blocked_cases :
    (w : ResponseReplayWindow) (s t : ℕ)
    → blocked w s t ≡ true
    → (is_seen w.seen (t, s) ≡ true) ⊎ (is_retired w t ≡ true) ⊎ (below_floor w.floors t s ≡ true)
unfolding blocked
blocked_cases w s t b = ground arith

-- A timestamp does not retire itself.
advance-retired :
    (w : ResponseReplayWindow) (t : ℕ) → is_retired (advance w t) t ≡ true → is_retired w t ≡ true
unfolding advance
advance-retired w t h = ground arith

zero-IsWindow : IsWindow zero_window
unfolding IsWindow
zero-IsWindow = inl refl

accepts-IsWindow :
    (w : ResponseReplayWindow) (rest : List (ℕ × ℕ)) → IsWindow w → IsWindow (accepts w rest)
unfolding accepts
accepts-IsWindow w [] h = h
accepts-IsWindow w ((r, u) ∷ rest) h =
    accepts-IsWindow (accept w r u).0 rest (accept-IsWindow w r u h)

remember-blocked :
    (w : ResponseReplayWindow) (u r s t : ℕ)
    → blocked w s t ≡ true
    → blocked (remember w (u, r)) s t ≡ true
remember-blocked w u r s t b =
    let evicted =
      evict-blocked w (get_or w.ring w.next (0, 0)).0 (get_or w.ring w.next (0, 0)).1 u r s t b in
    remember_two w u r s t b evicted

accept-blocked_self :
    (w : ResponseReplayWindow) (s t : ℕ)
    → (accept w s t).1 ≡ true
    → blocked (accept w s t).0 s t ≡ true
accept-blocked_self w s t h =
    ap (λ x. blocked x s t) (accept-true w s t h) ∙ remember-blocked_self (advance w t) s t

accept-blocked :
    (w : ResponseReplayWindow) (r u s t : ℕ)
    → IsWindow w
    → blocked w s t ≡ true
    → blocked (accept w r u).0 s t ≡ true
unfolding accept
accept-blocked w r u s t h b = ground (
  arith,
  b,
  advance-blocked w u s t h b,
  remember-blocked (advance w u) u r s t (advance-blocked w u s t h b),
)

accept-blocked-false :
    (w : ResponseReplayWindow) (s t : ℕ)
    → IsWindow w
    → blocked w s t ≡ true
    → (accept w s t).1 ≡ false
unfolding accept
accept-blocked-false w s t h b =
    let b' = advance-blocked w t s t h b in
    ground (arith, blocked_cases (advance w t) s t b', advance-retired w t)

accepts-blocked :
    (w : ResponseReplayWindow) (rest : List (ℕ × ℕ)) (s t : ℕ)
    → IsWindow w
    → blocked w s t ≡ true
    → (blocked (accepts w rest) s t ≡ true) × IsWindow (accepts w rest)
unfolding accepts
accepts-blocked w [] s t h b = (b, h)
accepts-blocked w ((r, u) ∷ rest) s t h b =
    accepts-blocked (accept w r u).0 rest s t (accept-IsWindow w r u h)
      (accept-blocked w r u s t h b)

-- In a window that responses led to from the empty one: a response that is accepted is refused
-- from then on, whatever other responses are offered in between.
pub accept_response_once :
    (before between : List (ℕ × ℕ)) (s t : ℕ)
    → let w = accepts zero_window before in
      (accept w s t).1 ≡ true → (accept (accepts (accept w s t).0 between) s t).1 ≡ false
accept_response_once before between s t h =
    let w = accepts zero_window before in
    let start = accepts-IsWindow zero_window before zero-IsWindow in
    let self = accept-blocked_self w s t h in
    let (b, k) = accepts-blocked (accept w s t).0 between s t (accept-IsWindow w s t start) self in
    accept-blocked-false (accepts (accept w s t).0 between) s t k b
