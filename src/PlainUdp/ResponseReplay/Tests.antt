-- ===== src/PlainUdp/ResponseReplay/Tests.antt =====
-- Runs of the response window, and its theorem at a concrete input.
use chitanda.Base.{◌≡◌, refl, true, false, [], ◌∷◌}
use chitanda.PlainUdp.ResponseReplay.{
  zero_window, is_seen, floor_of, drop_floors, advance, remember, accept, accepts,
}
use chitanda.PlainUdp.ResponseReplay.Laws.{accept_response_once}

fresh_accepted : (accept (accepts zero_window ((1, 100) ∷ [])) 2 100).1 ≡ true
unfolding accept accepts advance remember is_seen floor_of drop_floors
fresh_accepted = refl

accept_response_once_example :
    (accept
      (accepts (accept (accepts zero_window ((1, 100) ∷ [])) 2 100).0 ((3, 200) ∷ []))
      2
      100).1
    ≡ false
accept_response_once_example =
    accept_response_once ((1, 100) ∷ []) ((3, 200) ∷ []) 2 100 fresh_accepted
