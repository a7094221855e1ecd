-- ===== src/PlainUdp/ResponseReplay.antt =====
-- ResponseReplayWindow of internal/plainudp/response_replay.go: the responses seen of a session,
-- told apart by their timestamp and sequence number. The maps are lists; `seen` is a set of
-- (timestamp, sequence), `floors` maps a timestamp to a sequence number.
pub mod Laws
mod Tests
use chitanda.Base.{
  ltb, leb, ◌==◌, if◌then◌else◌, bytes_eq, bytes_eq→eq, bytes_eq_self, ltb→lt, lt→ltb, leb→le,
  le→leb, lt→leb, le→ltb, ==_iff, Bool-cases, Option-cases, some_inj, length, get_or, set, take,
  drop, replicate, All, All-take, All-drop, length-append, length-set, get_or-set_self,
  get_or-set_ne, length-replicate, get_or-replicate, take-append-drop, length-take, length-drop,
  take-append_exact, drop-append_exact, take-nil, take-add, drop-nil, drop-drop, All-append, ℕ,
  zero, suc, ◌+◌, ◌-◌, ◌*◌, ◌/◌, ◌%◌, ◌^◌, ◌≤◌, ◌<◌, min, max, bit_and, bit_or, bit_xor, ◌≡◌, refl,
  sym, ap, ap₂, ◌∙◌, ◌≢◌, ◌↔◌, ◌⊎◌, inl, inr, Bool, true, false, not, ◌&&◌, ◌||◌, Option, none,
  some, List, [], ◌∷◌, ◌++◌, map, append-nil, append_assoc, arith,
}

abbrev pub response_window_size : ℕ
response_window_size = 2048

-- `2 * MaxTimestampSkew / time.Second`
abbrev pub span : ℕ
span = 60

pub record ResponseReplayWindow : Type 0 where
  pub seen : List (ℕ × ℕ)
  pub ring : List (ℕ × ℕ)
  pub next : ℕ
  pub floors : List (ℕ × ℕ)
  pub max_timestamp : ℕ
  pub retired_through : ℕ
  pub has_retired : Bool

-- `var w ResponseReplayWindow`
abbrev pub zero_window : ResponseReplayWindow
zero_window = record {
  seen = [];
  ring = [];
  next = 0;
  floors = [];
  max_timestamp = 0;
  retired_through = 0;
  has_retired = false;
}

abbrev pub same_id : ℕ × ℕ → ℕ × ℕ → Bool
same_id (t, s) (u, r) = (t == u) && (s == r)

unfoldable pub is_seen : List (ℕ × ℕ) → ℕ × ℕ → Bool
is_seen [] id = false
is_seen (x ∷ xs) id = let later = is_seen xs id in same_id x id || later

unfoldable pub delete_seen : List (ℕ × ℕ) → ℕ × ℕ → List (ℕ × ℕ)
delete_seen [] id = []
delete_seen (x ∷ xs) id = let kept = delete_seen xs id in if same_id x id then kept else x ∷ kept

unfoldable pub floor_of : List (ℕ × ℕ) → ℕ → Option ℕ
floor_of [] timestamp = none
floor_of ((t, f) ∷ rest) timestamp =
    let found = floor_of rest timestamp in if t == timestamp then some f else found

-- The loop that drops the floors of retired timestamps.
unfoldable pub drop_floors : List (ℕ × ℕ) → ℕ → List (ℕ × ℕ)
drop_floors [] through = []
drop_floors ((t, f) ∷ rest) through =
    let kept = drop_floors rest through in if leb t through then kept else (t, f) ∷ kept

-- `floors[t] = max(floors[t], s)`
unfoldable pub raise_floor : List (ℕ × ℕ) → ℕ × ℕ → List (ℕ × ℕ)
raise_floor floors (t, s) = (t, elim (floor_of floors t) [ none ↦ s | some f ↦ max f s ]) ∷ floors

-- A timestamp above the highest retires those more than `span` behind it.
unfoldable pub advance : ResponseReplayWindow → ℕ → ResponseReplayWindow
advance w timestamp =
    let through = timestamp - span - 1 in
    if ltb w.max_timestamp timestamp
    then (if ltb span timestamp
        then record w {
          max_timestamp = timestamp;
          retired_through = through;
          has_retired = true;
          floors = drop_floors w.floors through;
        }
        else record w { max_timestamp = timestamp })
    else w

-- In a full ring the id takes the place of the oldest, which raises the floor of its timestamp.
unfoldable pub evict : ResponseReplayWindow → ℕ × ℕ → ℕ × ℕ → ResponseReplayWindow
evict w (t, s) id = record w {
  seen = id ∷ delete_seen w.seen (t, s);
  floors =
      if not w.has_retired || ltb w.retired_through t
      then raise_floor w.floors (t, s)
      else w.floors;
  ring = set w.ring w.next id;
  next = (w.next + 1) % response_window_size;
}

unfoldable pub remember : ResponseReplayWindow → ℕ × ℕ → ResponseReplayWindow
remember w id =
    if ltb (length w.ring) response_window_size
    then record w { ring = w.ring ++ id ∷ []; seen = id ∷ w.seen }
    else evict w (get_or w.ring w.next (0, 0)) id

abbrev pub below_floor : List (ℕ × ℕ) → ℕ → ℕ → Bool
below_floor floors timestamp sequence = elim (floor_of floors timestamp) [
  | none ↦ false
  | some f ↦ leb sequence f
]

abbrev pub is_retired : ResponseReplayWindow → ℕ → Bool
is_retired w timestamp = w.has_retired && leb timestamp w.retired_through

unfoldable pub accept : ResponseReplayWindow → ℕ → ℕ → ResponseReplayWindow × Bool
accept w sequence timestamp =
    let w' = advance w timestamp in
    if (sequence == 0) || is_retired w timestamp
    then (w, false)
    else if is_seen w'.seen (timestamp, sequence)
    then (w', false)
    else if below_floor w'.floors timestamp sequence
    then (w', false)
    else (remember w' (timestamp, sequence), true)

-- The window after more responses, each (sequence, timestamp).
unfoldable pub accepts : ResponseReplayWindow → List (ℕ × ℕ) → ResponseReplayWindow
accepts w [] = w
accepts w ((sequence, timestamp) ∷ rest) = accepts (accept w sequence timestamp).0 rest
