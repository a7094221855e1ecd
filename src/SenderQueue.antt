-- ===== src/SenderQueue.antt =====
-- chitandaPacketQueue of integration/mihomo_tunnel/chitanda_sender_queue.go: a ring that grows and
-- shrinks, with a budget of bytes for the flow and one that all flows share. A packet is a number, a
-- time is in nanoseconds, and an operation also gives the packets on which it called Drop. The code
-- lets go of its lock between two rounds of pop and of popBatch; the rounds of one call stand here
-- one right after the other, and what other calls do between them is not modelled.
pub mod Ring
pub mod Holds
pub mod Push
pub mod Pop
pub mod Batch
pub mod Close
mod Tests
use chitanda.Base.{
  ℤ, pos, negsuc, nil_of, ltb, leb, ◌==◌, if◌then◌else◌, bytes_eq, bytes_eq→eq, bytes_eq_self,
  ltb→lt, lt→ltb, leb→le, le→leb, lt→leb, le→ltb, ==_iff, Bool-cases, Option-cases, some_inj,
  length, get_or, set, take, drop, replicate, All, All-take, All-drop, slice_at, length-append,
  length-set, get_or-set_self, get_or-set_ne, length-replicate, get_or-replicate, take-append-drop,
  length-take, length-drop, take-append_exact, drop-append_exact, take-nil, take-add, drop-nil,
  drop-drop, All-append, ℕ, zero, suc, ◌+◌, ◌-◌, ◌*◌, ◌/◌, ◌%◌, ◌^◌, ◌≤◌, ◌<◌, min, max, bit_and,
  bit_or, bit_xor, ◌≡◌, refl, sym, ap, ap₂, ◌∙◌, ◌≢◌, ◌↔◌, ◌⊎◌, inl, inr, Bool, true, false, not,
  ◌&&◌, ◌||◌, Option, none, some, List, [], ◌∷◌, ◌++◌, map, append-nil, append_assoc, arith,
}

abbrev pub chitanda_sender_initial_capacity : ℕ
chitanda_sender_initial_capacity = 32

abbrev pub chitanda_sender_max_capacity : ℕ
chitanda_sender_max_capacity = 8192

abbrev pub chitanda_sender_max_age : ℕ
chitanda_sender_max_age = 3 * 10 ^ 9

abbrev pub chitanda_sender_max_flow_bytes : ℕ
chitanda_sender_max_flow_bytes = 12 * 2 ^ 20

abbrev pub chitanda_sender_global_bytes : ℕ
chitanda_sender_global_bytes = 64 * 2 ^ 20

abbrev pub chitanda_sender_packet_overhead : ℕ
chitanda_sender_packet_overhead = 128

pub record QueueBudget : Type 0 where
  pub used : ℕ
  pub limit : ℕ

-- `size > limit - used`, for numbers far below 2 ^ 63.
unfoldable pub reserve : QueueBudget → ℕ → Bool × QueueBudget
reserve b size =
    if ltb b.limit (b.used + size) then (false, b) else (true, record b { used = b.used + size })

abbrev pub release : QueueBudget → ℕ → QueueBudget
release b size = record b { used = b.used - size }

abbrev pub chitanda_packet_size : ℕ → ℕ → ℕ
chitanda_packet_size len cap = (if ltb len cap then cap else len) + chitanda_sender_packet_overhead

pub record QueuedPacket : Type 0 where
  pub packet : ℕ
  pub added : ℕ
  pub size : ℕ

abbrev pub no_item : QueuedPacket
no_item = record { packet = 0; added = 0; size = 0 }

-- `ready` holds a signal or none.
pub record PacketQueue : Type 0 where
  pub items : List QueuedPacket
  pub head : ℕ
  pub count : ℕ
  pub bytes : ℕ
  pub closed : Bool
  pub ready : Bool
  pub dropped : ℕ

abbrev pub new_chitanda_packet_queue : PacketQueue
new_chitanda_packet_queue = record {
  items = replicate chitanda_sender_initial_capacity no_item;
  head = 0;
  count = 0;
  bytes = 0;
  closed = false;
  ready = false;
  dropped = 0;
}

-- `items[i]` for `n` indices from `h` on, around the ring.
abbrev pub window : List QueuedPacket → ℕ → ℕ → List QueuedPacket
window items h zero = []
window items h (suc n) = get_or items (h % length items) no_item ∷ window items (h + 1) n

abbrev pub oldest : PacketQueue → QueuedPacket
oldest q = get_or q.items q.head no_item

-- The first packet leaves the ring.
unfoldable pub advance_head : PacketQueue → PacketQueue
advance_head q = record q {
  items = set q.items q.head no_item;
  head = (q.head + 1) % length q.items;
  count = q.count - 1;
  bytes = q.bytes - (oldest q).size;
}

abbrev pub grow : PacketQueue → PacketQueue
grow q =
    let capacity = min (length q.items * 2) chitanda_sender_max_capacity in
    if q.count == length q.items
    then record q {
      items = window q.items q.head q.count ++ replicate (capacity - q.count) no_item;
      head = 0;
    }
    else q

abbrev pub put : PacketQueue → QueuedPacket → PacketQueue
put q item = record q {
  items = set q.items ((q.head + q.count) % length q.items) item;
  count = q.count + 1;
  bytes = q.bytes + item.size;
  ready = true;
}

-- The queue, the shared budget and the packets dropped.
abbrev pub Pushed : Type 0
Pushed = PacketQueue × QueueBudget × List ℕ

abbrev pub refuse : PacketQueue → QueueBudget → List ℕ → Pushed
refuse q b drops = (record q { dropped = q.dropped + 1 }, b, drops)

abbrev pub put_reserved : PacketQueue → QueuedPacket → List ℕ → Bool × QueueBudget → Pushed
put_reserved q item expired (false, b) = refuse q b (item.packet ∷ expired)
put_reserved q item expired (true, b) = (put (grow q) item, b, expired)

-- From the test of the budgets on.
unfoldable pub admit : PacketQueue → QueueBudget → QueuedPacket → List ℕ → Pushed
admit q b item expired =
    if ltb chitanda_sender_max_flow_bytes (q.bytes + item.size)
    then refuse q b (item.packet ∷ expired)
    else put_reserved q item expired (reserve b item.size)

unfoldable pub push : PacketQueue → QueueBudget → QueuedPacket → Pushed
push q b item =
    if q.closed
    then refuse q b (item.packet ∷ [])
    else if q.count == chitanda_sender_max_capacity
    then if leb (item.added - (oldest q).added) chitanda_sender_max_age
      then refuse q b (item.packet ∷ [])
      else admit (advance_head (record q { dropped = q.dropped + 1 })) (release b (oldest q).size)
          item ((oldest q).packet ∷ [])
    else admit q b item []

-- After packets left: a signal if some are left, else a ring of the first size.
unfoldable pub settle : PacketQueue → PacketQueue
settle q =
    if ltb 0 q.count
    then record q { ready = true }
    else if ltb chitanda_sender_initial_capacity (length q.items)
    then record q { items = replicate chitanda_sender_initial_capacity no_item; head = 0 }
    else q

-- A packet, or nothing where the queue is empty; then the queue, the budget and the packets dropped.
abbrev pub Popped : Type 0
Popped = Option ℕ × PacketQueue × QueueBudget × List ℕ

abbrev pub after_drop : ℕ → Popped → Popped
after_drop packet (got, q, b, drops) =
    (got, record q { dropped = q.dropped + 1 }, b, packet ∷ drops)

-- A round takes a packet off, so `count` rounds are enough; `clock` gives the time in the round that
-- begins with that many packets.
unfoldable pub pop_loop : ℕ → (ℕ → ℕ) → PacketQueue → QueueBudget → Popped
pop_loop zero clock q b = (none, q, b, [])
pop_loop (suc n) clock q b =
    let item = oldest q in
    let q' = settle (advance_head q) in
    let b' = release b item.size in
    let rest = pop_loop n clock q' b' in
    if leb (clock (suc n) - item.added) chitanda_sender_max_age
    then (some item.packet, q', b', [])
    else after_drop item.packet rest

unfoldable pub pop : (ℕ → ℕ) → PacketQueue → QueueBudget → Popped
pop clock q b = pop_loop q.count clock q b

-- The loop of `close`.
unfoldable pub close_loop : ℕ → PacketQueue → QueueBudget → Pushed
close_loop zero q b = (q, b, [])
close_loop (suc n) q b =
    let item = oldest q in
    let (q', b', drops) = close_loop n (advance_head q) (release b item.size) in
    (q', b', item.packet ∷ drops)

unfoldable pub close_queue : PacketQueue → QueueBudget → Pushed
close_queue q b =
    let (q', b', drops) = close_loop q.count (record q { closed = true }) b in
    (record q' { items = [] }, b', drops)

-- `max <= 0` stands for 32.
abbrev pub batch_limit : ℤ → ℕ
batch_limit (pos zero) = 32
batch_limit (pos (suc n)) = suc n
batch_limit (negsuc n) = 32

-- The inner loop of `popBatch`: the packets taken, and those too old.
abbrev pub Drained : Type 0
Drained = PacketQueue × QueueBudget × List ℕ × List ℕ

abbrev pub sort_in : ℕ → QueuedPacket → Drained → Drained
sort_in now item (q, b, batch, expired) =
    if leb (now - item.added) chitanda_sender_max_age
    then (q, b, item.packet ∷ batch, expired)
    else (q, b, batch, item.packet ∷ expired)

unfoldable pub drain : ℕ → ℕ → PacketQueue → QueueBudget → Drained
drain zero now q b = (q, b, [], [])
drain (suc n) now q b =
    sort_in now (oldest q) (drain n now (advance_head q) (release b (oldest q).size))

-- The batch, the queue, the budget and the packets dropped.
abbrev pub Batched : Type 0
Batched = List ℕ × PacketQueue × QueueBudget × List ℕ

abbrev pub after_expired : List ℕ → Batched → Batched
after_expired expired (batch, q, b, drops) = (batch, q, b, expired ++ drops)

-- A round that took nothing in time is followed by another.
abbrev pub or_again : (PacketQueue → QueueBudget → Batched) → Drained → Batched
or_again again (q, b, [], expired) =
    after_expired expired (again (record (settle q) { dropped = q.dropped + length expired }) b)
or_again again (q, b, x ∷ batch, expired) =
    (x ∷ batch, record (settle q) { dropped = q.dropped + length expired }, b, expired)

-- Every round takes a packet off, so `count` rounds are enough.
unfoldable pub batch_rounds : ℕ → ℕ → ℕ → PacketQueue → QueueBudget → Batched
batch_rounds zero max now q b = ([], q, b, [])
batch_rounds (suc fuel) max now q b =
    if q.count == 0
    then ([], q, b, [])
    else or_again (λ q' b'. batch_rounds fuel max now q' b') (drain (min q.count max) now q b)

unfoldable pub pop_batch : ℤ → ℕ → PacketQueue → QueueBudget → Batched
pop_batch max now q b = batch_rounds q.count (batch_limit max) now q b
