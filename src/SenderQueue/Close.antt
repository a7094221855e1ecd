-- ===== src/SenderQueue/Close.antt =====
-- Closing the ring.
use chitanda.Base.{length, ℕ, ◌+◌, ◌≡◌, refl, sym, ap, ◌∙◌, true, List, [], ◌∷◌, arith}
use mathlib.Core.Path.{subst}
use chitanda.SenderQueue.{
  QueuedPacket, PacketQueue, QueueBudget, advance_head, release, Pushed, close_loop, close_queue,
}
use chitanda.SenderQueue.Holds.{total, Holds, count-Holds, advance_head-Holds}

-- The packets in order.
abbrev pub packets : List QueuedPacket → List ℕ
packets [] = []
packets (x ∷ xs) = x.packet ∷ packets xs

-- The ring is empty and closed, every packet was dropped in order, and the budget given back.
abbrev pub Closes : List QueuedPacket → QueueBudget → Pushed → Type 0
Closes xs b (q', b', drops) =
    Holds q' b' [] × (drops ≡ packets xs) × (b'.used + total xs ≡ b.used) × (q'.closed ≡ true)

advance_head_closed : (q : PacketQueue) → (advance_head q).closed ≡ q.closed
unfolding advance_head
advance_head_closed q = refl

close_loop-Closes :
    (q : PacketQueue) (b : QueueBudget) (xs : List QueuedPacket)
    → Holds q b xs
    → q.closed ≡ true
    → Closes xs b (close_loop (length xs) q b)
unfolding close_loop
close_loop-Closes q b [] h c = (h, refl, omega arith, c)
close_loop-Closes q b (x ∷ xs) h c =
    let (p, hs) = advance_head-Holds q b x xs h in
    let (h', d, u, c') =
      close_loop-Closes (advance_head q) (release b x.size) xs hs (advance_head_closed q ∙ c) in
    let body : QueuedPacket → Pushed = λ item.
      let (q', b', drops) = close_loop (length xs) (advance_head q) (release b item.size) in
      (q', b', item.packet ∷ drops) in
    subst (Closes (x ∷ xs) b) (sym (ap body p))
      (h', ap (◌∷◌ x.packet) d, omega (arith, u, h.counted, h.bytes_are), c')

-- If the ring holds a list of packets and the budgets count it, close drops the packets in order,
-- gives their bytes back to the shared budget, and leaves the queue closed, with no packet and no
-- bytes.
pub close_queue-drops :
    (q : PacketQueue) (b : QueueBudget) (xs : List QueuedPacket)
    → Holds q b xs
    → let (q', b', drops) = close_queue q b in
      (drops ≡ packets xs)
      × (b'.used + total xs ≡ b.used)
      × (q'.closed ≡ true)
      × (q'.count ≡ 0)
      × (q'.bytes ≡ 0)
unfolding close_queue
close_queue-drops q b xs h =
    let n = count-Holds q b xs h in
    let (e, d, u, c) = close_loop-Closes (record q { closed = true }) b xs h refl in
    let same : close_loop (length xs) (record q { closed = true }) b
        ≡ close_loop q.count (record q { closed = true }) b =
      ap (λ k. close_loop k (record q { closed = true }) b) (sym n) in
    let count_is =
      count-Holds (close_loop (length xs) (record q { closed = true }) b).0
        (close_loop (length xs) (record q { closed = true }) b).1 [] e in
    subst
      (λ (r : Pushed).
        (r.2 ≡ packets xs)
        × (r.1.used + total xs ≡ b.used)
        × (r.0.closed ≡ true)
        × (r.0.count ≡ 0)
        × (r.0.bytes ≡ 0))
      same (d, u, c, count_is, e.bytes_are)
