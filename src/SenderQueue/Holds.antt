-- ===== src/SenderQueue/Holds.antt =====
-- A ring holds a list of packets, the oldest first, and both budgets count its bytes.
use chitanda.Base.{
  ◌==◌, Bool-cases, length, get_or, set, replicate, length-append, length-set, length-replicate, ℕ,
  suc, ◌+◌, ◌-◌, ◌*◌, ◌%◌, ◌≤◌, ◌<◌, min, ◌≡◌, sym, ap, ◌∙◌, inl, inr, List, [], ◌∷◌, ◌++◌, arith,
}
use native.Mathlib.Nat.{mod-eq_of_lt, mod-lt}
use chitanda.SenderQueue.{
  QueuedPacket, no_item, window, PacketQueue, QueueBudget, oldest, advance_head, grow, put, release,
  chitanda_sender_max_flow_bytes,
}
use chitanda.SenderQueue.Ring.{length-window, window_front, window-set_end, window-advance}

abbrev pub total : List QueuedPacket → ℕ
total [] = 0
total (x ∷ xs) = x.size + total xs

-- A ring of at most 8192 slots holds `xs`; its bytes are theirs, within the flow's budget, and part
-- of what the shared budget counts, which is within its limit.
pub record HoldsIn (items : List QueuedPacket) (head count bytes : ℕ) (b : QueueBudget)
    (xs : List QueuedPacket) : Type 0 where
  pub head_in : head < length items
  pub fits : count ≤ length items
  pub small : length items ≤ 8192
  pub holds : window items head count ≡ xs
  pub bytes_are : bytes ≡ total xs
  pub in_flow : bytes ≤ chitanda_sender_max_flow_bytes
  pub counted : bytes ≤ b.used
  pub in_limit : b.used ≤ b.limit

abbrev pub Holds : PacketQueue → QueueBudget → List QueuedPacket → Type 0
Holds q b xs = HoldsIn q.items q.head q.count q.bytes b xs

pub count-Holds :
    (q : PacketQueue) (b : QueueBudget) (xs : List QueuedPacket)
    → Holds q b xs
    → q.count ≡ length xs
count-Holds q b xs h = sym (length-window q.items q.head q.count) ∙ ap length h.holds

cons_parts :
    (x y : QueuedPacket) (xs ys : List QueuedPacket) → x ∷ xs ≡ y ∷ ys → (x ≡ y) × (xs ≡ ys)
cons_parts x y xs ys h = (cc, cc)

-- The window of a ring that is not empty, cut after its first packet.
first_of_ring :
    (items : List QueuedPacket) (head n : ℕ) (x : QueuedPacket) (xs : List QueuedPacket)
    → head < length items
    → n ≡ suc (length xs)
    → window items head n ≡ x ∷ xs
    → (get_or items head no_item ≡ x) × (window items (head + 1) (length xs) ≡ xs)
first_of_ring items head n x xs a l e =
    let (p, q) = cons_parts _ x _ xs (ap (window items head) (sym l) ∙ e) in
    (ap (λ t. get_or items t no_item) (sym (mod-eq_of_lt a)) ∙ p, q)

pub advance_head-Holds :
    (q : PacketQueue) (b : QueueBudget) (x : QueuedPacket) (xs : List QueuedPacket)
    → Holds q b (x ∷ xs)
    → (oldest q ≡ x) × Holds (advance_head q) (release b x.size) xs
unfolding advance_head
advance_head-Holds q b x xs h =
    let c = length q.items in
    let n = count-Holds q b (x ∷ xs) h in
    let (p, w) = first_of_ring q.items q.head q.count x xs h.head_in n h.holds in
    let s : (oldest q).size ≡ x.size = ap (λ t. t.size) p in
    let l = length-set q.items q.head no_item in
    (
      p,
      record {
        head_in = omega (arith, mod-lt (q.head + 1) {m = c} (omega (arith, h.head_in)), l);
        fits = omega (arith, h.fits, l, n);
        small = omega (arith, h.small, l);
        holds =
            ap (window (set q.items q.head no_item) ((q.head + 1) % c)) {x = q.count - 1}
              {y = length xs} (omega (arith, n))
            ∙ window-advance q.items q.head (length xs) h.head_in (omega (arith, h.fits, n))
            ∙ w;
        bytes_are = omega (arith, h.bytes_are, s);
        in_flow = omega (arith, h.in_flow);
        counted = omega (arith, h.counted, h.bytes_are, s);
        in_limit = omega (arith, h.in_limit);
      },
    )

total-snoc : (xs : List QueuedPacket) (x : QueuedPacket) → total (xs ++ x ∷ []) ≡ total xs + x.size
total-snoc [] x = omega arith
total-snoc (y ∷ xs) x = omega (arith, total-snoc xs x)

pub put-Holds :
    (q : PacketQueue) (b : QueueBudget) (xs : List QueuedPacket) (item : QueuedPacket)
    → Holds q b xs
    → q.count < length q.items
    → q.bytes + item.size ≤ chitanda_sender_max_flow_bytes
    → b.used + item.size ≤ b.limit
    → Holds (put q item) (record b { used = b.used + item.size }) (xs ++ item ∷ [])
put-Holds q b xs item h room flow limit =
    let c = length q.items in
    let l = length-set q.items ((q.head + q.count) % c) item in
    record {
      head_in = omega (arith, h.head_in, l);
      fits = omega (arith, l);
      small = omega (arith, h.small, l);
      holds =
          ap (window (set q.items ((q.head + q.count) % c) item) q.head) {x = q.count + 1}
            {y = suc q.count} (omega arith)
          ∙ window-set_end q.items item q.head q.count h.head_in room
          ∙ ap (λ t. t ++ item ∷ []) h.holds;
      bytes_are = omega (arith, h.bytes_are, total-snoc xs item);
      in_flow = flow;
      counted = omega (arith, h.counted);
      in_limit = limit;
    }

pub grow-Holds :
    (q : PacketQueue) (b : QueueBudget) (xs : List QueuedPacket)
    → Holds q b xs
    → q.count < 8192
    → Holds (grow q) b xs × (q.count < length (grow q).items)
grow-Holds q b xs h room = elim (Bool-cases (q.count == length q.items)) [
  | inr e ↦ rw e (h, ground (arith, h.fits))
  | inl e ↦
      let w = window q.items q.head q.count in
      let capacity = min (length q.items * 2) 8192 in
      let more = replicate (capacity - q.count) no_item in
      let lw = length-window q.items q.head q.count in
      let l = length-append w more in
      let lm = length-replicate (capacity - q.count) no_item in
      let full : q.count ≡ length q.items = ground arith in
      let wide : q.count < length (w ++ more) = omega (arith, full, room, h.head_in, l, lm, lw) in
      rw e (
        record {
          head_in = omega (arith, wide);
          fits = omega (arith, wide);
          small = omega (arith, full, room, h.head_in, l, lm, lw);
          holds = ap (window (w ++ more) 0) (sym lw) ∙ window_front [] w more ∙ h.holds;
          bytes_are = h.bytes_are;
          in_flow = h.in_flow;
          counted = h.counted;
          in_limit = h.in_limit;
        },
        wide,
      )
]
