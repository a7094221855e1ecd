-- ===== src/SenderQueue/Pop.antt =====
-- A pop of the ring is a poll of the list.
use chitanda.Base.{
  ltb, leb, if◌then◌else◌, Bool-cases, length, replicate, length-replicate, ℕ, suc, ◌-◌, ◌≡◌, refl,
  sym, ap, ◌∙◌, inl, inr, Option, none, some, List, [], ◌∷◌, arith,
}
use mathlib.Core.Path.{subst}
use chitanda.SenderQueue.{
  QueuedPacket, no_item, window, PacketQueue, QueueBudget, advance_head, release, Popped, settle,
  pop_loop, after_drop, pop, chitanda_sender_max_age, chitanda_sender_initial_capacity,
}
use chitanda.SenderQueue.Holds.{Holds, count-Holds, advance_head-Holds}

pub settle-Holds :
    (q : PacketQueue) (b : QueueBudget) (xs : List QueuedPacket)
    → Holds q b xs
    → Holds (settle q) b xs × ((settle q).count ≡ q.count) × ((settle q).closed ≡ q.closed)
unfolding settle
settle-Holds q b xs h = elim (Bool-cases (ltb 0 q.count)) [
  | inl e ↦ rw e (h, refl, refl)
  | inr e ↦ elim (Bool-cases (ltb chitanda_sender_initial_capacity (length q.items))) [
    | inr f ↦ rw (e, f) (h, refl, refl)
    | inl f ↦
        let none_left : q.count ≡ 0 = ground arith in
        let l = length-replicate 32 no_item in
        rw (e, f)
          (
            record {
              head_in = omega (arith, l);
              fits = omega (arith, l, none_left);
              small = omega (arith, l);
              holds =
                  ap (window (replicate 32 no_item) 0) none_left
                  ∙ ap (window q.items q.head) (sym none_left)
                  ∙ h.holds;
              bytes_are = h.bytes_are;
              in_flow = h.in_flow;
              counted = h.counted;
              in_limit = h.in_limit;
            },
            refl,
            refl,
          )
  ]
]

-- Poll: the first packet that is not too old; those before it are dropped.
abbrev pub Polled : Type 0
Polled = Option ℕ × List QueuedPacket × QueueBudget × List ℕ

abbrev pub poll : (ℕ → ℕ) → List QueuedPacket → QueueBudget → Polled
poll clock [] b = (none, [], b, [])
poll clock (x ∷ xs) b =
    let (got, rest, b', drops) = poll clock xs (release b x.size) in
    if leb (clock (length (x ∷ xs)) - x.added) chitanda_sender_max_age
    then (some x.packet, xs, release b x.size, [])
    else (got, rest, b', x.packet ∷ drops)

abbrev pub PopAgrees : Popped → Polled → Type 0
PopAgrees (got, q, b, drops) (got', xs, b', drops') =
    (got ≡ got') × Holds q b xs × (b ≡ b') × (drops ≡ drops')

after_drop-PopAgrees :
    (packet : ℕ) (r : Popped) (p : Polled)
    → PopAgrees r p
    → PopAgrees (after_drop packet r) (p.0, p.1, p.2, packet ∷ p.3)
after_drop-PopAgrees packet (got, q, b, drops) (got', xs, b', drops') (g, h, c, d) =
    (g, h, c, ap (◌∷◌ packet) d)

pop_loop-PopAgrees :
    (clock : ℕ → ℕ) (q : PacketQueue) (b : QueueBudget) (xs : List QueuedPacket)
    → Holds q b xs
    → PopAgrees (pop_loop (length xs) clock q b) (poll clock xs b)
unfolding pop_loop
pop_loop-PopAgrees clock q b [] h = (refl, h, refl, refl)
pop_loop-PopAgrees clock q b (x ∷ xs) h =
    let (p, hs) = advance_head-Holds q b x xs h in
    let ss = (settle-Holds (advance_head q) (release b x.size) xs hs).0 in
    let n = length xs in
    let q' = settle (advance_head q) in
    let body : QueuedPacket → Popped = λ item.
      if leb (clock (suc n) - item.added) chitanda_sender_max_age
      then (some item.packet, q', release b item.size, [])
      else after_drop item.packet (pop_loop n clock q' (release b item.size)) in
    let later = pop_loop-PopAgrees clock q' (release b x.size) xs ss in
    subst (λ t. PopAgrees t (poll clock (x ∷ xs) b)) (sym (ap body p))
      (elim (Bool-cases (leb (clock (suc n) - x.added) chitanda_sender_max_age)) [
        | inl e ↦ rw e (refl, ss, refl, refl)
        | inr e ↦ rw e (
            after_drop-PopAgrees x.packet (pop_loop n clock q' (release b x.size))
              (poll clock xs (release b x.size)) later)
      ])

-- If the ring holds a list of packets and the budgets count it, pop hands over the first packet of
-- the list that is not older than three seconds when it is taken, drops those before it, gives back
-- their bytes, and the ring holds the rest.
pub pop-PopAgrees :
    (clock : ℕ → ℕ) (q : PacketQueue) (b : QueueBudget) (xs : List QueuedPacket)
    → Holds q b xs
    → PopAgrees (pop clock q b) (poll clock xs b)
unfolding pop
pop-PopAgrees clock q b xs h =
    subst (λ n. PopAgrees (pop_loop n clock q b) (poll clock xs b)) (sym (count-Holds q b xs h))
      (pop_loop-PopAgrees clock q b xs h)
