-- ===== src/SenderQueue/Push.antt =====
-- A push on the ring is an offer to the list.
use chitanda.Base.{
  ltb, leb, ◌==◌, if◌then◌else◌, Bool-cases, length, ℕ, ◌+◌, ◌-◌, ◌≤◌, ◌<◌, ◌≡◌, refl, sym, ap, ◌∙◌,
  inl, inr, true, false, ◌||◌, List, [], ◌∷◌, ◌++◌, arith,
}
use mathlib.Core.Path.{subst}
use chitanda.SenderQueue.{
  QueuedPacket, PacketQueue, QueueBudget, oldest, advance_head, grow, put, reserve, release, refuse,
  admit, push, Pushed, chitanda_sender_max_capacity, chitanda_sender_max_flow_bytes,
  chitanda_sender_max_age,
}
use chitanda.SenderQueue.Holds.{
  total, Holds, count-Holds, advance_head-Holds, put-Holds, grow-Holds,
}

-- The contract: a list of packets, the oldest first, and the shared budget.
abbrev pub Offered : Type 0
Offered = List QueuedPacket × QueueBudget × List ℕ

abbrev pub add_within : List QueuedPacket → QueueBudget → QueuedPacket → List ℕ → Offered
add_within xs b item expired =
    if ltb chitanda_sender_max_flow_bytes (total xs + item.size) || ltb b.limit (b.used + item.size)
    then (xs, b, item.packet ∷ expired)
    else (xs ++ item ∷ [], record b { used = b.used + item.size }, expired)

-- A full queue gives up its oldest packet if that is too old, and else refuses.
abbrev pub offer : List QueuedPacket → QueueBudget → QueuedPacket → Offered
offer [] b item = add_within [] b item []
offer (x ∷ xs) b item =
    if length (x ∷ xs) == chitanda_sender_max_capacity
    then if leb (item.added - x.added) chitanda_sender_max_age
      then (x ∷ xs, b, item.packet ∷ [])
      else add_within xs (release b x.size) item (x.packet ∷ [])
    else add_within (x ∷ xs) b item []

-- The ring and the list after the same push.
abbrev pub Agrees : Pushed → Offered → Type 0
Agrees (q, b, drops) (xs, b', drops') =
    Holds q b xs × (b ≡ b') × (drops ≡ drops') × (q.closed ≡ false)

ltb→le_false : (m n : ℕ) → ltb n m ≡ false → m ≤ n
ltb→le_false m n h = ground arith

closed_grown : (q : PacketQueue) → q.closed ≡ false → (grow q).closed ≡ false
closed_grown q o = elim (Bool-cases (q.count == length q.items)) [ inl e ↦ rw e o | inr e ↦ rw e o ]

count_grown : (q : PacketQueue) → ((grow q).count ≡ q.count) × ((grow q).bytes ≡ q.bytes)
count_grown q = elim (Bool-cases (q.count == length q.items)) [
  | inl e ↦ rw e (refl, refl)
  | inr e ↦ rw e (refl, refl)
]

put_grown :
    (q : PacketQueue) (b : QueueBudget) (xs : List QueuedPacket) (item : QueuedPacket)
    → Holds (grow q) b xs
    → q.count < length (grow q).items
    → q.bytes + item.size ≤ chitanda_sender_max_flow_bytes
    → b.used + item.size ≤ b.limit
    → Holds (put (grow q) item) (record b { used = b.used + item.size }) (xs ++ item ∷ [])
put_grown q b xs item g wide within under =
    let (c, d) = count_grown q in
    put-Holds (grow q) b xs item g (omega (arith, c, wide)) (omega (arith, d, within)) under

admit-Agrees :
    (q : PacketQueue) (b : QueueBudget) (xs : List QueuedPacket) (item : QueuedPacket)
    (expired : List ℕ)
    → Holds q b xs
    → q.count < 8192
    → q.closed ≡ false
    → Agrees (admit q b item expired) (add_within xs b item expired)
unfolding admit reserve
admit-Agrees q b xs item expired h room o =
    let flow = chitanda_sender_max_flow_bytes in
    let same : ltb flow (q.bytes + item.size) ≡ ltb flow (total xs + item.size) =
      ap (λ n. ltb flow (n + item.size)) h.bytes_are in
    elim (Bool-cases (ltb flow (total xs + item.size))) [
      | inl e ↦ rw (same ∙ e, e) (h, refl, refl, o)
      | inr e ↦ elim (Bool-cases (ltb b.limit (b.used + item.size))) [
        | inl f ↦ rw (same ∙ e, e, f) (h, refl, refl, o)
        | inr f ↦
            let (g, wide) = grow-Holds q b xs h room in
            let within : q.bytes + item.size ≤ flow =
              ltb→le_false (q.bytes + item.size) flow (same ∙ e) in
            let under : b.used + item.size ≤ b.limit =
              ltb→le_false (b.used + item.size) b.limit f in
            rw (same ∙ e, e, f)
              (put_grown q b xs item g wide within under, refl, refl, closed_grown q o)
      ]
    ]

no_full : (n : ℕ) → n < 8192 → (n == 8192) ≡ false
no_full n h = ground arith

push_room :
    (q : PacketQueue) (b : QueueBudget) (item : QueuedPacket)
    → q.closed ≡ false
    → q.count < 8192
    → push q b item ≡ admit q b item []
unfolding push
push_room q b item o h = ground arith

push_young :
    (q : PacketQueue) (b : QueueBudget) (item : QueuedPacket)
    → q.closed ≡ false
    → q.count ≡ 8192
    → leb (item.added - (oldest q).added) chitanda_sender_max_age ≡ true
    → push q b item ≡ refuse q b (item.packet ∷ [])
unfolding push
push_young q b item o h e = ground arith

push_old :
    (q : PacketQueue) (b : QueueBudget) (item : QueuedPacket)
    → q.closed ≡ false
    → q.count ≡ 8192
    → leb (item.added - (oldest q).added) chitanda_sender_max_age ≡ false
    → push q b item
      ≡ admit
          (advance_head (record q { dropped = q.dropped + 1 }))
          (release b (oldest q).size)
          item
          ((oldest q).packet ∷ [])
unfolding push
push_old q b item o h e = ground arith

advance_head-closed :
    (q : PacketQueue) (b : QueueBudget) (x : QueuedPacket) (xs : List QueuedPacket)
    → Holds q b (x ∷ xs)
    → ((advance_head q).closed ≡ q.closed) × ((advance_head q).count ≡ length xs)
unfolding advance_head
advance_head-closed q b x xs h = (refl, omega (arith, count-Holds q b (x ∷ xs) h))

push_full :
    (q : PacketQueue) (b : QueueBudget) (x : QueuedPacket) (xs : List QueuedPacket)
    (item : QueuedPacket)
    → Holds q b (x ∷ xs)
    → q.closed ≡ false
    → q.count ≡ 8192
    → Agrees (push q b item) (
        if leb (item.added - x.added) chitanda_sender_max_age
        then (x ∷ xs, b, item.packet ∷ [])
        else add_within xs (release b x.size) item (x.packet ∷ []))
push_full q b x xs item h o n =
    let p = (advance_head-Holds q b x xs h).0 in
    let age : leb (item.added - (oldest q).added) chitanda_sender_max_age
        ≡ leb (item.added - x.added) chitanda_sender_max_age =
      ap (λ (t : QueuedPacket). leb (item.added - t.added) chitanda_sender_max_age) p in
    elim (Bool-cases (leb (item.added - x.added) chitanda_sender_max_age)) [
      | inl e ↦ rw e (
          subst (λ t. Agrees t (x ∷ xs, b, item.packet ∷ []))
            (sym (push_young q b item o n (age ∙ e))) (h, refl, refl, o))
      | inr e ↦
          let q1 : PacketQueue = record q { dropped = q.dropped + 1 } in
          let (cl, ct) = advance_head-closed q1 b x xs h in
          let taken : push q b item
              ≡ admit (advance_head q1) (release b x.size) item (x.packet ∷ []) =
            push_old q b item o n (age ∙ e)
            ∙ ap
                (λ (t : QueuedPacket).
                  admit (advance_head q1) (release b t.size) item (t.packet ∷ []))
                p in
          rw e (
            subst (λ t. Agrees t (add_within xs (release b x.size) item (x.packet ∷ [])))
              (sym taken)
              (admit-Agrees (advance_head q1) (release b x.size) xs item (x.packet ∷ [])
                (advance_head-Holds q1 b x xs h).1
                (omega (arith, ct, n, count-Holds q b (x ∷ xs) h)) (cl ∙ o)))
    ]

-- If an open ring holds a list of packets and the budgets count it, push does to it what an offer
-- does to the list: the same packets are held and dropped, the shared budget is the same, and the
-- ring holds the new list within both budgets.
pub push-Agrees :
    (q : PacketQueue) (b : QueueBudget) (xs : List QueuedPacket) (item : QueuedPacket)
    → Holds q b xs
    → q.closed ≡ false
    → Agrees (push q b item) (offer xs b item)
push-Agrees q b [] item h o =
    let empty : q.count ≡ 0 = count-Holds q b [] h in
    subst (λ t. Agrees t (offer [] b item)) (sym (push_room q b item o (omega arith)))
      (admit-Agrees q b [] item [] h (omega arith) o)
push-Agrees q b (x ∷ xs) item h o =
    let n : q.count ≡ length (x ∷ xs) = count-Holds q b (x ∷ xs) h in
    elim (Bool-cases (length (x ∷ xs) == 8192)) [
      | inr e ↦
          let room : q.count < 8192 = ground (arith, h.fits, h.small) in
          rw e (
            subst (λ t. Agrees t (add_within (x ∷ xs) b item [])) (sym (push_room q b item o room))
              (admit-Agrees q b (x ∷ xs) item [] h room o))
      | inl e ↦ rw e (push_full q b x xs item h o (ground arith))
    ]
