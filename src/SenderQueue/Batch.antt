-- ===== src/SenderQueue/Batch.antt =====
-- Taking a batch off the ring, and closing it.
use chitanda.Base.{
  ℤ, pos, negsuc, leb, ◌==◌, if◌then◌else◌, Bool-cases, length, take, drop, length-take,
  length-drop, take-add, drop-drop, ℕ, zero, suc, ◌+◌, ◌-◌, ◌≤◌, ◌<◌, min, max, ◌≡◌, refl, sym, ap,
  ◌∙◌, inl, inr, List, [], ◌∷◌, ◌++◌, arith,
}
use mathlib.Core.Path.{subst}
use chitanda.SenderQueue.{
  QueuedPacket, PacketQueue, QueueBudget, advance_head, release, settle, sort_in, Drained, drain,
  Batched, or_again, batch_rounds, batch_limit, pop_batch, chitanda_sender_max_age,
}
use chitanda.SenderQueue.Holds.{total, Holds, count-Holds, advance_head-Holds}
use chitanda.SenderQueue.Pop.{settle-Holds}

-- The packets of a list that are in time, and those that are too old.
abbrev pub in_time : ℕ → List QueuedPacket → List ℕ
in_time now [] = []
in_time now (x ∷ xs) =
    let rest = in_time now xs in
    if leb (now - x.added) chitanda_sender_max_age then x.packet ∷ rest else rest

abbrev pub too_old : ℕ → List QueuedPacket → List ℕ
too_old now [] = []
too_old now (x ∷ xs) =
    let rest = too_old now xs in
    if leb (now - x.added) chitanda_sender_max_age then rest else x.packet ∷ rest

-- The first `k` of `xs` were taken off, and both budgets given back what they counted of them.
abbrev pub Takes : ℕ → List QueuedPacket → ℕ → QueueBudget → Drained → Type 0
Takes now xs k b (q', b', batch, expired) =
    Holds q' b' (drop k xs)
    × (batch ≡ in_time now (take k xs))
    × (expired ≡ too_old now (take k xs))
    × (b'.used + total (take k xs) ≡ b.used)

sort_in-Takes :
    (now k : ℕ) (x : QueuedPacket) (xs : List QueuedPacket) (b : QueueBudget) (d : Drained)
    → x.size ≤ b.used
    → Takes now xs k (release b x.size) d
    → Takes now (x ∷ xs) (suc k) b (sort_in now x d)
sort_in-Takes now k x xs b (q', b', batch, expired) small (h, f, o, u) =
    elim (Bool-cases (leb (now - x.added) chitanda_sender_max_age)) [
      | inl e ↦ rw e (h, ap (◌∷◌ x.packet) f, o, omega (arith, u))
      | inr e ↦ rw e (h, f, ap (◌∷◌ x.packet) o, omega (arith, u))
    ]

drain-Takes :
    (now n : ℕ) (q : PacketQueue) (b : QueueBudget) (xs : List QueuedPacket)
    → n ≤ length xs
    → Holds q b xs
    → Takes now xs n b (drain n now q b)
unfolding drain
drain-Takes now zero q b xs l h = (h, refl, refl, omega arith)
drain-Takes now (suc n) q b [] l h = absurd (omega arith)
drain-Takes now (suc n) q b (x ∷ xs) l h =
    let (p, hs) = advance_head-Holds q b x xs h in
    let rest = drain-Takes now n (advance_head q) (release b x.size) xs (omega arith) hs in
    let body : QueuedPacket → Drained =
      λ item. sort_in now item (drain n now (advance_head q) (release b item.size)) in
    subst (Takes now (x ∷ xs) (suc n) b) (sym (ap body p)) (
      sort_in-Takes now n x xs b (drain n now (advance_head q) (release b x.size))
        (omega (arith, h.counted, h.bytes_are)) rest)

-- What a batch is: the packets in time of the first `k`, at most `max` of them; those too old were
-- dropped; and if there is none, the queue was emptied.
pub record Batches (now max : ℕ) (xs : List QueuedPacket) (b : QueueBudget) (r : Batched)
    : Type 0 where
  pub k : ℕ
  pub inside : k ≤ length xs
  pub left : Holds r.1 r.2 (drop k xs)
  pub batch_is : r.0 ≡ in_time now (take k xs)
  pub drops_are : r.3 ≡ too_old now (take k xs)
  pub used_is : r.2.used + total (take k xs) ≡ b.used
  pub bounded : length r.0 ≤ max
  pub emptied : r.0 ≡ [] → k ≡ length xs

length-in_time : (now : ℕ) (xs : List QueuedPacket) → length (in_time now xs) ≤ length xs
length-in_time now [] = omega arith
length-in_time now (x ∷ xs) = ground (arith, length-in_time now xs)

in_time-append :
    (now : ℕ) (xs ys : List QueuedPacket)
    → in_time now (xs ++ ys) ≡ in_time now xs ++ in_time now ys
in_time-append now [] ys = refl
in_time-append now (x ∷ xs) ys = ground (arith, in_time-append now xs ys)

too_old-append :
    (now : ℕ) (xs ys : List QueuedPacket)
    → too_old now (xs ++ ys) ≡ too_old now xs ++ too_old now ys
too_old-append now [] ys = refl
too_old-append now (x ∷ xs) ys = ground (arith, too_old-append now xs ys)

total-append : (xs ys : List QueuedPacket) → total (xs ++ ys) ≡ total xs + total ys
total-append [] ys = omega arith
total-append (x ∷ xs) ys = omega (arith, total-append xs ys)

nothing :
    (now max : ℕ) (q : PacketQueue) (b : QueueBudget) (xs : List QueuedPacket)
    → Holds q b xs
    → length xs ≡ 0
    → Batches now max xs b ([], q, b, [])
nothing now max q b xs h e = record {
  k = 0;
  inside = omega arith;
  left = h;
  batch_is = refl;
  drops_are = refl;
  used_is = omega arith;
  bounded = omega arith;
  emptied = λ f. sym e;
}

or_again-Batches :
    (now max n : ℕ) (xs : List QueuedPacket) (b : QueueBudget)
    (again : PacketQueue → QueueBudget → Batched) (d : Drained)
    → n ≤ length xs
    → n ≤ max
    → Takes now xs n b d
    → ((q' : PacketQueue) (b' : QueueBudget)
        → Holds q' b' (drop n xs)
        → Batches now max (drop n xs) b' (again q' b'))
    → Batches now max xs b (or_again again d)
or_again-Batches now max n xs b again (q, b', x ∷ batch, expired) l m (h, f, o, u) rest = record {
  k = n;
  inside = l;
  left = (settle-Holds q b' (drop n xs) h).0;
  batch_is = f;
  drops_are = o;
  used_is = u;
  bounded = omega (arith, ap length f, length-in_time now (take n xs), length-take n xs);
  emptied = λ e. absurd (omega (arith, ap length e));
}
or_again-Batches now max n xs b again (q, b', [], expired) l m (h, f, o, u) rest =
    let q2 : PacketQueue = record (settle q) { dropped = q.dropped + length expired } in
    let r = rest q2 b' (settle-Holds q b' (drop n xs) h).0 in
    let got = again q2 b' in
    let parts : take n xs ++ take r.k (drop n xs) ≡ take (n + r.k) xs = take-add n r.k xs in
    record {
      k = n + r.k;
      inside = omega (arith, l, r.inside, length-drop n xs);
      left = subst (Holds got.1 got.2) (drop-drop r.k n xs) r.left;
      batch_is =
          r.batch_is
          ∙ ap (λ t. t ++ in_time now (take r.k (drop n xs))) f
          ∙ sym (in_time-append now (take n xs) (take r.k (drop n xs)))
          ∙ ap (in_time now) parts;
      drops_are =
          ap (◌++◌ expired) r.drops_are
          ∙ ap (λ t. t ++ too_old now (take r.k (drop n xs))) o
          ∙ sym (too_old-append now (take n xs) (take r.k (drop n xs)))
          ∙ ap (too_old now) parts;
      used_is =
          omega
            (arith, u, r.used_is, ap total parts, total-append (take n xs) (take r.k (drop n xs)));
      bounded = r.bounded;
      emptied = λ e. omega (arith, r.emptied e, length-drop n xs, l);
    }

batch_rounds-Batches :
    (fuel max now : ℕ) (q : PacketQueue) (b : QueueBudget) (xs : List QueuedPacket)
    → 0 < max
    → length xs ≤ fuel
    → Holds q b xs
    → Batches now max xs b (batch_rounds fuel max now q b)
unfolding batch_rounds
batch_rounds-Batches zero max now q b xs m l h = nothing now max q b xs h (omega arith)
batch_rounds-Batches (suc fuel) max now q b xs m l h =
    let c = count-Holds q b xs h in
    let n = min q.count max in
    elim (Bool-cases (q.count == 0)) [
      | inl e ↦ rw e (nothing now max q b xs h (ground arith))
      | inr e ↦
          let some_ : 0 < q.count = ground arith in
          rw e (
            or_again-Batches now max n xs b (λ q' b'. batch_rounds fuel max now q' b')
              (drain n now q b) (omega (arith, c)) (omega arith)
              (drain-Takes now n q b xs (omega (arith, c)) h)
              (λ q' b' h'.
                batch_rounds-Batches fuel max now q' b' (drop n xs) m
                  (omega (arith, length-drop n xs, c, some_)) h'))
    ]

limit_some : (max : ℤ) → 0 < batch_limit max
limit_some (pos zero) = omega arith
limit_some (pos (suc n)) = omega arith
limit_some (negsuc n) = omega arith

-- If the ring holds a list of packets and the budgets count it, popBatch hands over the packets in
-- time of a prefix of the list, in order and at most the limit of them (32 for a limit below 1),
-- drops those of the prefix that are older than three seconds, gives back the bytes of the prefix,
-- and leaves the rest in the ring; it hands over nothing only if it emptied the queue.
pub pop_batch-Batches :
    (max : ℤ) (now : ℕ) (q : PacketQueue) (b : QueueBudget) (xs : List QueuedPacket)
    → Holds q b xs
    → Batches now (batch_limit max) xs b (pop_batch max now q b)
unfolding pop_batch
pop_batch-Batches max now q b xs h =
    batch_rounds-Batches q.count (batch_limit max) now q b xs (limit_some max)
      (omega (arith, count-Holds q b xs h)) h
