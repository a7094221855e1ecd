-- ===== src/SenderQueue/Tests.antt =====
-- Runs of the queue, and its theorems at concrete inputs.
use chitanda.Base.{◌≡◌, ◌+◌, pos, true, replicate, refl, [], ◌∷◌, ◌++◌, arith}
use chitanda.SenderQueue.{
  QueuedPacket, QueueBudget, PacketQueue, new_chitanda_packet_queue, no_item, push, pop, pop_batch,
  close_queue,
}
use chitanda.SenderQueue.Holds.{Holds}
use chitanda.SenderQueue.Batch.{Batches, pop_batch-Batches}
use chitanda.SenderQueue.Close.{close_queue-drops}
use chitanda.SenderQueue.Push.{offer, Agrees, push-Agrees}
use chitanda.SenderQueue.Pop.{poll, PopAgrees, pop-PopAgrees}

abbrev shared : QueueBudget
shared = record { used = 1000; limit = 2000 }

abbrev first_packet : QueuedPacket
first_packet = record { packet = 7; added = 5; size = 200 }

abbrev second_packet : QueuedPacket
second_packet = record { packet = 8; added = 4000000000; size = 300 }

new_queue-Holds : Holds new_chitanda_packet_queue shared []
new_queue-Holds = record {
  head_in = omega arith;
  fits = omega arith;
  small = omega arith;
  holds = refl;
  bytes_are = refl;
  in_flow = omega arith;
  counted = omega arith;
  in_limit = omega arith;
}

push-Agrees_example :
    Agrees (push new_chitanda_packet_queue shared first_packet) (offer [] shared first_packet)
push-Agrees_example =
    push-Agrees new_chitanda_packet_queue shared [] first_packet new_queue-Holds refl

-- A ring that has come around: two packets in the slots 31 and 0.
abbrev turned : PacketQueue
turned = record new_chitanda_packet_queue {
  items = second_packet ∷ (replicate 30 no_item ++ first_packet ∷ []);
  head = 31;
  count = 2;
  bytes = 500;
}

turned-Holds : Holds turned shared (first_packet ∷ second_packet ∷ [])
turned-Holds = record {
  head_in = omega arith;
  fits = omega arith;
  small = omega arith;
  holds = refl;
  bytes_are = refl;
  in_flow = omega arith;
  counted = omega arith;
  in_limit = omega arith;
}

-- At five seconds the first packet is too old.
pop-PopAgrees_example :
    PopAgrees
      (pop (λ n. 5000000000) turned shared)
      (poll (λ n. 5000000000) (first_packet ∷ second_packet ∷ []) shared)
pop-PopAgrees_example =
    pop-PopAgrees (λ n. 5000000000) turned shared (first_packet ∷ second_packet ∷ []) turned-Holds

pop_batch-Batches_example :
    Batches 5000000000 32
      (first_packet ∷ second_packet ∷ [])
      shared
      (pop_batch (pos 0) 5000000000 turned shared)
pop_batch-Batches_example =
    pop_batch-Batches (pos 0) 5000000000 turned shared (first_packet ∷ second_packet ∷ [])
      turned-Holds

close_queue-drops_example :
    let (q, b, drops) = close_queue turned shared in
    (drops ≡ 7 ∷ 8 ∷ []) × (b.used + 500 ≡ 1000) × (q.closed ≡ true) × (q.count ≡ 0) × (q.bytes ≡ 0)
close_queue-drops_example =
    close_queue-drops turned shared (first_packet ∷ second_packet ∷ []) turned-Holds
