-- ===== src/PlainUdp/Decode/Window.antt =====
-- DecodePacket of one packet at two times.
use chitanda.Base.{
  ltb, if◌then◌else◌, length, take, drop, ℕ, ◌+◌, ◌^◌, ◌≤◌, ◌<◌, ◌≡◌, refl, sym, ap, ◌∙◌, ◌≢◌, ◌⊎◌,
  inl, inr, Bool, true, false, not, Option, none, some, some_inj, List, [], ◌∷◌, arith,
}
use chitanda.Base.Bytes.{uint_be}
use chitanda.Crypto.{Aead}
use chitanda.Address.{NetText}
use chitanda.PlainUdp.Packet.{PacketError, Codec, aead_of}
use mathlib.Core.Path.{subst}
use chitanda.PlainUdp.Decode.Laws.{AreClose}
use chitanda.PlainUdp.Decode.{
  decode_target_address, Packet, is_recent, with_target, decode_plaintext, after_decrypt,
  opened_under, decode_packet,
}

-- The plaintext of a packet that was accepted: long enough, and in the fields of `p`.
abbrev pub Says : NetText → List ℕ → Packet → Type 0
Says net plaintext p =
    (24 ≤ length plaintext)
    × (p.timestamp ≡ uint_be (take 8 plaintext))
    × (p.sequence ≡ uint_be (take 8 (drop 8 plaintext)))
    × (p.session_id ≡ uint_be (take 8 (drop 16 plaintext)))
    × (decode_target_address net (drop 24 plaintext) ≡ inr (p.target, p.payload))

-- It opened under the AEAD of the direction, with the direction as additional data.
pub record IsAuthentic (net : NetText) (c : Codec) (packet : List ℕ) (dir : ℕ) (p : Packet)
    : Type 0 where
  pub aead : Aead
  pub plaintext : List ℕ
  pub aead_is : aead_of c dir ≡ some aead
  pub opens : aead.open_ (take 24 packet) (drop 24 packet) (dir ∷ []) ≡ some plaintext
  pub says : Says net plaintext p

failed_ne :
    (e : PacketError) (q p : Packet) → ◌≢◌ {A = Option PacketError × Packet} (some e, q) (none, p)
failed_ne e q p h = ground arith

same_packet : (q p : Packet) → ◌≡◌ {A = Option PacketError × Packet} (none, q) (none, p) → q ≡ p
same_packet q p h = cc

-- A guard that was passed.
passed :
    (b : Bool) (e : PacketError) (q p : Packet) (r : Option PacketError × Packet)
    → (if b then (some e, q) else r) ≡ (none, p)
    → (b ≡ false) × (r ≡ (none, p))
passed true e q p r h = absurd (failed_ne e q p h)
passed false e q p r h = (refl, h)

with_target_fields :
    (q p : Packet) (found : PacketError ⊎ (List ℕ × List ℕ))
    → with_target q found ≡ (none, p)
    → (found ≡ inr (p.target, p.payload))
      × (p.timestamp ≡ q.timestamp)
      × (p.sequence ≡ q.sequence)
      × (p.session_id ≡ q.session_id)
with_target_fields q p (inl e) h = ground arith
with_target_fields q p (inr (target, payload)) h =
    let e = same_packet (record q { target = target; payload = payload }) p h in
    (
      ap (λ (t : Packet). inr (t.target, t.payload)) e,
      sym (ap (λ t. t.timestamp) e),
      sym (ap (λ t. t.sequence) e),
      sym (ap (λ t. t.session_id) e),
    )

true_of_not : (b : Bool) → not b ≡ false → b ≡ true
true_of_not true h = refl
true_of_not false h = ground arith

-- Of the test of the clock: 30 seconds, where neither side wraps.
is_recent-AreClose :
    (now timestamp : ℕ)
    → 30 ≤ now
    → now + 30 < 2 ^ 64
    → timestamp < 2 ^ 64
    → is_recent now timestamp ≡ true
    → AreClose now timestamp
unfolding is_recent
is_recent-AreClose now timestamp a b c h = ground arith

decode_plaintext-Says :
    (net : NetText) (now : ℕ) (plaintext : List ℕ) (p : Packet)
    → decode_plaintext net now plaintext ≡ (none, p)
    → Says net plaintext p × (is_recent now p.timestamp ≡ true)
unfolding decode_plaintext
decode_plaintext-Says net now plaintext p h =
    let (long, h1) = passed (ltb (length plaintext) 24) _ _ p _ h in
    let (recent, h2) = passed (not (is_recent now (uint_be (take 8 plaintext)))) _ _ p _ h1 in
    let (target, t, s, i) =
      with_target_fields _ p (decode_target_address net (drop 24 plaintext)) h2 in
    ((ground arith, t, s, i, target), ap (is_recent now) t ∙ true_of_not _ recent)

after_decrypt-Says :
    (net : NetText) (now : ℕ) (o : Option (List ℕ)) (p : Packet)
    → after_decrypt net now o ≡ (none, p)
    → (plaintext : List ℕ) × (o ≡ some plaintext)
      × Says net plaintext p
      × (is_recent now p.timestamp ≡ true)
after_decrypt-Says net now none p h = ground arith
after_decrypt-Says net now (some plaintext) p h =
    let (says, recent) = decode_plaintext-Says net now plaintext p h in
    (plaintext, refl, says, recent)

opened_under-IsAuthentic :
    (net : NetText) (c : Codec) (packet : List ℕ) (dir now : ℕ) (p : Packet) (o : Option Aead)
    → aead_of c dir ≡ o
    → opened_under net packet dir now o ≡ (none, p)
    → IsAuthentic net c packet dir p × (is_recent now p.timestamp ≡ true)
opened_under-IsAuthentic net c packet dir now p none e h = ground arith
opened_under-IsAuthentic net c packet dir now p (some a) e h =
    let (plaintext, o, s, recent) = after_decrypt-Says net now _ p h in
    (record { aead = a; plaintext = plaintext; aead_is = e; opens = o; says = s }, recent)

not_short :
    (net : NetText) (c : Codec) (packet : List ℕ) (dir now : ℕ) (p : Packet)
    → decode_packet net c packet dir now ≡ (none, p)
    → opened_under net packet dir now (aead_of c dir) ≡ (none, p)
unfolding decode_packet
not_short net c packet dir now p h = (passed (ltb (length packet) 65) _ _ p _ h).1

accepted-IsAuthentic :
    (net : NetText) (c : Codec) (packet : List ℕ) (dir now : ℕ) (p : Packet)
    → decode_packet net c packet dir now ≡ (none, p)
    → IsAuthentic net c packet dir p × (is_recent now p.timestamp ≡ true)
accepted-IsAuthentic net c packet dir now p h =
    opened_under-IsAuthentic net c packet dir now p (aead_of c dir) refl
      (not_short net c packet dir now p h)

same_content :
    (a b : List ℕ × List ℕ) → ◌≡◌ {A = PacketError ⊎ (List ℕ × List ℕ)} (inr a) (inr b) → a ≡ b
same_content a b h = cc

-- One plaintext says one packet.
Says-unique :
    (net : NetText) (plaintext : List ℕ) (p q : Packet)
    → Says net plaintext p
    → Says net plaintext q
    → p ≡ q
Says-unique net plaintext p q (_, t, s, i, target) (_, t', s', i', target') =
    let e = same_content (p.target, p.payload) (q.target, q.payload) (sym target ∙ target') in
    let t2 : p.timestamp ≡ q.timestamp = t ∙ sym t' in
    let s2 : p.sequence ≡ q.sequence = s ∙ sym s' in
    let i2 : p.session_id ≡ q.session_id = i ∙ sym i' in
    λ k. record {
      session_id = i2 k;
      target = (e k).0;
      payload = (e k).1;
      timestamp = t2 k;
      sequence = s2 k;
    }

same_plaintext :
    (net : NetText) (c : Codec) (packet : List ℕ) (dir : ℕ) (p q : Packet)
    (a : IsAuthentic net c packet dir p) (b : IsAuthentic net c packet dir q)
    → a.plaintext ≡ b.plaintext
same_plaintext net c packet dir p q a b =
    let aead : a.aead ≡ b.aead = some_inj (sym a.aead_is ∙ b.aead_is) in
    some_inj (
      sym a.opens
      ∙ ap (λ (k : Aead). k.open_ (take 24 packet) (drop 24 packet) (dir ∷ [])) aead
      ∙ b.opens)

-- A packet that DecodePacket accepts at two times, by clocks from 30 to 2 ^ 64 - 31 seconds, opened
-- under the AEAD of the expected direction with that direction authenticated, and gives the same
-- session, sequence number, timestamp, target and payload both times, which are those of its
-- plaintext; its timestamp, below 2 ^ 64, is at most 30 seconds from either clock, so that the later
-- time is at most 60 seconds after the earlier.
pub decode_packet_window :
    (net : NetText) (c : Codec) (packet : List ℕ) (dir now later : ℕ) (p q : Packet)
    → 30 ≤ now
    → now + 30 < 2 ^ 64
    → 30 ≤ later
    → later + 30 < 2 ^ 64
    → p.timestamp < 2 ^ 64
    → decode_packet net c packet dir now ≡ (none, p)
    → decode_packet net c packet dir later ≡ (none, q)
    → IsAuthentic net c packet dir p
      × (p ≡ q)
      × AreClose now p.timestamp
      × AreClose later p.timestamp
      × (later ≤ now + 60)
decode_packet_window net c packet dir now later p q n0 n1 l0 l1 small h k =
    let (a, recent) = accepted-IsAuthentic net c packet dir now p h in
    let (b, recent') = accepted-IsAuthentic net c packet dir later q k in
    let says' = subst (λ t. Says net t q) (sym (same_plaintext net c packet dir p q a b)) b.says in
    let same = Says-unique net a.plaintext p q a.says says' in
    let near = is_recent-AreClose now p.timestamp n0 n1 small recent in
    let near' =
      is_recent-AreClose later p.timestamp l0 l1 small
        (ap (λ (t : Packet). is_recent later t.timestamp) same ∙ recent') in
    (a, same, near, near', omega arith)
