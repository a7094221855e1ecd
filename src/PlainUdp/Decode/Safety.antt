-- ===== src/PlainUdp/Decode/Safety.antt =====
-- DecodePacketMulti: a packet goes to the first codec that takes it.
use chitanda.Base.{
  length, get_or, take, All, ℕ, suc, ◌+◌, ◌<◌, ◌≡◌, refl, sym, ap, ◌∙◌, ◌≢◌, ◌⊎◌, inl, inr, Option,
  none, some, List, [], ◌∷◌, arith,
}
use chitanda.Address.{NetText}
use chitanda.PlainUdp.Packet.{PacketError, decryption_failed, Codec}
use chitanda.PlainUdp.Decode.{
  Packet, decode_packet, Matched, or_next, decode_multi_from, decode_packet_multi,
}

-- A codec does not take the packet.
abbrev pub Refuses : NetText → List ℕ → ℕ → ℕ → Option Codec → Type 0
Refuses net packet dir now none = Unit {0}
Refuses net packet dir now (some c) = (decode_packet net c packet dir now).0 ≢ none

-- The codec at `i` takes the packet and those before it do not.
pub record IsFirst (net : NetText) (codecs : List (Option Codec)) (packet : List ℕ) (dir now i : ℕ)
    (p : Packet) : Type 0 where
  pub codec : Codec
  pub inside : i < length codecs
  pub codec_is : get_or codecs i none ≡ some codec
  pub takes : decode_packet net codec packet dir now ≡ (none, p)
  pub before : All (Refuses net packet dir now) (take i codecs)

module _ (net : NetText) (packet : List ℕ) (dir now : ℕ) where
  some_ne : (x : PacketError) → ◌≢◌ {A = Option PacketError} (some x) none
  some_ne x h = ground arith

  later-IsFirst :
      (o : Option Codec) (codecs : List (Option Codec)) (i : ℕ) (p : Packet)
      → Refuses net packet dir now o
      → IsFirst net codecs packet dir now i p
      → IsFirst net (o ∷ codecs) packet dir now (suc i) p
  later-IsFirst o codecs i p h f = record {
    codec = f.codec;
    inside = omega (arith, f.inside);
    codec_is = f.codec_is;
    takes = f.takes;
    before = (h, f.before);
  }

  -- The outcome for the codecs from `index` on: the first that takes the packet, or none does.
  abbrev Outcome : ℕ → List (Option Codec) → Matched → Type 0
  Outcome index codecs (none, p) = All (Refuses net packet dir now) codecs
  Outcome index codecs (some k, p) =
      (i : ℕ) × (k ≡ index + i) × IsFirst net codecs packet dir now i p

  skip :
      (index : ℕ) (o : Option Codec) (codecs : List (Option Codec)) (m : Matched)
      → Refuses net packet dir now o
      → Outcome (index + 1) codecs m
      → Outcome index (o ∷ codecs) m
  skip index o codecs (none, p) h out = (h, out)
  skip index o codecs (some k, p) h (i, e, f) =
      (suc i, omega (arith, e), later-IsFirst o codecs i p h f)

  one :
      (index : ℕ) (c : Codec) (codecs : List (Option Codec)) (d : Option PacketError × Packet)
      (m : Matched)
      → decode_packet net c packet dir now ≡ d
      → Outcome (index + 1) codecs m
      → Outcome index (some c ∷ codecs) (or_next index d m)
  one index c codecs (none, p) m e out = (
    0,
    omega arith,
    record { codec = c; inside = omega arith; codec_is = refl; takes = e; before = tt },
  )
  one index c codecs (some x, p) m e out =
      skip index (some c) codecs m (λ h. some_ne x (sym (ap (λ t. t.0) e) ∙ h)) out

  decode_multi_from-Outcome :
      (index : ℕ) (codecs : List (Option Codec))
      → Outcome index codecs (decode_multi_from net index codecs packet dir now)
  unfolding decode_multi_from
  decode_multi_from-Outcome index [] = tt
  decode_multi_from-Outcome index (none ∷ codecs) =
      skip index none codecs _ tt (decode_multi_from-Outcome (index + 1) codecs)
  decode_multi_from-Outcome index (some c ∷ codecs) =
      one index c codecs _ _ refl (decode_multi_from-Outcome (index + 1) codecs)

  abbrev pub Multi : List (Option Codec) → Option PacketError × Matched → Type 0
  Multi codecs (error, m) =
      ((i : ℕ) × (p : Packet) × (error ≡ none)
        × (m ≡ (some i, p))
        × IsFirst net codecs packet dir now i p)
      ⊎ ((error ≡ some decryption_failed) × All (Refuses net packet dir now) codecs)

  Outcome-Multi :
      (codecs : List (Option Codec)) (m : Matched)
      → Outcome 0 codecs m
      → Multi codecs (elim m.0 [ none ↦ some decryption_failed | some i ↦ none ], m)
  Outcome-Multi codecs (none, p) out = inr (refl, out)
  Outcome-Multi codecs (some k, p) (i, e, f) =
      inl (i, p, refl, ap (λ n. (some n, p)) {x = k} {y = i} (omega (arith, e)), f)

  -- DecodePacketMulti returns the index and the packet of the first codec that takes the packet, and
  -- fails to decrypt exactly where none takes it; nil codecs are passed over.
  pub decode_packet_multi-Multi :
      (codecs : List (Option Codec)) → Multi codecs (decode_packet_multi net codecs packet dir now)
  unfolding decode_packet_multi
  decode_packet_multi-Multi codecs =
      Outcome-Multi codecs (decode_multi_from net 0 codecs packet dir now)
        (decode_multi_from-Outcome 0 codecs)
