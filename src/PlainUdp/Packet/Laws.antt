-- ===== src/PlainUdp/Packet/Laws.antt =====
-- What is written of a target.
use chitanda.Base.{
  pos, if◌then◌else◌, bytes_eq, Bool-cases, Option-cases, take, drop, ℕ, ◌+◌, ◌%◌, ◌^◌, ◌<◌, ◌≡◌,
  refl, sym, ap, ◌∙◌, ◌≢◌, ◌⊎◌, inl, inr, true, false, Option, none, some, List, [], ◌∷◌, ◌++◌,
  append_assoc, arith,
}
use chitanda.Base.Bytes.{put_be}
use chitanda.Crypto.{Aead}
use chitanda.Address.{NetText, AddressError, invalid_port, parse_port, encode_host}
use chitanda.Address.Laws.{Host, host_bytes, IsHost, Names, encode_host-Names, parse_port_pos}
use chitanda.PlainUdp.Packet.{
  PacketError, invalid_direction, header_bytes, Codec, aead_of, icmp_prefix, host_port,
  target_parts, append_parts, append_target_address, seal_packet, encode_packet,
}

-- The text of the host and the port that an address stands for.
abbrev pub Means : NetText → List ℕ → List ℕ → ℕ → Type 0
Means net address text port =
    ((bytes_eq (take 5 address) icmp_prefix ≡ true) × (text ≡ drop 5 address) × (port ≡ 0))
    ⊎ ((bytes_eq (take 5 address) icmp_prefix ≡ false)
        × ((port_text : List ℕ) × (net.split_host_port address ≡ some (text, port_text))
            × (net.atoi port_text ≡ some (pos port))
            × (0 < port)))

-- An address that was written: its host and port, and the bytes.
pub record Written (net : NetText) (address bytes : List ℕ) : Type 0 where
  pub text : List ℕ
  pub host : Host
  pub port : ℕ
  pub means : Means net address text port
  pub names : Names net text host
  pub is_host : IsHost host
  pub port_small : port < 65536
  pub bytes_are : bytes ≡ host_bytes host ++ put_be 2 port

append_parts_host :
    (net : NetText) (buf out : List ℕ) (parts : AddressError ⊎ (List ℕ × ℕ))
    → append_parts net buf parts ≡ inr out
    → (text : List ℕ) × (port : ℕ) × (h : List ℕ) × (parts ≡ inr (text, port))
      × (encode_host net text ≡ some h)
      × (out ≡ buf ++ (h ++ put_be 2 port))
append_parts_host net buf out (inl x) e = ground arith
append_parts_host net buf out (inr (text, port)) e = elim (Option-cases (encode_host net text)) [
  | inl p ↦ ground arith
  | inr (h, p) ↦ (text, port, h, refl, p, ground arith)
]

same_parts :
    (a b : List ℕ) (m n : ℕ)
    → ◌≡◌ {A = AddressError ⊎ (List ℕ × ℕ)} (inr (a, m)) (inr (b, n))
    → (a ≡ b) × (m ≡ n)
same_parts a b m n h = (cc, cc)

host_port_means :
    (net : NetText) (split : Option (List ℕ × List ℕ)) (text : List ℕ) (port : ℕ)
    → host_port net split ≡ inr (text, port)
    → (port_text : List ℕ) × (split ≡ some (text, port_text))
      × (parse_port net port_text ≡ some port)
host_port_means net none text port e = ground arith
host_port_means net (some (host, port_text)) text port e =
    elim (Option-cases (parse_port net port_text)) [
      | inl p ↦ ground arith
      | inr (k, p) ↦
          let found : ◌≡◌ {A = AddressError ⊎ (List ℕ × ℕ)} (inr (host, k)) (inr (text, port)) =
            sym (ap (λ o. elim o [ none ↦ inl invalid_port | some k ↦ inr (host, k) ]) p) ∙ e in
          let (h, m) = same_parts host text k port found in
          (port_text, ap (λ t. some (t, port_text)) h, p ∙ ap some m)
    ]

target_parts-Means :
    (net : NetText) (address text : List ℕ) (port : ℕ)
    → target_parts net address ≡ inr (text, port)
    → Means net address text port × (port < 65536)
target_parts-Means net address text port e =
    elim (Bool-cases (bytes_eq (take 5 address) icmp_prefix)) [
      | inl b ↦
          let found : ◌≡◌ {A = AddressError ⊎ (List ℕ × ℕ)} (inr (drop 5 address, 0))
              (inr (text, port)) =
            sym (
              ap
                (λ t.
                  if t
                  then inr (drop 5 address, 0)
                  else host_port net (net.split_host_port address))
                b)
            ∙ e in
          let (h, m) = same_parts (drop 5 address) text 0 port found in
          (inl (b, sym h, sym m), omega (arith, m))
      | inr b ↦
          let (port_text, sp, pp) = host_port_means net (net.split_host_port address) text port (
            sym (
              ap
                (λ t.
                  if t
                  then inr (drop 5 address, 0)
                  else host_port net (net.split_host_port address))
                b)
            ∙ e) in
          let (at, some_, small) = parse_port_pos net port_text port pp in
          (inr (b, (port_text, sp, at, some_)), small)
    ]

-- What append_target_address adds.
pub append_target_address-Written :
    (net : NetText) (buf address out : List ℕ)
    → append_target_address net buf address ≡ inr out
    → (bytes : List ℕ) × (out ≡ buf ++ bytes) × Written net address bytes
unfolding append_target_address
append_target_address-Written net buf address out e =
    let (text, port, h, parts, eh, eo) =
      append_parts_host net buf out (target_parts net address) e in
    let (m, small) = target_parts-Means net address text port parts in
    let (host, nm, ih, eb) = encode_host-Names net text h eh in
    (
      h ++ put_be 2 port,
      eo,
      record {
        text = text;
        host = host;
        port = port;
        means = m;
        names = nm;
        is_host = ih;
        port_small = small;
        bytes_are = ap (λ t. t ++ put_be 2 port) eb;
      },
    )

right_of : (a b : List ℕ) → ◌≡◌ {A = PacketError ⊎ List ℕ} (inr a) (inr b) → b ≡ a
right_of a b h = cc

not_right : (x : PacketError) (b : List ℕ) → ◌≢◌ {A = PacketError ⊎ List ℕ} (inl x) (inr b)
not_right x b h = ground arith

-- What is sealed under the AEAD of the direction, if there is one.
abbrev sealed_under : ℕ → List ℕ → List ℕ → Option Aead → PacketError ⊎ List ℕ
sealed_under dir nonce plaintext none = inl invalid_direction
sealed_under dir nonce plaintext (some a) = inr (nonce ++ a.seal nonce plaintext (dir ∷ []))

seal_packet_parts :
    (c : Codec) (dir : ℕ) (payload packet nonce : List ℕ) (target : AddressError ⊎ List ℕ)
    → seal_packet c [] dir payload (some nonce) target ≡ inr packet
    → (out : List ℕ) × (a : Aead) × (target ≡ inr out)
      × (aead_of c dir ≡ some a)
      × (packet ≡ nonce ++ a.seal nonce (out ++ payload) (dir ∷ []))
seal_packet_parts c dir payload packet nonce (inl x) e = ground arith
seal_packet_parts c dir payload packet nonce (inr out) e = elim (Option-cases (aead_of c dir)) [
  | inl p ↦ absurd (
      not_right invalid_direction packet (sym (ap (sealed_under dir nonce (out ++ payload)) p) ∙ e))
  | inr (a, p) ↦ (
    out,
    a,
    refl,
    p,
    right_of _ packet (sym (ap (sealed_under dir nonce (out ++ payload)) p) ∙ e),
  )
]

-- A packet that EncodePacket made, in its parts.
pub record Sealed (net : NetText) (c : Codec) (dir session_id now : ℕ)
    (target payload nonce packet : List ℕ) : Type 0 where
  pub bytes : List ℕ
  pub aead : Aead
  pub written : Written net target bytes
  pub aead_is : aead_of c dir ≡ some aead
  pub packet_is :
      packet
      ≡ nonce
        ++ aead.seal nonce
            (header_bytes now ((c.sequence + 1) % 2 ^ 64) session_id ++ (bytes ++ payload))
            (dir ∷ [])

pub encode_packet-Sealed :
    (net : NetText) (c : Codec) (dir session_id now : ℕ) (target payload nonce packet : List ℕ)
    → (encode_packet net c [] dir session_id target payload now (some nonce)).0 ≡ inr packet
    → Sealed net c dir session_id now target payload nonce packet
unfolding encode_packet
encode_packet-Sealed net c dir session_id now target payload nonce packet e =
    let head = header_bytes now ((c.sequence + 1) % 2 ^ 64) session_id in
    let (out, a, t, ai, pk) =
      seal_packet_parts c dir payload packet nonce (append_target_address net head target) e in
    let (bytes, o, w) = append_target_address-Written net head target out t in
    record {
      bytes = bytes;
      aead = a;
      written = w;
      aead_is = ai;
      packet_is =
          pk
          ∙ ap (λ t. nonce ++ a.seal nonce t (dir ∷ []))
              (ap (λ t. t ++ payload) o ∙ append_assoc head bytes payload);
    }
