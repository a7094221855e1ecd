-- ===== src/Address/Laws.antt =====
-- What an encoded address says, without the code.
use chitanda.Base.{
  pos, negsuc, Option-cases, length, ℕ, ◌%◌, ◌<◌, ◌≡◌, refl, ap, ◌∙◌, inl, inr, none, some, List,
  ◌∷◌, ◌++◌, arith,
}
use chitanda.Base.Bytes.{put_be}
use chitanda.Address.{
  NetText, parse_port, encode_host, encode_parts, encode_host_port, encode_address,
}

pub data Host : Type 0 where
  v4 v6 name : List ℕ → Host

abbrev pub host_bytes : Host → List ℕ
host_bytes (v4 b) = 1 ∷ b
host_bytes (v6 b) = 4 ∷ b
host_bytes (name b) = 3 ∷ (length b ∷ b)

abbrev pub IsHost : Host → Type 0
IsHost (v4 b) = length b ≡ 4
IsHost (v6 b) = length b ≡ 16
IsHost (name b) = (0 < length b) × (length b < 256)

-- The host as a decoder prints it.
abbrev pub host_text : NetText → Host → List ℕ
host_text net (v4 b) = net.ip_text b
host_text net (v6 b) = net.ip_text b
host_text net (name b) = b

-- A text names a host: the address it parses to, in 4 bytes if it has such a form, or itself.
abbrev pub Names : NetText → List ℕ → Host → Type 0
Names net text (v4 b) = (ip : List ℕ) × (net.parse_ip text ≡ some ip) × (net.to4 ip ≡ some b)
Names net text (v6 b) =
    (ip : List ℕ) × (net.parse_ip text ≡ some ip) × (net.to4 ip ≡ none) × (b ≡ net.to16 ip)
Names net text (name b) = (net.parse_ip text ≡ none) × (b ≡ text)

low_byte : (n : ℕ) (b : List ℕ) → n < 256 → 3 ∷ (n % 256 ∷ b) ≡ 3 ∷ (n ∷ b)
low_byte n b h = ap (λ t. 3 ∷ (t ∷ b)) {x = n % 256} {y = n} (omega arith)

encode_host-name :
    (net : NetText) (text bytes : List ℕ)
    → net.parse_ip text ≡ none
    → encode_host net text ≡ some bytes
    → (0 < length text) × (length text < 256) × (bytes ≡ 3 ∷ (length text % 256 ∷ text))
unfolding encode_host
encode_host-name net text bytes p e = ground arith

encode_host-ip :
    (net : NetText) (text bytes ip : List ℕ)
    → net.parse_ip text ≡ some ip
    → encode_host net text ≡ some bytes
    → ((v : List ℕ) → net.to4 ip ≡ some v → bytes ≡ 1 ∷ v)
      × (net.to4 ip ≡ none → bytes ≡ 4 ∷ net.to16 ip)
unfolding encode_host
encode_host-ip net text bytes ip p e = (λ v q. ground arith, λ q. ground arith)

pub encode_host-Names :
    (net : NetText) (text bytes : List ℕ)
    → encode_host net text ≡ some bytes
    → (h : Host) × Names net text h × IsHost h × (bytes ≡ host_bytes h)
encode_host-Names net text bytes e = elim (Option-cases (net.parse_ip text)) [
  | inl p ↦
      let (some_, short, e') = encode_host-name net text bytes p e in
      (name text, (p, refl), (some_, short), e' ∙ low_byte (length text) text short)
  | inr (ip, p) ↦ elim (Option-cases (net.to4 ip)) [
    | inl q ↦ (
      v6 (net.to16 ip),
      (ip, p, q, refl),
      net.length-to16 text ip p,
      (encode_host-ip net text bytes ip p e).1 q,
    )
    | inr (v, q) ↦
        (v4 v, (ip, p, q), net.length-to4 ip v q, (encode_host-ip net text bytes ip p e).0 v q)
  ]
]

-- An address that was encoded: what its host is, and its port.
pub record Encoded (net : NetText) (address bytes : List ℕ) : Type 0 where
  pub text : List ℕ
  pub port_text : List ℕ
  pub host : Host
  pub port : ℕ
  pub split : net.split_host_port address ≡ some (text, port_text)
  pub names : Names net text host
  pub is_host : IsHost host
  pub port_is : net.atoi port_text ≡ some (pos port)
  pub port_some : 0 < port
  pub port_small : port < 65536
  pub bytes_are : bytes ≡ host_bytes host ++ put_be 2 port

pub parse_port_pos :
    (net : NetText) (text : List ℕ) (port : ℕ)
    → parse_port net text ≡ some port
    → (net.atoi text ≡ some (pos port)) × (0 < port) × (port < 65536)
unfolding parse_port
parse_port_pos net text port e = elim (Option-cases (net.atoi text)) [
  | inl p ↦ ground arith
  | inr (pos k, p) ↦ ground arith
  | inr (negsuc k, p) ↦ ground arith
]

encode_parts_host :
    (net : NetText) (text bytes : List ℕ) (port : ℕ)
    → encode_parts net text port ≡ inr bytes
    → (h : List ℕ) × (encode_host net text ≡ some h) × (bytes ≡ h ++ put_be 2 port)
encode_parts_host net text bytes port e = elim (Option-cases (encode_host net text)) [
  | inl p ↦ ground arith
  | inr (h, p) ↦ (h, p, ground arith)
]

encode_host_port_parts :
    (net : NetText) (text port_text bytes : List ℕ)
    → encode_host_port net (text, port_text) ≡ inr bytes
    → (port : ℕ) × (parse_port net port_text ≡ some port) × (encode_parts net text port ≡ inr bytes)
encode_host_port_parts net text port_text bytes e = elim (Option-cases (parse_port net port_text)) [
  | inl p ↦ ground arith
  | inr (port, p) ↦ (port, p, ground arith)
]

encode_address_split :
    (net : NetText) (address bytes : List ℕ)
    → encode_address net address ≡ inr bytes
    → (parts : List ℕ × List ℕ) × (net.split_host_port address ≡ some parts)
      × (encode_host_port net parts ≡ inr bytes)
unfolding encode_address
encode_address_split net address bytes e = elim (Option-cases (net.split_host_port address)) [
  | inl p ↦ ground arith
  | inr (parts, p) ↦ (parts, p, ground arith)
]

pub encode_address-Encoded :
    (net : NetText) (address bytes : List ℕ)
    → encode_address net address ≡ inr bytes
    → Encoded net address bytes
encode_address-Encoded net address bytes e =
    let ((text, port_text), sp, e1) = encode_address_split net address bytes e in
    let (port, pp, e2) = encode_host_port_parts net text port_text bytes e1 in
    let (hb, eh, e3) = encode_parts_host net text bytes port e2 in
    let (h, nm, ih, eb) = encode_host-Names net text hb eh in
    let (pi, ps, pl) = parse_port_pos net port_text port pp in
    record {
      text = text;
      port_text = port_text;
      host = h;
      port = port;
      split = sp;
      names = nm;
      is_host = ih;
      port_is = pi;
      port_some = ps;
      port_small = pl;
      bytes_are = e3 ∙ ap (λ t. t ++ put_be 2 port) eb;
    }

pub encode_address-name :
    (net : NetText) (address text port_text : List ℕ) (port : ℕ)
    → net.split_host_port address ≡ some (text, port_text)
    → net.parse_ip text ≡ none
    → net.atoi port_text ≡ some (pos port)
    → 0 < port
    → port < 65536
    → 0 < length text
    → length text < 256
    → encode_address net address ≡ inr ((3 ∷ (length text % 256 ∷ text)) ++ put_be 2 port)
unfolding encode_address encode_host parse_port
encode_address-name net address text port_text port sp np pi p0 p1 l0 l1 = ground arith
