-- ===== src/Address.antt =====
-- Target addresses on the wire, as internal/rawstream, internal/plainudp and SOCKS5 write them: a
-- type byte, the host and two bytes of port. The parsers and printers of net and strconv are
-- parameters; texts are lists of bytes.
pub mod Laws
pub mod Wire
use chitanda.Base.{
  ℤ, pos, negsuc, nil_of, ltb, leb, ◌==◌, if◌then◌else◌, bytes_eq, bytes_eq→eq, bytes_eq_self,
  ltb→lt, lt→ltb, leb→le, le→leb, lt→leb, le→ltb, ==_iff, Bool-cases, Option-cases, some_inj,
  length, get_or, set, take, drop, replicate, All, All-take, All-drop, slice_at, length-append,
  length-set, get_or-set_self, get_or-set_ne, length-replicate, get_or-replicate, take-append-drop,
  length-take, length-drop, take-append_exact, drop-append_exact, take-nil, take-add, drop-nil,
  drop-drop, All-append, ℕ, zero, suc, ◌+◌, ◌-◌, ◌*◌, ◌/◌, ◌%◌, ◌^◌, ◌≤◌, ◌<◌, min, max, bit_and,
  bit_or, bit_xor, ◌≡◌, refl, sym, ap, ap₂, ◌∙◌, ◌≢◌, ◌↔◌, ◌⊎◌, inl, inr, Bool, true, false, not,
  ◌&&◌, ◌||◌, Option, none, some, List, [], ◌∷◌, ◌++◌, map, append-nil, append_assoc, arith,
}
use chitanda.Base.Bytes.{
  IsByte, put_be, uint_be, length-put_be, put_be-IsByte, uint_be-snoc, uint_be-put_be,
  uint_be-bound, put_be-uint_be,
}

-- net.SplitHostPort, net.JoinHostPort, strconv.Atoi and strconv.Itoa, net.ParseIP, the methods To4
-- and To16 of what it gives, and String of an address of 4 or 16 bytes.
pub record NetText : Type 0 where
  pub split_host_port : List ℕ → Option (List ℕ × List ℕ)
  pub join_host_port : List ℕ → List ℕ → List ℕ
  pub atoi : List ℕ → Option ℤ
  pub itoa : ℕ → List ℕ
  pub parse_ip : List ℕ → Option (List ℕ)
  pub to4 : List ℕ → Option (List ℕ)
  pub to16 : List ℕ → List ℕ
  pub ip_text : List ℕ → List ℕ
  pub length-to4 : (ip v : List ℕ) → to4 ip ≡ some v → length v ≡ 4
  pub length-to16 : (text ip : List ℕ) → parse_ip text ≡ some ip → length (to16 ip) ≡ 16

pub data AddressError : Type 0 where
  invalid_host_port invalid_port invalid_domain_length : AddressError

abbrev port_in_range : ℤ → Option ℕ
port_in_range (pos p) = if ltb p 1 || ltb 65535 p then none else some p
port_in_range (negsuc n) = none

unfoldable pub parse_port : NetText → List ℕ → Option ℕ
parse_port net text = elim (net.atoi text) [ none ↦ none | some p ↦ port_in_range p ]

-- The type byte and the host.
unfoldable pub encode_host : NetText → List ℕ → Option (List ℕ)
encode_host net host = elim (net.parse_ip host) [
  | some ip ↦ elim (net.to4 ip) [ some v4 ↦ some (1 ∷ v4) | none ↦ some (4 ∷ net.to16 ip) ]
  | none ↦
      if length host == 0 || ltb 255 (length host)
      then none
      else some (3 ∷ (length host % 256 ∷ host))
]

abbrev pub encode_parts : NetText → List ℕ → ℕ → AddressError ⊎ List ℕ
encode_parts net host port = elim (encode_host net host) [
  | none ↦ inl invalid_domain_length
  | some bytes ↦ inr (bytes ++ put_be 2 port)
]

-- A host and the text of a port.
abbrev pub encode_host_port : NetText → List ℕ × List ℕ → AddressError ⊎ List ℕ
encode_host_port net (host, port_text) = elim (parse_port net port_text) [
  | none ↦ inl invalid_port
  | some port ↦ encode_parts net host port
]

-- "host:port"
unfoldable pub encode_address : NetText → List ℕ → AddressError ⊎ List ℕ
encode_address net address = elim (net.split_host_port address) [
  | none ↦ inl invalid_host_port
  | some parts ↦ encode_host_port net parts
]
