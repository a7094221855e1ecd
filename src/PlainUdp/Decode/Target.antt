-- ===== src/PlainUdp/Decode/Target.antt =====
-- The target of a packet is read back from its bytes.
use chitanda.Base.{
  length, get_or, take, drop, slice_at, length-append, drop-append_exact, ℕ, ◌+◌, ◌≤◌, ◌<◌, ◌≡◌,
  refl, sym, ap, ◌∙◌, inr, List, [], ◌∷◌, ◌++◌, append_assoc, arith,
}
use chitanda.Base.Bytes.{put_be, length-put_be}
use chitanda.Address.{NetText}
use chitanda.Address.Laws.{Host, v4, v6, name, host_text, IsHost}
use chitanda.Address.Wire.{port_at, wire, length-wire}
use chitanda.PlainUdp.Decode.{target_of, with_port, decode_target_address}

-- The branches.
v4_branch :
    (net : NetText) (b : List ℕ)
    → get_or b 0 0 ≡ 1
    → 7 ≤ length b
    → decode_target_address net b ≡ with_port net b (net.ip_text (take 4 (drop 1 b))) 5
unfolding decode_target_address
v4_branch net b h l = ground arith

v6_branch :
    (net : NetText) (b : List ℕ)
    → get_or b 0 0 ≡ 4
    → 19 ≤ length b
    → decode_target_address net b ≡ with_port net b (net.ip_text (take 16 (drop 1 b))) 17
unfolding decode_target_address
v6_branch net b h l = ground arith

name_branch :
    (net : NetText) (b : List ℕ) (n : ℕ)
    → get_or b 0 0 ≡ 3
    → get_or b 1 0 ≡ n
    → 0 < n
    → 4 + n ≤ length b
    → decode_target_address net b ≡ with_port net b (take n (drop 2 b)) (2 + n)
unfolding decode_target_address
name_branch net b n h e k l = rw (h, e) (ground arith)

module _ (net : NetText) (port : ℕ) (port_small : port < 65536) (payload : List ℕ) where
  -- The payload follows the host and the port.
  rest_of :
      (k : ℕ) (front : List ℕ)
      → length front ≡ k
      → drop (k + 2) (front ++ (put_be 2 port ++ payload)) ≡ payload
  rest_of k front h =
      ap (drop (k + 2)) (sym (append_assoc front (put_be 2 port) payload))
      ∙ drop-append_exact (k + 2) (front ++ put_be 2 port) payload
          (omega (arith, length-append front (put_be 2 port), length-put_be 2 port))

  with_port_at :
      (k : ℕ) (front host : List ℕ)
      → length front ≡ k
      → with_port net (front ++ (put_be 2 port ++ payload)) host k
        ≡ inr (target_of net host port, payload)
  with_port_at k front host h =
      ap (λ p. inr (target_of net host p, drop (k + 2) (front ++ (put_be 2 port ++ payload))))
        (port_at port port_small payload k front h)
      ∙ ap (λ t. inr (target_of net host port, t)) (rest_of k front h)

  pub decode_target_address-host :
      (h : Host)
      → IsHost h
      → decode_target_address net (wire port port_small payload h)
        ≡ inr (target_of net (host_text net h) port, payload)
  decode_target_address-host (v4 b) i =
      v4_branch net _ refl (omega (arith, length-wire port port_small payload (v4 b)))
      ∙ ap (λ t. with_port net (wire port port_small payload (v4 b)) (net.ip_text t) 5)
          (slice_at 1 4 (1 ∷ []) b (put_be 2 port ++ payload) refl i)
      ∙ with_port_at 5 (1 ∷ b) (net.ip_text b) (omega arith)
  decode_target_address-host (v6 b) i =
      v6_branch net _ refl (omega (arith, length-wire port port_small payload (v6 b)))
      ∙ ap (λ t. with_port net (wire port port_small payload (v6 b)) (net.ip_text t) 17)
          (slice_at 1 16 (4 ∷ []) b (put_be 2 port ++ payload) refl i)
      ∙ with_port_at 17 (4 ∷ b) (net.ip_text b) (omega arith)
  decode_target_address-host (name b) i =
      let n = length b in
      name_branch net _ n refl refl i.0
        (omega (arith, length-wire port port_small payload (name b)))
      ∙ ap (λ t. with_port net (wire port port_small payload (name b)) t (2 + n))
          (slice_at 2 n (3 ∷ n ∷ []) b (put_be 2 port ++ payload) refl refl)
      ∙ with_port_at (2 + n) (3 ∷ n ∷ b) b (omega arith)
