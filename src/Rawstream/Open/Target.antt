-- ===== src/Rawstream/Open/Target.antt =====
-- The target of an OPEN frame is read back from its bytes.
use chitanda.Base.{
  length, slice_at, ℕ, ◌+◌, ◌≤◌, ◌<◌, ◌≡◌, refl, inl, inr, Option, some, List, [], ◌∷◌, ◌++◌, arith,
}
use chitanda.Base.Bytes.{put_be}
use chitanda.Address.{NetText}
use chitanda.Address.Laws.{Host, v4, v6, name, host_bytes, host_text, IsHost}
use chitanda.Address.Wire.{port_at, wire, length-wire}
use chitanda.Rawstream.Open.{invalid_open_frame, decode_target}

module _ (net : NetText) (port : ℕ) (port_small : port < 65536) (payload : List ℕ) where
  pub decode_target-host :
      (h : Host)
      → IsHost h
      → 7 ≤ length (wire port port_small payload h)
      → decode_target net (wire port port_small payload h)
        ≡ inr (net.join_host_port (host_text net h) (net.itoa port), length (host_bytes h) + 2)
  unfolding decode_target
  decode_target-host (v4 b) i l =
      rw
        (
          port_at port port_small payload 5 (1 ∷ b) (omega arith),
          slice_at 1 4 (1 ∷ []) b (put_be 2 port ++ payload) refl i,
        )
        (ground arith)
  decode_target-host (v6 b) i l =
      rw
        (
          port_at port port_small payload 17 (4 ∷ b) (omega arith),
          slice_at 1 16 (4 ∷ []) b (put_be 2 port ++ payload) refl i,
        )
        (ground (arith, length-wire port port_small payload (v6 b)))
  decode_target-host (name b) i l =
      rw
        (
          port_at port port_small payload (2 + length b) (3 ∷ length b ∷ b) (omega arith),
          slice_at 2 (length b) (3 ∷ length b ∷ []) b (put_be 2 port ++ payload) refl refl,
        )
        (ground (arith, length-wire port port_small payload (name b)))

pub decode_short :
    (net : NetText) (b : List ℕ) → length b < 7 → decode_target net b ≡ inl invalid_open_frame
unfolding decode_target
decode_short net b h = ground arith

pub same_text :
    (a p b q : List ℕ) → ◌≡◌ {A = Option (List ℕ × List ℕ)} (some (a, p)) (some (b, q)) → a ≡ b
same_text a p b q h = cc
