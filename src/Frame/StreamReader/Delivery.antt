-- ===== src/Frame/StreamReader/Delivery.antt =====
-- On a connection that carries DATA frames and then a HALF_CLOSE, the stream reader delivers the
-- payloads in order and then EOF, however the connection cuts the bytes into reads.
use chitanda.Base.{
  ℕ, ◌-◌, ◌≤◌, ◌<◌, ◌≡◌, refl, ap, ◌∙◌, arith, Option, none, some, List, [], ◌∷◌, ◌++◌,
  append_assoc, length, All,
}
use chitanda.Base.Bytes.{put_be, uint_be}
use chitanda.Io.{Event, IoError, eof, read_full}
use chitanda.Io.Read.{stream_of, IsQuiet, Delivers, read_full_exactly, weight, read_full-weight}
use chitanda.Frame.Header.{max_payload, type_data, type_half_close, encode_header}
use chitanda.Frame.Header.Laws.{length-encode_header, flags_of, size_of}
use chitanda.Frame.Wire.{wire, IsChunk}
use chitanda.Frame.StreamReader.{StreamReader, io, again, accept_header, after_head, read_head}

abbrev pub closing : List ℕ
closing = encode_header type_half_close 0 0

-- The reader stands before `front`, the rest of a payload, then the frames of `chunks` and the end.
pub record At (s : StreamReader) (front : List ℕ) (chunks : List (List ℕ)) (tail : List ℕ)
    : Type 0 where
  pub open_ : s.terminal ≡ none
  pub fresh : s.header ≡ []
  pub left : s.remaining ≡ length front
  pub quiet : IsQuiet s.source
  pub bytes : stream_of s.source ≡ front ++ (wire chunks ++ (closing ++ tail))
  pub front_small : length front ≤ max_payload
  pub chunks_good : All IsChunk chunks

accept_header_data :
    (s : StreamReader) (n : ℕ)
    → 0 < n
    → n ≤ max_payload
    → accept_header s (encode_header type_data 0 n) ≡ record s { remaining = n }
unfolding accept_header encode_header
accept_header_data s n h k = ground (arith, size_of type_data 0 n, flags_of type_data 0 n)

accept_header_close :
    (s : StreamReader) → accept_header s closing ≡ record s { terminal = some (io eof) }
unfolding accept_header encode_header put_be uint_be
accept_header_close s = refl

after_head_whole :
    (s : StreamReader) (r : List ℕ × Option IoError × List Event) (raw back : List ℕ)
    → s.header ≡ []
    → Delivers r raw back
    → after_head s r ≡ again (accept_header (record s { source = r.2; header = [] }) raw)
unfolding after_head
after_head_whole s (got, none, rest) raw back h (g, e, b, q) =
    ap (λ t. again (accept_header (record s { source = rest; header = [] }) t))
      (ap (λ t. t ++ got) h ∙ g)
after_head_whole s (got, some x, rest) raw back h (g, e, b, q) = cc

-- A complete header, read whole from where the reader stands.
read_head_whole :
    (s : StreamReader) (raw back : List ℕ)
    → s.header ≡ []
    → length raw ≡ 8
    → IsQuiet s.source
    → stream_of s.source ≡ raw ++ back
    → (rest : List Event) × (read_head s
        ≡ again (accept_header (record s { source = rest; header = [] }) raw))
      × (stream_of rest ≡ back)
      × IsQuiet rest
      × (weight rest ≤ weight s.source)
unfolding read_head
read_head_whole s raw back hh hl q e =
    let n : ℕ = 8 - length s.header in
    let full : Delivers (read_full s.source n) raw back =
      read_full_exactly n s.source raw back (omega (arith, ap length hh)) q e in
    (
      (read_full s.source n).2,
      after_head_whole s _ raw back hh full,
      full.2,
      full.3,
      read_full-weight n s.source,
    )

-- Where the frames go on, a header leads to the next payload.
pub read_head_data :
    (s : StreamReader) (c : List ℕ) (cs : List (List ℕ)) (tail : List ℕ)
    → At s [] (c ∷ cs) tail
    → (s' : StreamReader) × (read_head s ≡ again s')
      × At s' c cs tail
      × (weight s'.source ≤ weight s.source)
read_head_data s c cs tail at =
    let (rest, e, b, q, lighter) =
      read_head_whole s (encode_header type_data 0 (length c)) (c ++ (wire cs ++ (closing ++ tail)))
        at.fresh (length-encode_header type_data 0 (length c)) at.quiet
        (at.bytes
          ∙ append_assoc (encode_header type_data 0 (length c)) (c ++ wire cs) (closing ++ tail)
          ∙ ap (◌++◌ (encode_header type_data 0 (length c)))
              (append_assoc c (wire cs) (closing ++ tail))) in
    let good : IsChunk c = at.chunks_good.0 in
    let s' : StreamReader = record {
      source = rest;
      remaining = length c;
      terminal = s.terminal;
      header = [];
    } in
    (
      s',
      e ∙ ap again (accept_header_data _ (length c) good.0 good.1),
      record {
        open_ = at.open_;
        fresh = refl;
        left = refl;
        quiet = q;
        bytes = b;
        front_small = good.1;
        chunks_good = at.chunks_good.1;
      },
      lighter,
    )

pub read_head_close :
    (s : StreamReader) (tail : List ℕ)
    → At s [] [] tail
    → (s' : StreamReader) × (read_head s ≡ again s') × (s'.terminal ≡ some (io eof))
read_head_close s tail at =
    let (rest, e, b, q, _) =
      read_head_whole s closing tail at.fresh (length-encode_header type_half_close 0 0) at.quiet
        at.bytes in
    (
      record { source = rest; remaining = s.remaining; terminal = some (io eof); header = [] },
      e ∙ ap again (accept_header_close _),
      refl,
    )
