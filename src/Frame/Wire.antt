-- ===== src/Frame/Wire.antt =====
-- The byte stream that a list of DATA frames stands for, and how a buffer is cut into chunks.
use chitanda.Base.{
  ℕ, zero, suc, ◌≤◌, ◌<◌, ◌≡◌, refl, sym, ap, ◌∙◌, arith, min, List, [], ◌∷◌, ◌++◌, append_assoc,
  length, length-take, length-drop, take, drop, take-append-drop, All,
}
use chitanda.Frame.Header.{max_payload, type_data, encode_header}

abbrev pub wire : List (List ℕ) → List ℕ
wire [] = []
wire (c ∷ cs) = encode_header type_data 0 (length c) ++ (c ++ wire cs)

abbrev pub join : List (List ℕ) → List ℕ
join [] = []
join (c ∷ cs) = c ++ join cs

-- A chunk that a reader takes: not empty, and within the limit of a frame.
abbrev pub IsChunk : List ℕ → Type 0
IsChunk c = (0 < length c) × (length c ≤ max_payload)

-- Chunks of 256 KiB, the last one shorter.
abbrev pub cut_size : List ℕ → ℕ
cut_size p = min (length p) 262_144

unfoldable pub chunks_of : ℕ → List ℕ → List (List ℕ)
chunks_of fuel [] = []
chunks_of zero (b ∷ bs) = []
chunks_of (suc fuel) (b ∷ bs) =
    take (cut_size (b ∷ bs)) (b ∷ bs) ∷ chunks_of fuel (drop (cut_size (b ∷ bs)) (b ∷ bs))

pub join-chunks_of : (fuel : ℕ) (p : List ℕ) → length p ≤ fuel → join (chunks_of fuel p) ≡ p
unfolding chunks_of
join-chunks_of fuel [] h = refl
join-chunks_of zero (b ∷ bs) h = absurd (omega arith)
join-chunks_of (suc fuel) (b ∷ bs) h =
    ap (◌++◌ (take (cut_size (b ∷ bs)) (b ∷ bs))) (
      join-chunks_of fuel (drop (cut_size (b ∷ bs)) (b ∷ bs))
        (omega (arith, length-drop (cut_size (b ∷ bs)) (b ∷ bs))))
    ∙ take-append-drop (cut_size (b ∷ bs)) (b ∷ bs)

pub chunks_of-IsChunk : (fuel : ℕ) (p : List ℕ) → All IsChunk (chunks_of fuel p)
unfolding chunks_of
chunks_of-IsChunk fuel [] = tt
chunks_of-IsChunk zero (b ∷ bs) = tt
chunks_of-IsChunk (suc fuel) (b ∷ bs) = (
  omega (arith, length-take (cut_size (b ∷ bs)) (b ∷ bs)),
  chunks_of-IsChunk fuel (drop (cut_size (b ∷ bs)) (b ∷ bs)),
)

pub wire-append : (cs ds : List (List ℕ)) → wire (cs ++ ds) ≡ wire cs ++ wire ds
wire-append [] ds = refl
wire-append (c ∷ cs) ds =
    ap (λ t. encode_header type_data 0 (length c) ++ (c ++ t)) (wire-append cs ds)
    ∙ ap (◌++◌ (encode_header type_data 0 (length c))) (sym (append_assoc c (wire cs) (wire ds)))
    ∙ sym (append_assoc (encode_header type_data 0 (length c)) (c ++ wire cs) (wire ds))
