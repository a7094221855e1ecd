-- ===== src/Rawstream/Writer/Cuts.antt =====
-- How a batch is cut into chunks: no byte is lost or moved, whatever the slices and the phase.
use chitanda.Base.{
  ltb, Bool-cases, length, take, drop, length-append, take-append-drop, length-take, length-drop, ℕ,
  ◌+◌, ◌-◌, ◌≤◌, ◌<◌, ◌≡◌, refl, sym, ap, ◌∙◌, inl, inr, ◌&&◌, List, [], ◌∷◌, ◌++◌, append_assoc,
  arith,
}
use chitanda.Frame.Wire.{join}
use chitanda.Rawstream.Writer.{coalesce, next_chunk, phase, rounds}

-- A chunk of at most `max_chunk` bytes was taken off `parts`.
pub record Takes (max_chunk : ℕ) (parts : List (List ℕ)) (cut : List ℕ × List (List ℕ))
    : Type 0 where
  pub order : cut.0 ++ join cut.1 ≡ join parts
  pub short : length cut.0 ≤ max_chunk
  pub progress : rounds cut.1 + length cut.0 ≤ rounds parts

coalesce-Takes : (room : ℕ) (parts : List (List ℕ)) → Takes room parts (coalesce room parts)
unfolding coalesce
coalesce-Takes room [] = record { order = refl; short = omega arith; progress = omega arith }
coalesce-Takes room (part ∷ parts) =
    let more = coalesce-Takes (room - length part) parts in
    let l = length-append part (coalesce (room - length part) parts).0 in
    let a =
      append_assoc part (coalesce (room - length part) parts).0
        (join (coalesce (room - length part) parts).1) in
    record {
      order = ground (
        arith,
        a,
        more.order,
        append_assoc (take room part) (drop room part) (join parts),
        take-append-drop room part,
      );
      short = ground (arith, l, more.short, length-take room part);
      progress =
          ground
            (arith, l, more.short, more.progress, length-take room part, length-drop room part);
    }

coalesce_some :
    (room : ℕ) (part : List ℕ) (parts : List (List ℕ))
    → 0 < length part
    → 0 < room
    → 0 < length (coalesce room (part ∷ parts)).0
unfolding coalesce
coalesce_some room part parts h k =
    ground
      (arith, length-append part (coalesce (room - length part) parts).0, length-take room part)

pub next_chunk-Takes :
    (max_chunk : ℕ) (p : List ℕ) (ps : List (List ℕ))
    → 0 < max_chunk
    → 0 < length p
    → Takes max_chunk (p ∷ ps) (next_chunk max_chunk p ps)
      × (0 < length (next_chunk max_chunk p ps).0)
unfolding next_chunk
next_chunk-Takes max_chunk p ps h k =
    elim (Bool-cases (ltb (length p) max_chunk && ltb 0 (length ps))) [
      | inl e ↦ rw e (coalesce-Takes max_chunk (p ∷ ps), coalesce_some max_chunk p ps k h)
      | inr e ↦ rw e (
        record {
          order =
              sym (append_assoc (take max_chunk p) (drop max_chunk p) (join ps))
              ∙ ap (λ t. t ++ join ps) (take-append-drop max_chunk p);
          short = omega (arith, length-take max_chunk p);
          progress = omega (arith, length-take max_chunk p, length-drop max_chunk p);
        },
        omega (arith, length-take max_chunk p),
      )
    ]

pub phase-bounds : (burst : ℕ) → (0 < (phase burst).0) × ((phase burst).0 ≤ 32768)
unfolding phase
phase-bounds burst = ground arith
