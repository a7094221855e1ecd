-- ===== src/Io/Patience.antt =====
-- Reading a connection that reports timeouts, and no other error, in the middle.
use chitanda.Base.{
  length, length-append, length-take, length-drop, ℕ, zero, suc, ◌+◌, ◌-◌, ◌≤◌, ◌<◌, ◌≡◌, refl, sym,
  ap, ◌∙◌, ◌⊎◌, inl, inr, Option, none, some, List, [], ◌∷◌, ◌++◌, append-nil, arith,
}
use mathlib.Core.Path.{subst}
use chitanda.Io.{Event, IoError, timeout, cut_short, fill, read_full}
use chitanda.Io.Read.{stream_of, fill-stream_of, length-fill, weight, append_prefix}

-- Every event ends without an error or with a timeout.
abbrev pub IsPatient : List Event → Type 0
IsPatient [] = Unit {0}
IsPatient (e ∷ es) = ((e.ends ≡ none) ⊎ (e.ends ≡ some timeout)) × IsPatient es

-- All that was wanted, or some of it and a timeout, which used up an event.
abbrev pub Comes : List Event → ℕ → List ℕ × Option IoError × List Event → Type 0
Comes es n (got, error, rest) =
    IsPatient rest
    × (weight rest + length got ≤ weight es)
    × (((error ≡ none) × (length got ≡ n))
        ⊎ ((error ≡ some timeout) × (weight rest + length got < weight es)))

fill-Comes :
    (es : List Event) (n : ℕ) → IsPatient es → n ≤ length (stream_of es) → Comes es n (fill es n)
unfolding fill
fill-Comes [] zero p h = (tt, omega arith, inl (refl, refl))
fill-Comes (e ∷ es) zero p h = (p, omega arith, inl (refl, refl))
fill-Comes [] (suc n) p h = absurd (omega arith)
fill-Comes (e ∷ es) (suc n) p h = ground (
  arith,
  length-append e.bytes (stream_of es),
  length-take (suc n) e.bytes,
  length-drop (suc n) e.bytes,
  length-append e.bytes (fill es (suc n - length e.bytes)).0,
  fill-Comes es (suc n - length e.bytes) p.1,
)

-- What a ReadFull of the bytes `front` gives, with `back` behind them.
pub data Arrival (es : List Event) (front back : List ℕ) (r : List ℕ × Option IoError × List Event)
    : Type 0 where
  whole :
      r ≡ (front, none, r.2)
      → IsPatient r.2
      → stream_of r.2 ≡ back
      → weight r.2 + length front ≤ weight es
      → Arrival es front back r
  partly :
      (got front' : List ℕ)
      → r ≡ (got, some timeout, r.2)
      → got ++ front' ≡ front
      → IsPatient r.2
      → stream_of r.2 ≡ front' ++ back
      → weight r.2 + length got < weight es
      → Arrival es front back r

cut_short-timeout : (got : List ℕ) → cut_short got (some timeout) ≡ some timeout
cut_short-timeout [] = refl
cut_short-timeout (b ∷ bs) = refl

cut_short-none : (got : List ℕ) → cut_short got none ≡ none
cut_short-none [] = refl
cut_short-none (b ∷ bs) = refl

no_more :
    (front' : List ℕ) (got front : List ℕ)
    → got ++ front' ≡ front
    → length got ≡ length front
    → front' ≡ []
no_more [] got front e h = refl
no_more (b ∷ bs) got front e h = absurd (omega (arith, ap length e, length-append got (b ∷ bs)))

pub read_full_patient :
    (es : List Event) (front back : List ℕ)
    → IsPatient es
    → stream_of es ≡ front ++ back
    → Arrival es front back (read_full es (length front))
unfolding read_full
read_full_patient es front back p e =
    let n = length front in
    let got = (fill es n).0 in
    let rest = (fill es n).2 in
    let (front', e1, e2) =
      append_prefix got (stream_of rest) front back (length-fill es n).0
        (fill-stream_of es n ∙ e) in
    let (q, l, outcome) =
      fill-Comes es n p (omega (arith, ap length e, length-append front back)) in
    elim outcome [
      | inl (x, y) ↦
          let nil = no_more front' got front e1 y in
          let same : got ≡ front = sym (append-nil got) ∙ ap (◌++◌ got) (sym nil) ∙ e1 in
          whole
            (ap (λ t. (got, cut_short got t, rest)) x
              ∙ ap (λ t. (got, t, rest)) (cut_short-none got)
              ∙ ap (λ t. (t, none, rest)) same)
            q (e2 ∙ ap (λ t. t ++ back) nil) (omega (arith, ap length same))
      | inr (x, y) ↦
          partly got front'
            (ap (λ t. (got, cut_short got t, rest)) x
              ∙ ap (λ t. (got, t, rest)) (cut_short-timeout got))
            e1 q e2 y
    ]

-- The same where the length is given.
pub read_full_patiently :
    (n : ℕ) (es : List Event) (front back : List ℕ)
    → length front ≡ n
    → IsPatient es
    → stream_of es ≡ front ++ back
    → Arrival es front back (read_full es n)
read_full_patiently n es front back h p e =
    subst (λ k. Arrival es front back (read_full es k)) h (read_full_patient es front back p e)
