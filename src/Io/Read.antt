-- ===== src/Io/Read.antt =====
-- Laws of the readers: what is read is taken from the front of the script's bytes.
use chitanda.Base.{
  ℕ, zero, suc, ◌+◌, ◌-◌, ◌≤◌, ◌<◌, ◌≡◌, refl, ap, ◌∙◌, arith, Option, none, some, List, [], ◌∷◌,
  ◌++◌, length, length-append, take, drop, take-append-drop, append_assoc, length-take, length-drop,
}
use mathlib.Core.Path.{subst}
use chitanda.Io.{Event, IoError, cut_short, read, fill, read_full}

-- All bytes that the script still holds.
abbrev pub stream_of : List Event → List ℕ
stream_of [] = []
stream_of (e ∷ es) = e.bytes ++ stream_of es

pub read-stream_of :
    (es : List Event) (n : ℕ) → (read es n).0 ++ stream_of (read es n).2 ≡ stream_of es
unfolding read
read-stream_of [] n = refl
read-stream_of (e ∷ es) n = ground (
  arith,
  take-append-drop n e.bytes,
  append_assoc (take n e.bytes) (drop n e.bytes) (stream_of es),
)

pub length-read : (es : List Event) (n : ℕ) → length (read es n).0 ≤ n
unfolding read
length-read [] n = omega arith
length-read (e ∷ es) n = ground (arith, length-take n e.bytes)

-- `fill` takes from the front, at most the wanted number, and exactly that without an error.
pub fill-stream_of :
    (es : List Event) (n : ℕ) → (fill es n).0 ++ stream_of (fill es n).2 ≡ stream_of es
unfolding fill
fill-stream_of [] zero = refl
fill-stream_of (e ∷ es) zero = refl
fill-stream_of [] (suc n) = refl
fill-stream_of (e ∷ es) (suc n) = ground (
  arith,
  take-append-drop (suc n) e.bytes,
  append_assoc (take (suc n) e.bytes) (drop (suc n) e.bytes) (stream_of es),
  fill-stream_of es (suc n - length e.bytes),
  append_assoc e.bytes (fill es (suc n - length e.bytes)).0
      (stream_of (fill es (suc n - length e.bytes)).2),
)

pub length-fill :
    (es : List Event) (n : ℕ)
    → (length (fill es n).0 ≤ n) × ((fill es n).1 ≡ none → length (fill es n).0 ≡ n)
unfolding fill
length-fill [] zero = omega arith
length-fill (e ∷ es) zero = omega arith
length-fill [] (suc n) = ground arith
length-fill (e ∷ es) (suc n) = ground (
  arith,
  length-take (suc n) e.bytes,
  length-fill es (suc n - length e.bytes),
  length-append e.bytes (fill es (suc n - length e.bytes)).0,
)

-- A reader that never reports an error before its end, however it cuts the bytes up.
abbrev pub IsQuiet : List Event → Type 0
IsQuiet [] = Unit {0}
IsQuiet (e ∷ es) = (e.ends ≡ none) × IsQuiet es

pub fill-IsQuiet :
    (es : List Event) (n : ℕ)
    → IsQuiet es
    → n ≤ length (stream_of es)
    → ((fill es n).1 ≡ none) × IsQuiet (fill es n).2
unfolding fill
fill-IsQuiet [] zero q h = (refl, tt)
fill-IsQuiet (e ∷ es) zero q h = (refl, q)
fill-IsQuiet [] (suc n) q h = absurd (omega arith)
fill-IsQuiet (e ∷ es) (suc n) q h =
    ground
      (arith, length-append e.bytes (stream_of es), fill-IsQuiet es (suc n - length e.bytes) q.1)

append_cancel :
    (xs ys us vs : List ℕ) → length xs ≡ length us → xs ++ ys ≡ us ++ vs → (xs ≡ us) × (ys ≡ vs)
append_cancel [] ys [] vs h e = (refl, e)
append_cancel [] ys (u ∷ us) vs h e = absurd (omega arith)
append_cancel (x ∷ xs) ys [] vs h e = absurd (omega arith)
append_cancel (x ∷ xs) ys (u ∷ us) vs h e =
    let ih : (xs ≡ us) × (ys ≡ vs) = append_cancel xs ys us vs (omega arith) (cc) in
    (cc (ih.0), ih.1)

-- Two splits of one list: the shorter front is a prefix of the longer.
pub append_prefix :
    (xs ys us vs : List ℕ)
    → length xs ≤ length us
    → xs ++ ys ≡ us ++ vs
    → (ws : List ℕ) × (xs ++ ws ≡ us) × (ys ≡ ws ++ vs)
append_prefix [] ys us vs h e = (us, refl, e)
append_prefix (x ∷ xs) ys [] vs h e = absurd (omega arith)
append_prefix (x ∷ xs) ys (u ∷ us) vs h e =
    let (ws, p, q) = append_prefix xs ys us vs (omega arith) (cc) in (ws, cc (p), q)

-- ReadFull on a quiet reader whose bytes begin with `front` returns `front`, and leaves the rest.
abbrev pub Delivers : List ℕ × Option IoError × List Event → List ℕ → List ℕ → Type 0
Delivers (got, error, rest) front back =
    (got ≡ front) × (error ≡ none) × (stream_of rest ≡ back) × IsQuiet rest

pub read_full_quiet :
    (es : List Event) (front back : List ℕ)
    → IsQuiet es
    → stream_of es ≡ front ++ back
    → Delivers (read_full es (length front)) front back
unfolding read_full
read_full_quiet es front back q e =
    (parts.0, clean (fill es (length front)).0 (fill es (length front)).1 whole.0, parts.1, whole.1)
  where
    long : length front ≤ length (stream_of es)
    long = omega (arith, ap length e, length-append front back)

    whole : ((fill es (length front)).1 ≡ none) × IsQuiet (fill es (length front)).2
    whole = fill-IsQuiet es (length front) q long

    parts : ((fill es (length front)).0 ≡ front) × (stream_of (fill es (length front)).2 ≡ back)
    parts =
        append_cancel _ _ front back ((length-fill es (length front)).1 whole.0)
          (fill-stream_of es (length front) ∙ e)

    clean : (got : List ℕ) (error : Option IoError) → error ≡ none → cut_short got error ≡ none
    clean [] error h = h
    clean (b ∷ bs) none h = refl
    clean (b ∷ bs) (some x) h = cc

pub read_full_exactly :
    (n : ℕ) (es : List Event) (front back : List ℕ)
    → length front ≡ n
    → IsQuiet es
    → stream_of es ≡ front ++ back
    → Delivers (read_full es n) front back
read_full_exactly n es front back h q e =
    subst (λ k. Delivers (read_full es k) front back) h (read_full_quiet es front back q e)

pub read-IsQuiet :
    (es : List Event) (n : ℕ)
    → IsQuiet es
    → 0 < length (stream_of es)
    → ((read es n).1 ≡ none) × IsQuiet (read es n).2
unfolding read
read-IsQuiet [] n q h = absurd (omega arith)
read-IsQuiet (e ∷ es) n q h = ground arith

-- The Read calls that the script can still answer before its end, at most.
abbrev pub weight : List Event → ℕ
weight [] = 0
weight (e ∷ es) = suc (length e.bytes + weight es)

pub read-weight :
    (es : List Event) (n : ℕ) → 0 < n → 0 < length (stream_of es) → weight (read es n).2 < weight es
unfolding read
read-weight [] n h k = absurd (omega arith)
read-weight (e ∷ es) n h k = ground (arith, length-drop n e.bytes)

fill-weight : (es : List Event) (n : ℕ) → weight (fill es n).2 ≤ weight es
unfolding fill
fill-weight [] zero = omega arith
fill-weight (e ∷ es) zero = omega arith
fill-weight [] (suc n) = omega arith
fill-weight (e ∷ es) (suc n) =
    ground (arith, length-drop (suc n) e.bytes, fill-weight es (suc n - length e.bytes))

pub read_full-weight : (n : ℕ) (es : List Event) → weight (read_full es n).2 ≤ weight es
unfolding read_full
read_full-weight n es = fill-weight es n
