-- ===== src/Io/Write.antt =====
-- A Write sends the first bytes of its argument, as many as it reports.
use chitanda.Base.{
  ℕ, ◌≤◌, ◌<◌, none, ◌≡◌, refl, sym, ap, arith, Option, List, [], ◌∷◌, ◌++◌, length, take,
}
use chitanda.Io.{Writer, IoError, write_as, write}

pub take-length {ℓ} : {A : Type ℓ} (xs : List A) → take (length xs) xs ≡ xs
take-length [] = refl
take-length (x ∷ xs) = ap (◌∷◌ x) (take-length xs)

write_as-sent :
    (w : Writer) (p : List ℕ) (script : List (ℕ × Option IoError))
    → ((write_as w p script).2.sent ≡ w.sent ++ take (write_as w p script).0 p)
      × ((write_as w p script).0 ≤ length p)
write_as-sent w p [] = (ap (◌++◌ w.sent) (sym (take-length p)), omega arith)
write_as-sent w p ((n, error) ∷ script) = (refl, omega arith)

pub write-sent :
    (w : Writer) (p : List ℕ)
    → ((write w p).2.sent ≡ w.sent ++ take (write w p).0 p) × ((write w p).0 ≤ length p)
unfolding write
write-sent w p = write_as-sent w p w.script

-- The answers of a writer that never fails and takes a byte at least in each call.
abbrev pub IsWilling : List (ℕ × Option IoError) → Type 0
IsWilling [] = Unit {0}
IsWilling ((n, error) ∷ script) = (0 < n) × (error ≡ none) × IsWilling script

write_as-IsWilling :
    (w : Writer) (p : List ℕ) (script : List (ℕ × Option IoError))
    → 0 < length p
    → IsWilling script
    → (0 < (write_as w p script).0)
      × ((write_as w p script).1 ≡ none)
      × (IsWilling script → IsWilling w.script → IsWilling (write_as w p script).2.script)
write_as-IsWilling w p [] h c = (h, refl, λ _ k. k)
write_as-IsWilling w p ((n, error) ∷ script) h c = (omega arith, c.1, λ k _. k.2)

pub write-IsWilling :
    (w : Writer) (p : List ℕ)
    → 0 < length p
    → IsWilling w.script
    → (0 < (write w p).0) × ((write w p).1 ≡ none) × IsWilling (write w p).2.script
unfolding write
write-IsWilling w p h c =
    let (some_, e, k) = write_as-IsWilling w p w.script h c in (some_, e, k c c)
