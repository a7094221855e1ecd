-- ===== src/SenderQueue/Ring.antt =====
-- A ring holds a list of packets in order.
use chitanda.Base.{
  ltb, ltb→lt, Bool-cases, length, get_or, set, length-append, length-set, get_or-set_self,
  get_or-set_ne, ℕ, zero, suc, ◌+◌, ◌-◌, ◌%◌, ◌≤◌, ◌<◌, ◌≡◌, refl, sym, ap, ap₂, ◌∙◌, ◌≢◌, inl, inr,
  List, [], ◌∷◌, ◌++◌, append_assoc, arith,
}
use chitanda.SenderQueue.{QueuedPacket, no_item, window}
use native.Mathlib.Nat.{mod-add-mod, mod-mod, mod-eq_of_lt, mod-lt, add-mod_right}

wrap_around : (c m : ℕ) → m < c → (m + c) % c ≡ m
wrap_around c m h = add-mod_right m c ∙ mod-eq_of_lt h

pub ring_ne : (c h k : ℕ) → h < c → suc k < c → (h + suc k) % c ≢ h
ring_ne c h k a b e = elim (Bool-cases (ltb (h + suc k) c)) [
  | inl l ↦ absurd (omega (arith, e, mod-eq_of_lt (ltb→lt (h + suc k) c l)))
  | inr l ↦
      let m = h + suc k - c in
      let big : h + suc k ≡ m + c = ground arith in
      absurd (omega (arith, e, ap (λ t. t % c) big, wrap_around c m (ground arith)))
]

-- Only the index modulo the size matters.
pub window_cong :
    (items : List QueuedPacket) (h k n : ℕ)
    → h % length items ≡ k % length items
    → window items h n ≡ window items k n
window_cong items h k zero e = refl
window_cong items h k (suc n) e =
    let c = length items in
    let next : (h + 1) % c ≡ (k + 1) % c =
      sym (mod-add-mod h c 1) ∙ ap (λ t. (t + 1) % c) e ∙ mod-add-mod k c 1 in
    ap₂ ◌∷◌ (ap (λ t. get_or items t no_item) e) (window_cong items (h + 1) (k + 1) n next)

-- A write outside the window.
pub window-set_ne :
    (items : List QueuedPacket) (i : ℕ) (v : QueuedPacket) (h n : ℕ)
    → ((k : ℕ) → k < n → (h + k) % length items ≢ i)
    → window (set items i v) h n ≡ window items h n
window-set_ne items i v h zero f = refl
window-set_ne items i v h (suc n) f =
    let c = length items in
    ap₂ ◌∷◌
      (ap (λ t. get_or (set items i v) (h % t) no_item) (length-set items i v)
        ∙ get_or-set_ne items i (h % c) v no_item
            (λ e. f 0 (omega arith) (ap (λ t. t % c) {x = h + 0} {y = h} (omega arith) ∙ sym e)))
      (window-set_ne items i v (h + 1) n (λ k l e.
        f (suc k) (omega arith)
          (ap (λ t. t % c) {x = h + suc k} {y = h + 1 + k} (omega arith) ∙ e)))

near_ne : (c h k n : ℕ) → k < n → n < c → (h + k) % c ≢ (h + n) % c
near_ne c h k n a b e =
    let j = n - suc k in
    let shift : ((h + k) % c + suc j) % c ≡ (h + n) % c =
      mod-add-mod (h + k) c (suc j)
      ∙ ap (λ t. t % c) {x = h + k + suc j} {y = h + n} (omega arith) in
    ring_ne c ((h + k) % c) j (mod-lt (h + k) (omega arith)) (omega arith) (shift ∙ sym e)

pub length-window : (items : List QueuedPacket) (h n : ℕ) → length (window items h n) ≡ n
length-window items h zero = refl
length-window items h (suc n) = ap suc (length-window items (h + 1) n)

-- A longer window.
pub window-snoc :
    (items : List QueuedPacket) (h n : ℕ)
    → window items h (suc n)
      ≡ window items h n ++ get_or items ((h + n) % length items) no_item ∷ []
window-snoc items h zero =
    ap (λ t. get_or items (t % length items) no_item ∷ []) {x = h} {y = h + 0} (omega arith)
window-snoc items h (suc n) = ap (◌∷◌ (get_or items (h % length items) no_item)) (
    window-snoc items (h + 1) n
    ∙ ap (λ t. window items (h + 1) n ++ get_or items (t % length items) no_item ∷ [])
        {x = h + 1 + n} {y = h + suc n} (omega arith))

get_or-append :
    (done : List QueuedPacket) (x : QueuedPacket) (more : List QueuedPacket)
    → get_or (done ++ (x ∷ more)) (length done) no_item ≡ x
get_or-append [] x more = refl
get_or-append (y ∷ done) x more = get_or-append done x more

length_middle :
    (done : List QueuedPacket) (x : QueuedPacket) (more : List QueuedPacket)
    → length done < length (done ++ (x ∷ more))
length_middle done x more = omega (arith, length-append done (x ∷ more))

-- A list read from its front.
pub window_front :
    (done items more : List QueuedPacket)
    → window (done ++ (items ++ more)) (length done) (length items) ≡ items
window_front done [] more = refl
window_front done (x ∷ items) more =
    let all = done ++ (x ∷ (items ++ more)) in
    let same : all ≡ (done ++ x ∷ []) ++ (items ++ more) =
      sym (append_assoc done (x ∷ []) (items ++ more)) in
    let at : length done + 1 ≡ length (done ++ x ∷ []) =
      omega (arith, length-append done (x ∷ [])) in
    ap₂ ◌∷◌
      (ap (λ t. get_or all t no_item) (mod-eq_of_lt (length_middle done x (items ++ more)))
        ∙ get_or-append done x (items ++ more))
      (ap₂ (λ l t. window l t (length items)) same at ∙ window_front (done ++ x ∷ []) items more)

-- The write at the end of the window puts its value there.
pub window-set_end :
    (items : List QueuedPacket) (v : QueuedPacket) (h n : ℕ)
    → h < length items
    → n < length items
    → window (set items ((h + n) % length items) v) h (suc n) ≡ window items h n ++ v ∷ []
window-set_end items v h n a b =
    let c = length items in
    let i = (h + n) % c in
    window-snoc (set items i v) h n
    ∙ ap (λ t. window (set items i v) h n ++ get_or (set items i v) ((h + n) % t) no_item ∷ [])
        (length-set items i v)
    ∙ ap (λ t. window (set items i v) h n ++ t ∷ [])
        (get_or-set_self items i v no_item (mod-lt (h + n) (omega arith)))
    ∙ ap (λ t. t ++ v ∷ []) (window-set_ne items i v h n (λ k l. near_ne (length items) h k n l b))

-- The window after its first packet was cleared.
pub window-advance :
    (items : List QueuedPacket) (head n : ℕ)
    → head < length items
    → suc n ≤ length items
    → window (set items head no_item) ((head + 1) % length items) n ≡ window items (head + 1) n
window-advance items head n a b =
    let c = length items in
    let items' = set items head no_item in
    let l : length items' ≡ c = length-set items head no_item in
    let same : (head + 1) % c % length items' ≡ (head + 1) % length items' =
      ap (λ t. (head + 1) % c % t) l ∙ mod-mod (head + 1) c ∙ ap (λ t. (head + 1) % t) (sym l) in
    window_cong items' ((head + 1) % c) (head + 1) n same
    ∙ window-set_ne items head no_item (head + 1) n (λ k lt e.
      ring_ne c head k a (omega arith)
        (ap (λ t. t % c) {x = head + suc k} {y = head + 1 + k} (omega arith) ∙ e))
