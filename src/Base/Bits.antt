-- ===== src/Base/Bits.antt =====
-- Binary digits of a word, and how `|`, `&`, `&^` and shifts act on them.
use Prim.Native.Nat.{digits, differ, bit_and-bitwise, bit_or-bitwise, bit_xor-bitwise}
use native.Mathlib.Nat.{
  pow-suc, one-le-pow, add-mul-mod_self_left, mod-eq_of_lt, div-add-mod, mul_comm,
}
use native.Mathlib.Decide.{dec_lt, ℕ_discrete}
use chitanda.Base.{
  ◌↔◌, ◌⊎◌, inl, inr, ℕ, zero, suc, ◌+◌, ◌-◌, ◌*◌, ◌/◌, ◌%◌, ◌^◌, ◌≤◌, ◌<◌, min, max, bit_and,
  bit_or, bit_xor, ◌≡◌, ◌≢◌, refl, sym, ap, ap₂, ◌∙◌, arith,
}

-- The digit of `a` at place `j`, lowest first.
unfoldable pub digit : ℕ → ℕ → ℕ
digit a zero = a % 2
digit a (suc j) = digit (a / 2) j

pub digit-lt_two : (a j : ℕ) → digit a j < 2
unfolding digit
digit-lt_two a zero = omega arith
digit-lt_two a (suc j) = digit-lt_two (a / 2) j

pub digit-zero : (j : ℕ) → digit 0 j ≡ 0
unfolding digit
digit-zero zero = refl
digit-zero (suc j) = digit-zero j

shift_suc : (v b : ℕ) → v * 2 ^ suc b ≡ 2 * (v * 2 ^ b)
shift_suc v b = omega (arith, ap (λ (t : ℕ). v * t) (pow-suc 2 b))

-- A native operation that works digit by digit does so at every place.
module _ (last : ℕ → ℕ) (f : ℕ → ℕ → ℕ)
    (digit-last : (b j : ℕ) → digit (last b) j ≡ f 0 (digit b j))
    (small : (x y : ℕ) → x < 2 → y < 2 → f x y < 2) where
  digit-digits : (n a b j : ℕ) → a ≤ n → digit (digits last f n a b) j ≡ f (digit a j) (digit b j)
  unfolding digit
  digit-digits zero zero b j h = digit-last b j ∙ ap (λ d. f d (digit b j)) (sym (digit-zero j))
  digit-digits (suc n) zero b j h = digit-last b j ∙ ap (λ d. f d (digit b j)) (sym (digit-zero j))
  digit-digits zero (suc a) b j h = absurd (omega arith)
  digit-digits (suc n) (suc a) b zero h =
      omega (arith, small (suc a % 2) (b % 2) (omega arith) (omega arith))
  digit-digits (suc n) (suc a) b (suc j) h =
      ap (λ d. digit d j) (omega (arith, small (suc a % 2) (b % 2) (omega arith) (omega arith)))
      ∙ digit-digits n (suc a / 2) (b / 2) j (omega arith)

pub digit-bit_or : (a b j : ℕ) → digit (bit_or a b) j ≡ max (digit a j) (digit b j)
digit-bit_or a b j =
    ap (λ d. digit d j) (bit_or-bitwise a b)
    ∙ digit-digits (λ y. y) max (λ y i. omega arith) (λ x y p q. omega arith) a a b j (omega arith)

pub digit-bit_and : (a b j : ℕ) → digit (bit_and a b) j ≡ min (digit a j) (digit b j)
digit-bit_and a b j =
    ap (λ d. digit d j) (bit_and-bitwise a b)
    ∙ digit-digits (λ y. 0) min (λ y i. omega (arith, digit-zero i)) (λ x y p q. omega arith) a a b
        j (omega arith)

differ_small : (x y : ℕ) → x < 2 → y < 2 → (differ x y < 2) × (differ (differ x y) y ≡ x)
differ_small zero zero h k = (omega arith, refl)
differ_small zero (suc zero) h k = (omega arith, refl)
differ_small (suc zero) zero h k = (omega arith, refl)
differ_small (suc zero) (suc zero) h k = (omega arith, refl)
differ_small (suc (suc x)) y h k = absurd (omega arith)
differ_small zero (suc (suc y)) h k = absurd (omega arith)
differ_small (suc zero) (suc (suc y)) h k = absurd (omega arith)

pub digit-bit_xor : (a b j : ℕ) → digit (bit_xor a b) j ≡ differ (digit a j) (digit b j)
digit-bit_xor a b j =
    ap (λ d. digit d j) (bit_xor-bitwise a b)
    ∙ digit-digits (λ y. y) differ (λ y i. refl) (λ x y p q. (differ_small x y p q).0) a a b j
        (omega arith)

-- `v << b`: zeros below place `b`, and the digits of `v` from there on.
pub digit-shift_below : (v b j : ℕ) → j < b → digit (v * 2 ^ b) j ≡ 0
unfolding digit
digit-shift_below v zero j h = absurd (omega arith)
digit-shift_below v (suc b) zero h = omega (arith, shift_suc v b)
digit-shift_below v (suc b) (suc j) h =
    ap (λ d. digit d j) (omega (arith, shift_suc v b)) ∙ digit-shift_below v b j (omega arith)

pub digit-shift_above : (v b j : ℕ) → digit (v * 2 ^ b) (b + j) ≡ digit v j
unfolding digit
digit-shift_above v zero j =
    ap₂ digit {x = v * 2 ^ 0} {y = v} {u = 0 + j} {v = j} (omega arith) (omega arith)
digit-shift_above v (suc b) j =
    ap (digit (v * 2 ^ suc b)) {x = suc b + j} {y = suc (b + j)} (omega arith)
    ∙ ap (λ d. digit d (b + j)) (omega (arith, shift_suc v b))
    ∙ digit-shift_above v b j

-- `2 ^ c - 1`: ones below place `c`, zeros from there on.
pub digit-ones_below : (c j : ℕ) → j < c → digit (2 ^ c - 1) j ≡ 1
unfolding digit
digit-ones_below zero j h = absurd (omega arith)
digit-ones_below (suc c) zero h = omega (arith, pow-suc 2 c, one-le-pow c 2)
digit-ones_below (suc c) (suc j) h =
    ap (λ d. digit d j) (omega (arith, pow-suc 2 c)) ∙ digit-ones_below c j (omega arith)

pub digit-ones_above : (c j : ℕ) → c ≤ j → digit (2 ^ c - 1) j ≡ 0
unfolding digit
digit-ones_above zero j h = digit-zero j
digit-ones_above (suc c) zero h = absurd (omega arith)
digit-ones_above (suc c) (suc j) h =
    ap (λ d. digit d j) (omega (arith, pow-suc 2 c)) ∙ digit-ones_above c j (omega arith)

-- The complement of a word of `n` digits.
pub digit-complement : (n m j : ℕ) → m < 2 ^ n → j < n → digit (2 ^ n - 1 - m) j ≡ 1 - digit m j
unfolding digit
digit-complement zero m j h k = absurd (omega arith)
digit-complement (suc n) m zero h k = omega (arith, pow-suc 2 n)
digit-complement (suc n) m (suc j) h k =
    ap (λ d. digit d j) (omega (arith, pow-suc 2 n))
    ∙ digit-complement n (m / 2) j (omega (arith, pow-suc 2 n)) (omega arith)

-- `x << k` and `a &^ b` on uint64.
unfoldable pub shl_word : ℕ → ℕ → ℕ
shl_word x k = x * 2 ^ k % 2 ^ 64

unfoldable pub and_not_word : ℕ → ℕ → ℕ
and_not_word a b = bit_and a (2 ^ 64 - 1 - b)

halve_mod : (x p : ℕ) → 0 < p → x % (2 * p) / 2 ≡ x / 2 % p
halve_mod x p h = sym (
    ap (λ t. t % p) {x = x / 2} {y = r / 2 + p * q} (omega (arith, whole))
    ∙ add-mul-mod_self_left (r / 2) p q
    ∙ mod-eq_of_lt (omega (arith, small)))
  where
    q : ℕ
    q = x / (2 * p)

    r : ℕ
    r = x % (2 * p)

    whole : 2 * (p * q) + r ≡ x
    whole = omega (arith, div-add-mod x (2 * p))

    small : r < 2 * p
    small = omega arith

pub digit-mod : (n x j : ℕ) → j < n → digit (x % 2 ^ n) j ≡ digit x j
unfolding digit
digit-mod zero x j h = absurd (omega arith)
digit-mod (suc n) x zero h =
    omega (arith, div-add-mod x (2 ^ suc n), ap (λ (t : ℕ). t * (x / 2 ^ suc n)) (pow-suc 2 n))
digit-mod (suc n) x (suc j) h =
    ap (λ t. digit (x % t / 2) j) (pow-suc 2 n ∙ mul_comm (2 ^ n) 2)
    ∙ ap (λ t. digit t j) (halve_mod x (2 ^ n) (one-le-pow n 2 (omega arith)))
    ∙ digit-mod n (x / 2) j (omega arith)

pub digit-shl_word_below : (x b j : ℕ) → j < b → j < 64 → digit (shl_word x b) j ≡ 0
unfolding shl_word
digit-shl_word_below x b j h k = digit-mod 64 (x * 2 ^ b) j k ∙ digit-shift_below x b j h

pub digit-shl_word_above : (x b j : ℕ) → b ≤ j → j < 64 → digit (shl_word x b) j ≡ digit x (j - b)
unfolding shl_word
digit-shl_word_above x b j h k =
    digit-mod 64 (x * 2 ^ b) j k
    ∙ ap (digit (x * 2 ^ b)) {x = j} {y = b + (j - b)} (omega arith)
    ∙ digit-shift_above x b (j - b)

digit-one_high : (j : ℕ) → 0 < j → digit 1 j ≡ 0
unfolding digit
digit-one_high zero h = absurd (omega arith)
digit-one_high (suc j) h = digit-zero j

-- `1 << b` has the one digit.
pub digit-shl_word_one_self : (b : ℕ) → b < 64 → digit (shl_word 1 b) b ≡ 1
unfolding digit
digit-shl_word_one_self b h =
    digit-shl_word_above 1 b b (omega arith) h ∙ ap (digit 1) {x = b - b} {y = 0} (omega arith)

pub digit-shl_word_one_ne : (b j : ℕ) → b ≢ j → j < 64 → digit (shl_word 1 b) j ≡ 0
digit-shl_word_one_ne b j h k = elim (dec_lt j b) [
  | yes p ↦ digit-shl_word_below 1 b j p k
  | no p ↦ digit-shl_word_above 1 b j (omega arith) k ∙ digit-one_high (j - b) (omega arith)
]

pub shl_word-lt : (x k : ℕ) → shl_word x k < 2 ^ 64
unfolding shl_word
shl_word-lt x k = omega arith

-- The digits of `((1 << c) - 1) << b`, with all ones for a count of 64, are those from `b` to `b + c`.
pub digit-mask_inside :
    (c b j : ℕ) → b ≤ j → j < b + c → j < 64 → digit (shl_word (2 ^ c - 1) b) j ≡ 1
digit-mask_inside c b j h k l =
    digit-shl_word_above _ b j h l ∙ digit-ones_below c (j - b) (omega arith)

pub digit-mask_outside :
    (c b j : ℕ) → (j < b) ⊎ (b + c ≤ j) → j < 64 → digit (shl_word (2 ^ c - 1) b) j ≡ 0
digit-mask_outside c b j (inl h) l = digit-shl_word_below _ b j h l
digit-mask_outside c b j (inr h) l =
    digit-shl_word_above _ b j (omega arith) l ∙ digit-ones_above c (j - b) (omega arith)

pub digit-and_not_word :
    (a b j : ℕ) → b < 2 ^ 64 → j < 64 → digit (and_not_word a b) j ≡ min (digit a j) (1 - digit b j)
unfolding and_not_word
digit-and_not_word a b j h k =
    digit-bit_and a (2 ^ 64 - 1 - b) j ∙ ap (min (digit a j)) (digit-complement 64 b j h k)

digit-high : (n x j : ℕ) → x < 2 ^ n → n ≤ j → digit x j ≡ 0
unfolding digit
digit-high zero x j h k = ap (λ t. digit t j) {x = x} {y = 0} (omega arith) ∙ digit-zero j
digit-high (suc n) x zero h k = absurd (omega arith)
digit-high (suc n) x (suc j) h k = digit-high n (x / 2) j (omega (arith, pow-suc 2 n)) (omega arith)

zero_of_digits_below : (n x : ℕ) → x ≤ n → ((j : ℕ) → digit x j ≡ 0) → x ≡ 0
unfolding digit
zero_of_digits_below zero x h z = omega arith
zero_of_digits_below (suc n) zero h z = refl
zero_of_digits_below (suc n) (suc x) h z =
    omega (arith, z 0, zero_of_digits_below n (suc x / 2) (omega arith) (λ j. z (suc j)))

pub zero_of_digits : (x : ℕ) → ((j : ℕ) → digit x j ≡ 0) → x ≡ 0
zero_of_digits x = zero_of_digits_below x x (omega arith)

-- `a & (1 << b)` is zero exactly when the digit of `a` at `b` is.
pub bit_and-one_iff : (a b : ℕ) → b < 64 → (bit_and a (shl_word 1 b) ≡ 0) ↔ (digit a b ≡ 0)
bit_and-one_iff a b h = (
  λ e. omega (
    arith,
    ap (λ t. digit t b) e,
    digit-zero b,
    digit-bit_and a (shl_word 1 b) b,
    digit-shl_word_one_self b h,
    digit-lt_two a b,
  ),
  λ e. zero_of_digits _ (λ j. digit-bit_and a (shl_word 1 b) j ∙ at_place e j),
)
  where
    at_place : digit a b ≡ 0 → (j : ℕ) → min (digit a j) (digit (shl_word 1 b) j) ≡ 0
    at_place e j = elim (ℕ_discrete b j) [
      | yes p ↦ omega (arith, ap (digit a) p)
      | no d ↦ elim (dec_lt j 64) [
        | yes k ↦ omega (arith, digit-shl_word_one_ne b j d k)
        | no k ↦ omega (arith, digit-high 64 (shl_word 1 b) j (shl_word-lt 1 b) (omega arith))
      ]
    ]

eq_of_digits_below : (n a b : ℕ) → a ≤ n → ((j : ℕ) → digit a j ≡ digit b j) → a ≡ b
unfolding digit
eq_of_digits_below n zero b h e = sym (zero_of_digits b (λ j. sym (e j) ∙ digit-zero j))
eq_of_digits_below zero (suc a) b h e = absurd (omega arith)
eq_of_digits_below (suc n) (suc a) b h e =
    omega (arith, e 0, eq_of_digits_below n (suc a / 2) (b / 2) (omega arith) (λ j. e (suc j)))

pub bit_xor_cancel : (a b : ℕ) → bit_xor (bit_xor a b) b ≡ a
bit_xor_cancel a b =
    eq_of_digits_below (bit_xor (bit_xor a b) b) (bit_xor (bit_xor a b) b) a (omega arith) (λ j.
      digit-bit_xor (bit_xor a b) b j
      ∙ ap (λ d. differ d (digit b j)) (digit-bit_xor a b j)
      ∙ (differ_small (digit a j) (digit b j) (digit-lt_two a j) (digit-lt_two b j)).1)

lt_of_digits : (n a : ℕ) → ((j : ℕ) → n ≤ j → digit a j ≡ 0) → a < 2 ^ n
unfolding digit
lt_of_digits zero a z = omega (arith, zero_of_digits a (λ j. z j (omega arith)))
lt_of_digits (suc n) a z =
    omega (arith, pow-suc 2 n, lt_of_digits n (a / 2) (λ j h. z (suc j) (omega arith)))

pub bit_xor-lt : (n a b : ℕ) → a < 2 ^ n → b < 2 ^ n → bit_xor a b < 2 ^ n
bit_xor-lt n a b h k =
    lt_of_digits n (bit_xor a b)
      (λ j l. digit-bit_xor a b j ∙ ap₂ differ (digit-high n a j h l) (digit-high n b j k l))
