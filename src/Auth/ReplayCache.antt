-- ===== src/Auth/ReplayCache.antt =====
-- ReplayCache of pkg/auth/auth.go without a file: the nonces that were used and when each expires.
-- The map is an association list; the heap of expiries is a list with the earliest first, which is
-- what heap.Push and heap.Pop of container/heap make of it.
pub mod Laws
use chitanda.Base.{
  ltb, leb, ◌==◌, if◌then◌else◌, bytes_eq, bytes_eq→eq, bytes_eq_self, ltb→lt, lt→ltb, leb→le,
  le→leb, lt→leb, le→ltb, ==_iff, Bool-cases, Option-cases, some_inj, length, get_or, set, take,
  drop, replicate, All, All-take, All-drop, length-append, length-set, get_or-set_self,
  get_or-set_ne, length-replicate, get_or-replicate, take-append-drop, length-take, length-drop,
  take-append_exact, drop-append_exact, take-nil, take-add, drop-nil, drop-drop, All-append, ℕ,
  zero, suc, ◌+◌, ◌-◌, ◌*◌, ◌/◌, ◌%◌, ◌^◌, ◌≤◌, ◌<◌, min, max, bit_and, bit_or, bit_xor, ◌≡◌, refl,
  sym, ap, ap₂, ◌∙◌, ◌≢◌, ◌↔◌, ◌⊎◌, inl, inr, Bool, true, false, not, ◌&&◌, ◌||◌, Option, none,
  some, List, [], ◌∷◌, ◌++◌, map, append-nil, append_assoc, arith,
}
use chitanda.Auth.Signature.{max_clock_skew}

abbrev pub max_entries : ℕ
max_entries = 200000

pub record ReplayExpiry : Type 0 where
  pub nonce : List ℕ
  pub expiry : ℕ

pub record ReplayCache : Type 0 where
  pub expires : List (List ℕ × ℕ)
  pub expiry_queue : List ReplayExpiry
  pub closed : Bool

abbrev pub new_replay_cache : ReplayCache
new_replay_cache = record { expires = []; expiry_queue = []; closed = false }

unfoldable pub expiry_of : List (List ℕ × ℕ) → List ℕ → Option ℕ
expiry_of [] nonce = none
expiry_of ((n, e) ∷ rest) nonce =
    let found = expiry_of rest nonce in if bytes_eq n nonce then some e else found

unfoldable pub delete_nonce : List (List ℕ × ℕ) → List ℕ → List (List ℕ × ℕ)
delete_nonce [] nonce = []
delete_nonce ((n, e) ∷ rest) nonce =
    let kept = delete_nonce rest nonce in if bytes_eq n nonce then kept else (n, e) ∷ kept

unfoldable pub push : List ReplayExpiry → ReplayExpiry → List ReplayExpiry
push [] x = x ∷ []
push (y ∷ ys) x = let later = push ys x in if ltb x.expiry y.expiry then x ∷ y ∷ ys else y ∷ later

-- A popped entry takes its nonce out of the map, unless the nonce has a new expiry by now.
abbrev pub drop_entry : List (List ℕ × ℕ) → ReplayExpiry → List (List ℕ × ℕ)
drop_entry expires x = elim (expiry_of expires x.nonce) [
  | none ↦ expires
  | some current ↦ if current == x.expiry then delete_nonce expires x.nonce else expires
]

-- The loop that pops what is not after `now`.
unfoldable pub pop_expired :
    List (List ℕ × ℕ) → List ReplayExpiry → ℕ → List (List ℕ × ℕ) × List ReplayExpiry
pop_expired expires [] now = (expires, [])
pop_expired expires (x ∷ xs) now =
    let popped = pop_expired (drop_entry expires x) xs now in
    if not (ltb now x.expiry) then popped else (expires, x ∷ xs)

unfoldable pub sweep : ReplayCache → ℕ → ReplayCache
sweep c now =
    let (expires, queue) = pop_expired c.expires c.expiry_queue now in
    record c { expires = expires; expiry_queue = queue }

abbrev pub exists : ReplayCache → List ℕ → Bool
exists c nonce = elim (expiry_of c.expires nonce) [ none ↦ false | some e ↦ true ]

unfoldable pub check : ReplayCache → List ℕ → ℕ → ReplayCache × Bool
check c nonce now = let c' = sweep c now in (c', exists c' nonce)

-- `refused` is (false, nil); the others are (true, nil) and the two errors.
pub data Acceptance : Type 0 where
  accepted refused cache_closed capacity_exceeded : Acceptance

abbrev pub commit : ReplayCache → List ℕ → ℕ → ReplayCache
commit c nonce now =
    let expiry = now + 2 * max_clock_skew in
    record c {
      expires = (nonce, expiry) ∷ c.expires;
      expiry_queue = push c.expiry_queue (record { nonce = nonce; expiry = expiry });
    }

unfoldable pub accept : ReplayCache → List ℕ → ℕ → ReplayCache × Acceptance
accept c nonce now =
    let c' = sweep c now in
    if c.closed
    then (c, cache_closed)
    else if exists c' nonce
    then (c', refused)
    else if leb max_entries (length c'.expires)
    then (c', capacity_exceeded)
    else (commit c' nonce now, accepted)

unfoldable pub close : ReplayCache → ReplayCache
close c = record c { closed = true }

-- The cache after more calls of Accept and Check, each a nonce and its time.
pub data Use : Type 0 where
  accept_at check_at : List ℕ → ℕ → Use

abbrev pub time_of : Use → ℕ
time_of (accept_at nonce now) = now
time_of (check_at nonce now) = now

unfoldable pub uses : ReplayCache → List Use → ReplayCache
uses c [] = c
uses c (accept_at nonce now ∷ rest) = uses (accept c nonce now).0 rest
uses c (check_at nonce now ∷ rest) = uses (check c nonce now).0 rest
