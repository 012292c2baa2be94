-- ===== src/Prelude/Bits.antt =====
-- `&` and `|` at variables: one equation for the lowest digit, masks, disjoint fields, tables over
-- small ranges, and what the power-of-two test of an alignment gives.
use Prim.Native.Nat.{
  ℕ, zero, suc, ◌+◌, ◌-◌, ◌*◌, ◌/◌, ◌%◌, ◌^◌, ◌≤◌, ◌<◌, min, max, bit_and, bit_or, digits,
  bit_and-bitwise, bit_or-bitwise,
}
use native.Mathlib.Nat.{pow-suc, one-le-pow, mod-eq_of_lt}
use native.Mathlib.Decide.{ℕ_discrete}
use mathlib.Core.Path.{◌≡◌, refl, ap, ◌∙◌}
use mathlib.Core.Logic.{◌≢◌, ◌≢◌}
use mathlib.Core.Bool.{Bool, true, ◌&&◌}
use native.Mathlib.Omega.{arith}
use package.udynlink.Prelude.Words.{shl}

abbrev pub all_below : ℕ → (ℕ → Bool) → Bool
all_below zero p = true
all_below (suc n) p = p n && all_below n p

pub all_below_sound : (n : ℕ) (p : ℕ → Bool) (x : ℕ) → all_below n p ≡ true → x < n → p x ≡ true
all_below_sound zero p x h lt = absurd (omega arith)
all_below_sound (suc n) p x h lt = ground (arith, all_below_sound n p x)

-- The operations run on fuel, one unit for each digit of the first operand. Fuel to spare changes
-- nothing.
module _ (rest_of : ℕ → ℕ) (digit : ℕ → ℕ → ℕ) where
  one_spare : (b n a : ℕ) → a ≤ n → digits rest_of digit (suc n) a b ≡ digits rest_of digit n a b
  one_spare b zero zero low = refl
  one_spare b zero (suc a) low = absurd (omega arith)
  one_spare b (suc n) zero low = refl
  one_spare b (suc n) (suc a) low = rw (one_spare (b / 2) n (suc a / 2) (omega arith))

  all_spare :
      (m n a b : ℕ) → n ≤ m → a ≤ n → digits rest_of digit m a b ≡ digits rest_of digit n a b
  all_spare zero n a b below low = let none_left : n ≡ 0 = omega arith in rw none_left
  all_spare (suc m) n a b below low = elim (ℕ_discrete n (suc m)) [
    | yes same ↦ rw same
    | no more ↦ one_spare b m a (omega arith) ∙ all_spare m n a b (omega arith) low
  ]

  -- The lowest digit, and the others at half the operands.
  lowest :
      (a b : ℕ)
      → digits rest_of digit (suc a) (suc a) b
        ≡ digits rest_of digit (suc a / 2) (suc a / 2) (b / 2) * 2 + digit (suc a % 2) (b % 2)
  lowest a b = rw (all_spare a (suc a / 2) (suc a / 2) (b / 2) (omega arith) (omega arith))

bit_and_nothing : (b : ℕ) → bit_and 0 b ≡ 0
bit_and_nothing = bit_and-bitwise 0

bit_or_nothing : (b : ℕ) → bit_or 0 b ≡ b
bit_or_nothing = bit_or-bitwise 0

pub bit_or_step : (a b : ℕ) → bit_or a b ≡ bit_or (a / 2) (b / 2) * 2 + max (a % 2) (b % 2)
bit_or_step zero b = omega (arith, bit_or_nothing (b / 2), bit_or_nothing b)
bit_or_step (suc a) b =
    let halves = bit_or-bitwise (suc a / 2) (b / 2) in
    omega (arith, bit_or-bitwise (suc a) b, lowest (λ y. y) max a b, halves)

pub bit_and_step : (x y : ℕ) → bit_and x y ≡ bit_and (x / 2) (y / 2) * 2 + min (x % 2) (y % 2)
bit_and_step zero y = omega (arith, bit_and_nothing (y / 2), bit_and_nothing y)
bit_and_step (suc x) y =
    let halves = bit_and-bitwise (suc x / 2) (y / 2) in
    omega (arith, bit_and-bitwise (suc x) y, lowest (λ b. 0) min x y, halves)

-- A number against 0 and against itself.
same_digits : (n a : ℕ) → a ≤ n → (bit_and a 0 ≡ 0) × (bit_or a 0 ≡ a) × (bit_and a a ≡ a)
same_digits n zero low = (bit_and_nothing 0, bit_or_nothing 0, bit_and_nothing 0)
same_digits zero (suc a) low = absurd (omega arith)
same_digits (suc n) (suc a) low =
    let (cleared, kept, shared) = same_digits n (suc a / 2) (omega arith) in
    (
      omega (arith, bit_and_step (suc a) 0, cleared),
      omega (arith, bit_or_step (suc a) 0, kept),
      omega (arith, bit_and_step (suc a) (suc a), shared),
    )

pub bit_and-zero : (a : ℕ) → bit_and a 0 ≡ 0
bit_and-zero a = (same_digits a a (omega arith)).0

pow_halves : (k q : ℕ) → q * 2 ^ suc k ≡ 2 * (q * 2 ^ k)
pow_halves k q = ground (arith, ap (λ (p : ℕ). q * p) (pow-suc 2 k))

-- `(q << k) | r` is a sum when `r` fits `k` bits.
pub bit_or_fields : (k q r : ℕ) → r < 2 ^ k → bit_or (shl q k) r ≡ q * 2 ^ k + r
bit_or_fields zero q r fits = ground (arith, same_digits q q (omega arith))
bit_or_fields (suc k) q r fits =
    let upper = bit_or_fields k q (r / 2) (omega arith) in
    ground (arith, upper, pow_halves k q, bit_or_step (q * 2 ^ suc k) r)

-- The same with the low field in front.
pub bit_or_fields_low : (k q r : ℕ) → r < 2 ^ k → bit_or r (shl q k) ≡ q * 2 ^ k + r
bit_or_fields_low zero q r fits =
    let e : r ≡ 0 = omega arith in rw e (bit_or_nothing (q * 1) ∙ omega arith)
bit_or_fields_low (suc k) q r fits = ground (
  arith,
  bit_or_step r (q * 2 ^ suc k),
  pow_halves k q,
  bit_or_fields_low k q (r / 2) (omega arith),
)

-- A mask of `k` low bits keeps the remainder by `2 ^ k`.
pub bit_and_low : (k q r : ℕ) → r < 2 ^ k → bit_and (q * 2 ^ k + r) (2 ^ k - 1) ≡ r
bit_and_low zero q r fits = rw bit_and-zero (omega arith)
bit_and_low (suc k) q r fits = ground (
  arith,
  bit_and_step (q * 2 ^ suc k + r) (2 ^ suc k - 1),
  pow_halves k q,
  pow-suc 2 k,
  bit_and_low k q (r / 2) (omega arith),
)

pub bit_and_mask : (k a : ℕ) → bit_and a (2 ^ k - 1) ≡ a % 2 ^ k
bit_and_mask k a = ground (arith, one-le-pow k 2, bit_and_low k (a / 2 ^ k) (a % 2 ^ k))

-- The complement of such a mask clears the low bits. `x & ~(2^k - 1)` on `w` bits.
bit_and_clear_fields :
    (k w q r : ℕ)
    → r < 2 ^ k
    → q * 2 ^ k + r < 2 ^ w
    → bit_and (q * 2 ^ k + r) (2 ^ w - 2 ^ k) ≡ q * 2 ^ k
bit_and_clear_fields zero w q r fits below =
    omega (arith, bit_and_mask w (q * 2 ^ 0 + r), mod-eq_of_lt below)
bit_and_clear_fields (suc k) zero q r fits below = ground (arith, bit_and_nothing (1 - 2 ^ suc k))
bit_and_clear_fields (suc k) (suc w) q r fits below = ground (
  arith,
  bit_and_step (q * 2 ^ suc k + r) (2 ^ suc w - 2 ^ suc k),
  pow_halves k q,
  pow-suc 2 k,
  pow-suc 2 w,
  one-le-pow k 2,
  bit_and_clear_fields k w q (r / 2),
)

pub bit_and_clear : (k w x : ℕ) → x < 2 ^ w → bit_and x (2 ^ w - 2 ^ k) ≡ x / 2 ^ k * 2 ^ k
bit_and_clear k w x h =
    ground (arith, one-le-pow k 2, bit_and_clear_fields k w (x / 2 ^ k) (x % 2 ^ k))

abbrev pub IsPow2 : ℕ → Type 0
IsPow2 a = (k : ℕ) × (a ≡ 2 ^ k)

-- An odd number that shares no digit with its predecessor is 1.
pow2_odd : (a : ℕ) → a % 2 ≡ 1 → bit_and a (a - 1) ≡ 0 → a ≡ 1
pow2_odd a odd e =
    let half : (a - 1) / 2 ≡ a / 2 = omega arith in
    let shared : bit_and (a / 2) ((a - 1) / 2) ≡ a / 2 =
      rw half (same_digits (a / 2) (a / 2) (omega arith)).2 in
    omega (arith, bit_and_step a (a - 1), shared)

-- For an even one, the halves share none.
pow2_even : (a : ℕ) → 0 < a → a % 2 ≢ 1 → bit_and a (a - 1) ≡ 0 → bit_and (a / 2) (a / 2 - 1) ≡ 0
pow2_even a pos even e =
    let half : (a - 1) / 2 ≡ a / 2 - 1 = omega arith in
    rw (← half) (omega (arith, bit_and_step a (a - 1)))

IsPow2-fuel : (n a : ℕ) → a ≤ n → 0 < a → bit_and a (a - 1) ≡ 0 → IsPow2 a
IsPow2-fuel zero a h pos e = absurd (omega arith)
IsPow2-fuel (suc n) a h pos e = elim (ℕ_discrete (a % 2) 1) [
  | yes odd ↦ (0, pow2_odd a odd e)
  | no even ↦
      let (k, half) = IsPow2-fuel n (a / 2) (omega arith) (omega arith) (pow2_even a pos even e) in
      (suc k, omega (arith, pow-suc 2 k, half))
]

-- The power-of-two test of the section table.
pub IsPow2-of-bit_and : (a : ℕ) → 0 < a → bit_and a (a - 1) ≡ 0 → IsPow2 a
IsPow2-of-bit_and a pos e = IsPow2-fuel a a (omega arith) pos e
