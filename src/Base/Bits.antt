-- ===== src/Base/Bits.antt =====
-- Tag sets are bit masks: the binary digits of `&`, `|` and `^`, bounds, and low masks, at every
-- width.
use Prim.Native.Nat.{ℕ, zero, suc, ◌+◌, ◌-◌, ◌*◌, ◌/◌, ◌%◌, ◌^◌, ◌≤◌, ◌<◌, min, max}
use Prim.Native.Nat.{bit_and, bit_or, bit_xor, digits, bitwise, differ}
use Prim.Native.Nat.{bit_and-bitwise, bit_or-bitwise, bit_xor-bitwise}
use mathlib.Core.Path.{◌≡◌, refl, sym, ap, ◌∙◌}
use mathlib.Core.Logic.{inl, inr}
use mathlib.Core.Bool.{Bool, true, false, ◌&&◌, ◌||◌, not}
use native.Mathlib.Nat.{le_refl, pow-suc, one-le-pow}
use native.Mathlib.Omega.{arith}
use monowm.Base.Tests.{◌==◌, ==_iff, Bool-cases}

-- Any operation on masks that works digit by digit: `rest` is its value where the left mask has
-- run out of digits, and `on` that at two digits.
module _ (rest : ℕ → ℕ) (on : ℕ → ℕ → ℕ) where
  one_more : (n a b : ℕ) → a ≤ n → digits rest on (suc n) a b ≡ digits rest on n a b
  one_more zero (suc a) b h = absurd (omega arith)
  one_more zero zero b h = refl
  one_more (suc n) zero b h = refl
  one_more (suc n) (suc a) b h = rw (one_more n (suc a / 2) (b / 2) (omega arith)) refl

  enough : (n a b : ℕ) → a ≤ n → digits rest on n a b ≡ bitwise rest on a b
  enough zero zero b h = refl
  enough zero (suc a) b h = absurd (omega arith)
  enough (suc n) a b h = elim (Bool-cases (a == suc n)) [
    | inl e ↦ ap (λ (k : ℕ). digits rest on k a b) (sym ((==_iff a (suc n)).0 e))
    | inr e ↦ one_more n a b (ground arith) ∙ enough n a b (ground arith)
  ]

  by_halves :
      (op : ℕ → ℕ → ℕ) (a b : ℕ)
      → ((x y : ℕ) → op x y ≡ bitwise rest on x y)
      → ((y : ℕ) → rest y ≡ rest (y / 2) * 2 + on 0 (y % 2))
      → op a b ≡ op (a / 2) (b / 2) * 2 + on (a % 2) (b % 2)
  by_halves op zero b means ended = means 0 b ∙ ended b ∙ rw (means 0 (b / 2)) refl
  by_halves op (suc a) b means ended = omega (
    arith,
    means (suc a) b,
    means (suc a / 2) (b / 2),
    enough a (suc a / 2) (b / 2) (omega arith),
  )

or_halves : (a b : ℕ) → bit_or a b ≡ bit_or (a / 2) (b / 2) * 2 + max (a % 2) (b % 2)
or_halves a b =
    by_halves (λ y. y) max bit_or a b (λ x y. simp bit_or-bitwise refl) (λ y. omega arith)

and_halves : (a b : ℕ) → bit_and a b ≡ bit_and (a / 2) (b / 2) * 2 + min (a % 2) (b % 2)
and_halves a b =
    by_halves (λ y. 0) min bit_and a b (λ x y. simp bit_and-bitwise refl) (λ y. omega arith)

xor_differ : (a b : ℕ) → bit_xor a b ≡ bit_xor (a / 2) (b / 2) * 2 + differ (a % 2) (b % 2)
xor_differ a b =
    by_halves (λ y. y) differ bit_xor a b (λ x y. simp bit_xor-bitwise refl) (λ y. omega arith)

-- The digit at a place: `a & (1 << i)` in the C sources.
pub test_bit : ℕ → ℕ → Bool
test_bit a zero = a % 2 == 1
test_bit a (suc i) = test_bit (a / 2) i

half_and : (a b : ℕ) → bit_and a b / 2 ≡ bit_and (a / 2) (b / 2)
half_and a b = omega (arith, and_halves a b)

half_or : (a b : ℕ) → bit_or a b / 2 ≡ bit_or (a / 2) (b / 2)
half_or a b = omega (arith, or_halves a b)

differ_digit : (a b : ℕ) → a < 2 → b < 2 → differ a b ≡ (a + b) % 2
differ_digit zero b p q = omega arith
differ_digit (suc zero) zero p q = refl
differ_digit (suc zero) (suc zero) p q = refl
differ_digit (suc zero) (suc (suc b)) p q = absurd (omega arith)
differ_digit (suc (suc a)) b p q = absurd (omega arith)

xor_step : (a b : ℕ) → bit_xor a b ≡ bit_xor (a / 2) (b / 2) * 2 + (a % 2 + b % 2) % 2
xor_step a b =
    omega (arith, xor_differ a b, differ_digit (a % 2) (b % 2) (omega arith) (omega arith))

half_xor : (a b : ℕ) → bit_xor a b / 2 ≡ bit_xor (a / 2) (b / 2)
half_xor a b = omega (arith, xor_step a b)

-- Exclusive or of two tests.
abbrev pub differs : Bool → Bool → Bool
differs true b = not b
differs false b = b

pub test_bit-and : (a b i : ℕ) → test_bit (bit_and a b) i ≡ (test_bit a i && test_bit b i)
unfolding test_bit
test_bit-and a b zero = ground (arith, and_halves a b)
test_bit-and a b (suc i) = rw half_and (test_bit-and (a / 2) (b / 2) i)

pub test_bit-or : (a b i : ℕ) → test_bit (bit_or a b) i ≡ (test_bit a i || test_bit b i)
unfolding test_bit
test_bit-or a b zero = ground (arith, or_halves a b)
test_bit-or a b (suc i) = rw half_or (test_bit-or (a / 2) (b / 2) i)

pub test_bit-xor : (a b i : ℕ) → test_bit (bit_xor a b) i ≡ differs (test_bit a i) (test_bit b i)
unfolding test_bit
test_bit-xor a b zero = ground (arith, xor_step a b)
test_bit-xor a b (suc i) = rw half_xor (test_bit-xor (a / 2) (b / 2) i)

pub test_bit-low : (a : ℕ) → test_bit a 0 ≡ (a % 2 == 1)
unfolding test_bit
test_bit-low a = refl

pub test_bit-suc : (a i : ℕ) → test_bit a (suc i) ≡ test_bit (a / 2) i
unfolding test_bit
test_bit-suc a i = refl

pub test_bit-zero : (i : ℕ) → test_bit 0 i ≡ false
unfolding test_bit
test_bit-zero zero = refl
test_bit-zero (suc i) = test_bit-zero i

half_pow : (i : ℕ) → 2 ^ suc i / 2 ≡ 2 ^ i
half_pow i = omega (arith, pow-suc 2 i)

-- A mask of one tag has that digit alone.
pub test_bit-pow : (i j : ℕ) → test_bit (2 ^ i) j ≡ (i == j)
unfolding test_bit
test_bit-pow zero zero = refl
test_bit-pow zero (suc j) = ground (arith, test_bit-zero j)
test_bit-pow (suc i) zero = ground (arith, pow-suc 2 i)
test_bit-pow (suc i) (suc j) = rw half_pow (ground (arith, test_bit-pow i j))

-- Masks with the same digits are equal.
pub eq_of_test_bit : (n a b : ℕ) → a ≤ n → b ≤ n → ((i : ℕ) → test_bit a i ≡ test_bit b i) → a ≡ b
unfolding test_bit
eq_of_test_bit zero a b p q h = omega arith
eq_of_test_bit (suc n) a b p q h =
    let low : a % 2 ≡ b % 2 = ground (arith, h 0) in
    let rest = eq_of_test_bit n (a / 2) (b / 2) (omega arith) (omega arith) (λ i. h (suc i)) in
    omega arith

pub test_bit-lt : (k a i : ℕ) → a < 2 ^ k → k ≤ i → test_bit a i ≡ false
unfolding test_bit
test_bit-lt zero a i h g = let e : a ≡ 0 = omega arith in rw e (test_bit-zero i)
test_bit-lt (suc k) a zero h g = absurd (omega arith)
test_bit-lt (suc k) a (suc i) h g =
    test_bit-lt k (a / 2) i (omega (arith, pow-suc 2 k)) (omega arith)

pub xor-lt : (k a b : ℕ) → a < 2 ^ k → b < 2 ^ k → bit_xor a b < 2 ^ k
xor-lt zero a b p q =
    let e : a ≡ 0 = omega arith in let f : b ≡ 0 = omega arith in rw (e, f) (omega arith)
xor-lt (suc k) a b p q = omega (
  arith,
  pow-suc 2 k,
  xor_step a b,
  xor-lt k (a / 2) (b / 2) (omega (arith, pow-suc 2 k)) (omega (arith, pow-suc 2 k)),
)

pub or-lt : (k a b : ℕ) → a < 2 ^ k → b < 2 ^ k → bit_or a b < 2 ^ k
or-lt zero a b p q =
    let e : a ≡ 0 = omega arith in let f : b ≡ 0 = omega arith in rw (e, f) (omega arith)
or-lt (suc k) a b p q = omega (
  arith,
  pow-suc 2 k,
  or_halves a b,
  or-lt k (a / 2) (b / 2) (omega (arith, pow-suc 2 k)) (omega (arith, pow-suc 2 k)),
)

and_zero : (a : ℕ) → bit_and a 0 ≡ 0
and_zero a =
    eq_of_test_bit (bit_and a 0) (bit_and a 0) 0 (le_refl _) (omega arith)
      (λ i. rw (test_bit-and, test_bit-zero) (and_false (test_bit a i)))
  where
    and_false : (c : Bool) → (c && false) ≡ false
    and_false true = refl
    and_false false = refl

pub and-le_right : (n a b : ℕ) → b ≤ n → bit_and a b ≤ b
and-le_right zero a b h = let e : b ≡ 0 = omega arith in rw e (omega (arith, and_zero a))
and-le_right (suc n) a b h =
    omega (arith, and_halves a b, and-le_right n (a / 2) (b / 2) (omega arith))

pub and-lt : (k a b : ℕ) → b < 2 ^ k → bit_and a b < 2 ^ k
and-lt k a b h = omega (arith, and-le_right b a b (le_refl _))

-- Two masks have a digit in common: `a & b` as a C condition.
abbrev pub shares : ℕ → ℕ → Bool
shares a b = not (bit_and a b == 0)

-- A test against a one-bit mask reads that digit.
pub shares-pow : (a i : ℕ) → shares a (2 ^ i) ≡ test_bit a i
unfolding test_bit
shares-pow a zero = ground (arith, and_halves a 1, and_zero (a / 2))
shares-pow a (suc i) =
    ground (arith, pow-suc 2 i, half_pow i, and_halves a (2 ^ suc i), shares-pow (a / 2) i)

-- The low mask keeps what fits under it.
pub and_low : (k a : ℕ) → a < 2 ^ k → bit_and a (2 ^ k - 1) ≡ a
and_low zero a h = let e : a ≡ 0 = omega arith in rw e refl
and_low (suc k) a h =
    let half : (2 ^ suc k - 1) / 2 ≡ 2 ^ k - 1 = omega (arith, pow-suc 2 k, one-le-pow k 2) in
    omega (
      arith,
      pow-suc 2 k,
      one-le-pow k 2,
      and_halves a (2 ^ suc k - 1),
      ap (bit_and (a / 2)) half,
      and_low k (a / 2) (omega (arith, pow-suc 2 k)),
    )

pub and-le_left : (n a b : ℕ) → a ≤ n → bit_and a b ≤ a
and-le_left zero a b h =
    let e : a ≡ 0 = omega arith in rw e (omega (arith, and_halves 0 b, none_and (b / 2)))
  where
    none_and : (c : ℕ) → bit_and 0 c ≡ 0
    none_and c =
        eq_of_test_bit (bit_and 0 c) (bit_and 0 c) 0 (le_refl _) (omega arith)
          (λ i. rw (test_bit-and, test_bit-zero) refl)
and-le_left (suc n) a b h =
    omega (arith, and_halves a b, and-le_left n (a / 2) (b / 2) (omega arith))

half_sub_and : (a b : ℕ) → (a - bit_and a b) / 2 ≡ a / 2 - bit_and (a / 2) (b / 2)
half_sub_and a b = omega (arith, and_halves a b, and-le_left (a / 2) (a / 2) (b / 2) (le_refl _))

-- `a & ~b`, as a difference.
pub test_bit-sub_and :
    (a b i : ℕ) → test_bit (a - bit_and a b) i ≡ (test_bit a i && not (test_bit b i))
unfolding test_bit
test_bit-sub_and a b zero =
    ground (arith, and_halves a b, and-le_left (a / 2) (a / 2) (b / 2) (le_refl _))
test_bit-sub_and a b (suc i) = rw half_sub_and (test_bit-sub_and (a / 2) (b / 2) i)

pub pow_pos : (i : ℕ) → 0 < 2 ^ i
pow_pos i = omega (arith, one-le-pow i 2)

-- A digit's mask is below the end of a longer mask.
pub pow-lt : (k i : ℕ) → i < k → 2 ^ i < 2 ^ k
pow-lt zero i l = elim l [ ]
pow-lt (suc k) zero l = omega (arith, pow-suc 2 k, one-le-pow k 2)
pow-lt (suc k) (suc i) l = omega (arith, pow-suc 2 k, pow-suc 2 i, pow-lt k i (omega arith))

-- The mask of all low digits.
pub test_bit-ones : (k i : ℕ) → i < k → test_bit (2 ^ k - 1) i ≡ true
test_bit-ones k i h = ground (
  arith,
  ap (λ (a : ℕ). test_bit a i) (and_low k (2 ^ i) (pow-lt k i h)),
  test_bit-and (2 ^ i) (2 ^ k - 1) i,
  test_bit-pow i i,
)
