-- ===== src/Bindings/Bits.antt =====
-- The binary digits of numbers, and those of `&` and `|`.
use Prim.Native.Nat.{min, max, digits, bit_and, bit_or, bit_and-bitwise, bit_or-bitwise}
use native.Mathlib.Nat.{
  pow-suc, one-le-pow, mod-add-div, mod-lt, mod-one, mod-eq_of_lt, add-mul-mod_self_left, mul_assoc,
  mul_comm,
}
use jbm.Prelude.{
  ℕ, zero, suc, ◌+◌, ◌-◌, ◌*◌, ◌/◌, ◌%◌, ◌^◌, ◌≤◌, ◌<◌, ◌≡◌, ◌∙◌, ap, refl, Bool, true, false, ◌&&◌,
  ◌||◌, arith, ltb, inl, inr, Bool-cases, not, sym, ==-self, ◌==◌,
}

-- Digit k, the lowest being 0.
unfoldable pub bit : ℕ → ℕ → Bool
bit a zero = a % 2 == 1
bit a (suc k) = bit (a / 2) k

pub bit-zero : (k : ℕ) → bit 0 k ≡ false
unfolding bit
bit-zero zero = refl
bit-zero (suc k) = bit-zero k

-- A digit of `min` and `max` is `&&` and `||` of digits.
low_digit :
    (q a b : ℕ)
    → (((q * 2 + min (a % 2) (b % 2)) % 2 == 1) ≡ (a % 2 == 1) && (b % 2 == 1))
      × (((q * 2 + max (a % 2) (b % 2)) % 2 == 1) ≡ (a % 2 == 1) || (b % 2 == 1))
      × ((q * 2 + min (a % 2) (b % 2)) / 2 ≡ q)
      × ((q * 2 + max (a % 2) (b % 2)) / 2 ≡ q)
low_digit q a b = ground arith

bit-and_digits : (n a b k : ℕ) → a ≤ n → bit (digits (λ b. zero) min n a b) k ≡ bit a k && bit b k
unfolding bit
bit-and_digits zero zero b k h = rw (bit-zero k) refl
bit-and_digits zero (suc a) b k h = absurd (omega arith)
bit-and_digits (suc n) zero b k h = rw (bit-zero k) refl
bit-and_digits (suc n) (suc a) b zero h =
    (low_digit (digits (λ b. zero) min n (suc a / 2) (b / 2)) (suc a) b).0
bit-and_digits (suc n) (suc a) b (suc k) h =
    rw (low_digit (digits (λ b. zero) min n (suc a / 2) (b / 2)) (suc a) b).2
      (bit-and_digits n (suc a / 2) (b / 2) k (omega arith))

bit-or_digits : (n a b k : ℕ) → a ≤ n → bit (digits (λ b. b) max n a b) k ≡ bit a k || bit b k
unfolding bit
bit-or_digits zero zero b k h = rw (bit-zero k) refl
bit-or_digits zero (suc a) b k h = absurd (omega arith)
bit-or_digits (suc n) zero b k h = rw (bit-zero k) refl
bit-or_digits (suc n) (suc a) b zero h =
    (low_digit (digits (λ b. b) max n (suc a / 2) (b / 2)) (suc a) b).1
bit-or_digits (suc n) (suc a) b (suc k) h =
    rw (low_digit (digits (λ b. b) max n (suc a / 2) (b / 2)) (suc a) b).3
      (bit-or_digits n (suc a / 2) (b / 2) k (omega arith))

pub bit-bit_and : (a b k : ℕ) → bit (bit_and a b) k ≡ bit a k && bit b k
bit-bit_and a b k = rw (bit_and-bitwise a b) (bit-and_digits a a b k (omega arith))

pub bit-bit_or : (a b k : ℕ) → bit (bit_or a b) k ≡ bit a k || bit b k
bit-bit_or a b k = rw (bit_or-bitwise a b) (bit-or_digits a a b k (omega arith))

-- Numbers with the same digits are the same.
same_below : (n a b : ℕ) → a ≤ n → b ≤ n → ((k : ℕ) → bit a k ≡ bit b k) → a ≡ b
unfolding bit
same_below zero a b h h' e = omega arith
same_below (suc n) a b h h' e =
    let halves = same_below n (a / 2) (b / 2) (omega arith) (omega arith) (λ k. e (suc k)) in
    ground (arith, halves, e 0)

pub eq_of_bit : (a b : ℕ) → ((k : ℕ) → bit a k ≡ bit b k) → a ≡ b
eq_of_bit a b e = same_below (a + b) a b (omega arith) (omega arith) e

two_pow_halves : (m : ℕ) → (2 ^ suc m / 2 ≡ 2 ^ m) × (2 ^ suc m % 2 ≡ 0)
two_pow_halves m = (omega (arith, pow-suc 2 m), omega (arith, pow-suc 2 m))

pub bit-pow : (m k : ℕ) → bit (2 ^ m) k ≡ (m == k)
unfolding bit
bit-pow zero zero = refl
bit-pow zero (suc k) = rw (bit-zero k) (ground arith)
bit-pow (suc m) zero = ground (arith, two_pow_halves m)
bit-pow (suc m) (suc k) = rw (two_pow_halves m).0 (bit-pow m k ∙ ground arith)

mod_halves : (a w : ℕ) → a % 2 ^ suc w ≡ a % 2 + 2 * (a / 2 % 2 ^ w)
mod_halves a w =
    let p = 2 ^ w in
    let q = a / 2 / p in
    let r = a % 2 + 2 * (a / 2 % p) in
    let positive : 0 < p = one-le-pow w 2 (omega arith) in
    let small = mod-lt (a / 2) positive in
    let whole : a ≡ r + 2 ^ suc w * q = omega (
      arith,
      mod-add-div (a / 2) p,
      ap (λ (t : ℕ). t * q) (pow-suc 2 w),
      mul_assoc p 2 q,
      mul_comm 2 q,
      mul_assoc p q 2,
    ) in
    ap (λ t. t % 2 ^ suc w) whole
    ∙ (add-mul-mod_self_left r (2 ^ suc w) q ∙ mod-eq_of_lt (omega (arith, pow-suc 2 w, small)))

-- The digits of the rest of a division by a power of 2.
pub bit-mod : (a w k : ℕ) → bit (a % 2 ^ w) k ≡ ltb k w && bit a k
unfolding bit
bit-mod a zero k = rw (mod-one a) (bit-zero k ∙ ground arith)
bit-mod a (suc w) zero = rw (mod_halves a w) (ground arith)
bit-mod a (suc w) (suc k) =
    let half : (a % 2 + 2 * (a / 2 % 2 ^ w)) / 2 ≡ a / 2 % 2 ^ w = omega arith in
    rw (mod_halves a w, half) (bit-mod (a / 2) w k ∙ ground arith)

set_digit : (a m k : ℕ) → bit a m ≡ true → (bit a k && (m == k)) ≡ (m == k)
set_digit a m k e = ground (arith, e)

clear_digit : (a m : ℕ) → bit a m ≡ false → bit_and a (2 ^ m) ≡ 2 ^ m → ⊥
clear_digit a m e h =
    let own = ap (λ t. bit t m) h in ground (arith, own, bit-bit_and a (2 ^ m) m, bit-pow m m, e)

-- A test of one digit by a mask.
pub bit_and-mask : (a m : ℕ) → (bit_and a (2 ^ m) == 2 ^ m) ≡ bit a m
bit_and-mask a m = elim (Bool-cases (bit a m)) [
  | inl e ↦
      let same = eq_of_bit (bit_and a (2 ^ m)) (2 ^ m) (λ k.
        bit-bit_and a (2 ^ m) k
        ∙ (ap (λ b. bit a k && b) (bit-pow m k) ∙ (set_digit a m k e ∙ sym (bit-pow m k)))) in
      rw (same, e) (==-self (2 ^ m))
  | inr e ↦ ground (arith, clear_digit a m e, e)
]

-- A test on every number below a bound.
every : (ℕ → Bool) → ℕ → Bool
every test zero = true
every test (suc n) = every test n && test n

every-at : (test : ℕ → Bool) (n i : ℕ) → every test n ≡ true → i < n → test i ≡ true
unfolding every
every-at test zero i h lt = absurd (omega arith)
every-at test (suc n) i h lt = ground (arith, every-at test n i)

same : Bool → Bool → Bool
same true b = b
same false b = not b

complement_at : ℕ → ℕ → Bool
complement_at m k = same (bit (255 - 2 ^ m) k) (not (m == k))

complement_table : every (λ m. every (complement_at m) 8) 8 ≡ true
unfolding every complement_at same bit
complement_table = refl

-- `!mask` of a byte.
pub bit-complement : (m k : ℕ) → m < 8 → k < 8 → bit (255 - 2 ^ m) k ≡ not (m == k)
unfolding complement_at same
bit-complement m k hm hk =
    let row = every-at (λ m. every (complement_at m) 8) 8 m complement_table hm in
    ground (arith, every-at (complement_at m) 8 k row hk)
