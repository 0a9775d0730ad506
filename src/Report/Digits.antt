-- ===== src/Report/Digits.antt =====
-- The digits of a number, read back.
use jbm.Prelude.{
  ℕ, zero, suc, ◌+◌, ◌*◌, ◌/◌, ◌%◌, ◌<◌, ◌≡◌, refl, List, [], ◌∷◌, ◌++◌, arith, u64_mod,
}
use jbm.Report.{digits}

abbrev pub value : ℕ → ℕ → List ℕ → ℕ
value base acc [] = acc
value base acc (d ∷ ds) = value base (acc * base + d) ds

value-snoc :
    (base acc : ℕ) (ds : List ℕ) (d : ℕ)
    → value base acc (ds ++ (d ∷ [])) ≡ value base acc ds * base + d
value-snoc base acc [] d = refl
value-snoc base acc (e ∷ ds) d = value-snoc base (acc * base + e) ds d

-- The numbers of that many digits lie below it.
abbrev bound : ℕ → ℕ → ℕ
bound base zero = 1
bound base (suc n) = base * bound base n

decimal_value : (fuel n : ℕ) → n < bound 10 fuel → value 10 0 (digits 10 fuel n) ≡ n
unfolding digits
decimal_value zero n h = omega arith
decimal_value (suc fuel) n h =
    let rest = decimal_value fuel (n / 10) (omega arith) in
    let last = value-snoc 10 0 (digits 10 fuel (n / 10)) (n % 10) in ground (arith, rest, last)

hex_value : (fuel n : ℕ) → n < bound 16 fuel → value 16 0 (digits 16 fuel n) ≡ n
unfolding digits
hex_value zero n h = omega arith
hex_value (suc fuel) n h =
    let rest = hex_value fuel (n / 16) (omega arith) in
    let last = value-snoc 16 0 (digits 16 fuel (n / 16)) (n % 16) in ground (arith, rest, last)

-- The twenty decimal digits suffice for each u64: read back, they give the number.
value-digits_decimal : (n : ℕ) → n < u64_mod → value 10 0 (digits 10 20 n) ≡ n
value-digits_decimal n h = decimal_value 20 n (omega arith)

-- The sixteen hexadecimal digits suffice for each u64: read back, they give the number.
value-digits_hex : (n : ℕ) → n < u64_mod → value 16 0 (digits 16 16 n) ≡ n
value-digits_hex n h = hex_value 16 n (omega arith)
