-- ===== src/Bindings/BitfieldUnit/Bit.antt =====
-- Single bits: what `get_bit` reads after `set_bit`, for either order of the bits in a byte.
use Prim.Native.Nat.{bit_and, bit_or}
use jbm.Prelude.{
  ℕ, ◌-◌, ◌/◌, ◌^◌, ◌<◌, ◌≡◌, refl, ap, ◌∙◌, sym, Bool, true, false, List, Option, none, some,
  get_elem?, get_elem?-set, get_elem?-some, set, length, length-set, ◌==◌, if◌then◌else◌, arith,
  Option-cases, Bool-cases, inl, inr, subst,
}
use jbm.Bindings.Bits.{bit, bit-bit_and, bit-bit_or, bit-pow, bit-complement, bit_and-mask}
use jbm.Bindings.BitfieldUnit.{◌>>=◌, bit_index, get_bit, set_bit}

-- The byte that `set_bit` writes.
abbrev written : ℕ → ℕ → Bool → ℕ
written byte m val = if val then bit_or byte (2 ^ m) else bit_and byte (255 - 2 ^ m)

bit-written :
    (byte m : ℕ) (val : Bool) (k : ℕ)
    → m < 8
    → k < 8
    → bit (written byte m val) k ≡ (if m == k then val else bit byte k)
bit-written byte m true k hm hk = ground (arith, bit-bit_or byte (2 ^ m) k, bit-pow m k)
bit-written byte m false k hm hk =
    ground (arith, bit-bit_and byte (255 - 2 ^ m) k, bit-complement m k hm hk)

or_false : Option Bool → Bool
or_false none = false
or_false (some b) = b

read : Option ℕ → ℕ → Bool
read none m = false
read (some byte) m = bit byte m

module _ (big : Bool) where
  bit_index-lt : (i : ℕ) → bit_index big i < 8
  bit_index-lt i = ground arith

  -- Two bits of one byte have two places.
  same_place : (i j : ℕ) → i / 8 ≡ j / 8 → (bit_index big i == bit_index big j) ≡ (i == j)
  same_place i j e = ground arith

  -- The bits of a unit, by their indices; outside of it they are unset.
  unfoldable pub bits : List ℕ → ℕ → Bool
  unfolding or_false get_bit
  bits storage index = or_false (get_bit big storage index)

  bits-read :
      (storage : List ℕ) (j : ℕ)
      → bits storage j ≡ read (get_elem? storage (j / 8)) (bit_index big j)
  unfolding bits get_bit or_false read
  bits-read storage j = elim (Option-cases (get_elem? storage (j / 8))) [
    | inl e ↦ rw (e, ◌>>=◌) refl
    | inr (byte, e) ↦ rw (e, ◌>>=◌) (bit_and-mask byte (bit_index big j))
  ]

  pub get_bit-some :
      (storage : List ℕ) (i : ℕ)
      → i / 8 < length storage
      → get_bit big storage i ≡ some (bits storage i)
  unfolding bits get_bit or_false
  get_bit-some storage i h = let (byte, e) = get_elem?-some storage (i / 8) h in rw (e, ◌>>=◌) refl

  read_written :
      (storage : List ℕ) (i j byte : ℕ) (val : Bool)
      → i / 8 < length storage
      → get_elem? storage (i / 8) ≡ some byte
      → read
          (get_elem? (set storage (i / 8) (written byte (bit_index big i) val)) (j / 8))
          (bit_index big j)
        ≡ (if i == j then val else read (get_elem? storage (j / 8)) (bit_index big j))
  unfolding read
  read_written storage i j byte val h e =
      let put = get_elem?-set storage (i / 8) (j / 8) (written byte (bit_index big i) val) h in
      let digit =
        bit-written byte (bit_index big i) val (bit_index big j) (bit_index-lt i)
          (bit_index-lt j) in
      elim (Bool-cases (i / 8 == j / 8)) [
        | inl same ↦
            let one : i / 8 ≡ j / 8 = ground (arith, same) in
            let at : get_elem? storage (j / 8) ≡ some byte =
              subst (λ t. get_elem? storage t ≡ some byte) one e in
            rw (put, same, at, digit, same_place i j one) refl
        | inr apart ↦
            let other : (i == j) ≡ false = ground (arith, apart) in rw (put, apart, other) refl
      ]

  -- Within the unit, `set_bit` succeeds, keeps the length, and changes the one bit alone.
  pub set_bit_lem :
      (storage : List ℕ) (i : ℕ) (val : Bool)
      → i / 8 < length storage
      → (storage' : List ℕ) × (set_bit big storage i val ≡ some storage')
        × (length storage' ≡ length storage)
        × ((j : ℕ) → bits storage' j ≡ (if i == j then val else bits storage j))
  unfolding set_bit
  set_bit_lem storage i val h =
      let (byte, e) = get_elem?-some storage (i / 8) h in
      let new = written byte (bit_index big i) val in
      (
        set storage (i / 8) new,
        rw (e, ◌>>=◌) refl,
        length-set storage (i / 8) new,
        λ j.
            bits-read (set storage (i / 8) new) j
            ∙ (read_written storage i j byte val h e
                ∙ sym (ap (λ b. if i == j then val else b) (bits-read storage j))),
      )
