-- ===== src/Bindings/BitfieldUnit/Span.antt =====
-- Fields of several bits: what `get` reads after `set`, for either order of the bits.
use Prim.Native.Nat.{bit_and, bit_or}
use native.Mathlib.Nat.{mod-eq_of_lt}
use jbm.Prelude.{
  ℕ, zero, suc, ◌+◌, ◌-◌, ◌*◌, ◌/◌, ◌^◌, ◌≤◌, ◌<◌, ◌≡◌, refl, ap, ◌∙◌, Bool, true, false, ◌&&◌,
  ◌||◌, List, some, length, ltb, leb, ◌==◌, if◌then◌else◌, arith, inl, inr, Bool-cases,
}
use jbm.Bindings.Bits.{bit, bit-zero, bit-bit_or, bit-pow, bit_and-mask}
use jbm.Bindings.BitfieldUnit.{◌>>=◌, shl64, place, get_loop, get, set_loop, set_unit}
use jbm.Bindings.BitfieldUnit.Bit.{bits, get_bit-some, set_bit_lem}

-- Whether an index lies in the field.
abbrev pub within : ℕ → ℕ → ℕ → Bool
within bit_offset bit_width j = leb bit_offset j && ltb j (bit_offset + bit_width)

module _ (big : Bool) where
  mask_bit : (val i : ℕ) → i < 64 → (bit_and val (shl64 i) == shl64 i) ≡ bit val i
  mask_bit val i h = rw (mod-eq_of_lt h) (bit_and-mask val i)

  -- The round for bit `i` adds its place to those that are set.
  set_step :
      (bit_offset bit_width val i j : ℕ) (old : Bool)
      → i < bit_width
      → (if within bit_offset bit_width j && leb (suc i) (place big bit_width (j - bit_offset))
          then bit val (place big bit_width (j - bit_offset))
          else if place big bit_width i + bit_offset == j
          then bit val i
          else old)
        ≡ (if within bit_offset bit_width j && leb i (place big bit_width (j - bit_offset))
            then bit val (place big bit_width (j - bit_offset))
            else old)
  set_step bit_offset bit_width val i j old h =
      elim (Bool-cases (place big bit_width i + bit_offset == j)) [
        | inl here ↦
            let own : place big bit_width (j - bit_offset) ≡ i = ground (arith, here) in
            let inside : within bit_offset bit_width j ≡ true = ground (arith, here) in
            rw (own, here, inside) (ground arith)
        | inr there ↦ ground (arith, there)
      ]

  set_loop_lem :
      (bit_offset bit_width val n i : ℕ) (storage : List ℕ)
      → n + i ≡ bit_width
      → bit_width ≤ 64
      → bit_offset + bit_width ≤ 8 * length storage
      → (storage' : List ℕ) × (set_loop big bit_offset bit_width val n i storage ≡ some storage')
        × (length storage' ≡ length storage)
        × ((j : ℕ)
            → bits big storage' j ≡ (
                if within bit_offset bit_width j && leb i (place big bit_width (j - bit_offset))
                then bit val (place big bit_width (j - bit_offset))
                else bits big storage j))
  unfolding set_loop
  set_loop_lem bit_offset bit_width val zero i storage e h fits =
      (storage, refl, refl, λ j. ground arith)
  set_loop_lem bit_offset bit_width val (suc n) i storage e h fits =
      let at = place big bit_width i + bit_offset in
      let inside : at / 8 < length storage = ground arith in
      let (one, done, long, ones) =
        set_bit_lem big storage at (bit_and val (shl64 i) == shl64 i) inside in
      let (storage', rest, long', all) =
        set_loop_lem bit_offset bit_width val n (suc i) one (omega arith) h (omega arith) in
      (
        storage',
        rw (done, ◌>>=◌) rest,
        long' ∙ long,
        λ j.
            all j
            ∙ (ap
                  (λ b.
                    if within bit_offset bit_width j
                      && leb (suc i) (place big bit_width (j - bit_offset))
                    then bit val (place big bit_width (j - bit_offset))
                    else b)
                  (ones j
                    ∙ ap
                        (λ b.
                          if place big bit_width i + bit_offset == j then b else bits big storage j)
                        (mask_bit val i (omega arith)))
                ∙ set_step bit_offset bit_width val i j (bits big storage j) (omega arith)),
      )

  -- A field of at most 64 bits that lies in the unit can be set: the length stays, the bits of the field
  -- are those of the value, and no other bit changes.
  pub set_unit_lem :
      (storage : List ℕ) (bit_offset bit_width val : ℕ)
      → bit_width ≤ 64
      → bit_offset + bit_width ≤ 8 * length storage
      → (storage' : List ℕ) × (set_unit big storage bit_offset bit_width val ≡ some storage')
        × (length storage' ≡ length storage)
        × ((j : ℕ)
            → bits big storage' j ≡ (
                if within bit_offset bit_width j
                then bit val (place big bit_width (j - bit_offset))
                else bits big storage j))
  unfolding set_unit
  set_unit_lem storage bit_offset bit_width val h fits =
      let (storage', done, long, all) =
        set_loop_lem bit_offset bit_width val bit_width 0 storage (omega arith) h fits in
      (storage', done, long, λ j. ground (arith, all j))

  taken :
      (val at k : ℕ) (is_set : Bool)
      → at < 64
      → bit (if is_set then bit_or val (shl64 at) else val) k ≡ bit val k || (is_set && (at == k))
  taken val at k true h =
      rw (mod-eq_of_lt h) (bit-bit_or val (2 ^ at) k ∙ ground (arith, bit-pow at k))
  taken val at k false h = ground arith

  get_loop_lem :
      (storage : List ℕ) (bit_offset bit_width n i val : ℕ)
      → n + i ≡ bit_width
      → bit_width ≤ 64
      → bit_offset + bit_width ≤ 8 * length storage
      → (r : ℕ) × (get_loop big storage bit_offset bit_width n i val ≡ some r)
        × ((k : ℕ)
            → bit r k
              ≡ bit val k
                || ((ltb k bit_width && leb i (place big bit_width k))
                    && bits big storage (place big bit_width k + bit_offset)))
  unfolding get_loop
  get_loop_lem storage bit_offset bit_width zero i val e h fits = (val, refl, λ k. ground arith)
  get_loop_lem storage bit_offset bit_width (suc n) i val e h fits =
      let inside : (i + bit_offset) / 8 < length storage = ground arith in
      let got = get_bit-some big storage (i + bit_offset) inside in
      let is_set = bits big storage (i + bit_offset) in
      let at = place big bit_width i in
      let (r, rest, all) =
        get_loop_lem storage bit_offset bit_width n (suc i)
          (if is_set then bit_or val (shl64 at) else val) (omega arith) h fits in
      (r, rw (got, ◌>>=◌) rest, λ k. ground (arith, all k, taken val at k is_set))

  -- The number read from such a field has the bits of the field, and no other.
  pub get_lem :
      (storage : List ℕ) (bit_offset bit_width : ℕ)
      → bit_width ≤ 64
      → bit_offset + bit_width ≤ 8 * length storage
      → (r : ℕ) × (get big storage bit_offset bit_width ≡ some r)
        × ((k : ℕ)
            → bit r k ≡ ltb k bit_width && bits big storage (place big bit_width k + bit_offset))
  unfolding get
  get_lem storage bit_offset bit_width h fits =
      let (r, done, all) =
        get_loop_lem storage bit_offset bit_width bit_width 0 0 (omega arith) h fits in
      (r, done, λ k. ground (arith, all k, bit-zero k))
