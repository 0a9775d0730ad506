-- ===== src/Bindings/BitfieldUnit/RoundTrip.antt =====
-- What `get` reads after `set`, of the same field and of another.
use jbm.Prelude.{
  ℕ, ◌+◌, ◌-◌, ◌*◌, ◌%◌, ◌^◌, ◌≤◌, ◌≡◌, ap, ◌∙◌, sym, Bool, ◌&&◌, List, some, length, ltb, arith,
  ◌⊎◌, inl, inr, Bool-cases, if◌then◌else◌, true,
}
use jbm.Bindings.Bits.{bit, eq_of_bit, bit-mod}
use jbm.Bindings.BitfieldUnit.{place, get, set_unit}
use jbm.Bindings.BitfieldUnit.Bit.{bits}
use jbm.Bindings.BitfieldUnit.Span.{within, set_unit_lem, get_lem}

-- Two fields share no bit.
abbrev pub Apart : ℕ → ℕ → ℕ → ℕ → Type 0
Apart offset width offset' width' = (offset + width ≤ offset') ⊎ (offset' + width' ≤ offset)

module _ (big : Bool) where
  own_place :
      (bit_offset bit_width val k : ℕ) (old : Bool)
      → (ltb k bit_width
          && (if within bit_offset bit_width (place big bit_width k + bit_offset)
              then bit val (place big bit_width ((place big bit_width k + bit_offset) - bit_offset))
              else old))
        ≡ ltb k bit_width && bit val k
  own_place bit_offset bit_width val k old = elim (Bool-cases (ltb k bit_width)) [
    | inl e ↦
        let back : place big bit_width ((place big bit_width k + bit_offset) - bit_offset) ≡ k =
          ground (arith, e) in
        let inside : within bit_offset bit_width (place big bit_width k + bit_offset) ≡ true =
          ground (arith, e) in
        rw (e, back, inside) (ground arith)
    | inr e ↦ rw e (ground arith)
  ]

  other_place :
      (bit_offset bit_width offset' width' k : ℕ) (new old : Bool)
      → Apart bit_offset bit_width offset' width'
      → (ltb k width'
          && (if within bit_offset bit_width (place big width' k + offset') then new else old))
        ≡ ltb k width' && old
  other_place bit_offset bit_width offset' width' k new old apart = ground arith

  get-set_other :
      (storage storage' : List ℕ) (bit_offset bit_width : ℕ) (new : ℕ → Bool)
      → length storage' ≡ length storage
      → ((j : ℕ)
          → bits big storage' j
            ≡ (if within bit_offset bit_width j then new j else bits big storage j))
      → (offset' width' : ℕ) → width' ≤ 64
      → offset' + width' ≤ 8 * length storage
      → Apart bit_offset bit_width offset' width'
      → get big storage' offset' width' ≡ get big storage offset' width'
  get-set_other storage storage' bit_offset bit_width new long all offset' width' h fits apart =
      let (r, read, digits) = get_lem big storage offset' width' h fits in
      let (r', read', digits') = get_lem big storage' offset' width' h (omega arith) in
      let same = eq_of_bit r' r (λ k.
        let j = place big width' k + offset' in
        digits' k
        ∙ (ap (λ b. ltb k width' && b) (all j)
            ∙ (other_place bit_offset bit_width offset' width' k (new j) (bits big storage j) apart
                ∙ sym (digits k)))) in
      read' ∙ (ap some same ∙ sym read)

  -- Setting a field of at most 64 bits that lies in the unit succeeds and keeps the length. The field then
  -- reads as the value without the digits that it has no room for, and every field apart from it reads as
  -- before. So for both orders of the bits in a byte.
  pub get-set_unit :
      (storage : List ℕ) (bit_offset bit_width val : ℕ)
      → bit_width ≤ 64
      → bit_offset + bit_width ≤ 8 * length storage
      → (storage' : List ℕ) × (set_unit big storage bit_offset bit_width val ≡ some storage')
        × (length storage' ≡ length storage)
        × (get big storage' bit_offset bit_width ≡ some (val % 2 ^ bit_width))
        × ((offset' width' : ℕ)
            → width' ≤ 64
            → offset' + width' ≤ 8 * length storage
            → Apart bit_offset bit_width offset' width'
            → get big storage' offset' width' ≡ get big storage offset' width')
  get-set_unit storage bit_offset bit_width val h fits =
      let (storage', done, long, all) = set_unit_lem big storage bit_offset bit_width val h fits in
      let (r, read, digits) = get_lem big storage' bit_offset bit_width h (omega arith) in
      (
        storage',
        done,
        long,
        read
            ∙ ap some (
                eq_of_bit r (val % 2 ^ bit_width) (λ k.
                  let j = place big bit_width k + bit_offset in
                  digits k
                  ∙ (ap (λ b. ltb k bit_width && b) (all j)
                      ∙ (own_place bit_offset bit_width val k (bits big storage j)
                          ∙ sym (bit-mod val bit_width k))))),
        get-set_other storage storage' bit_offset bit_width
            (λ j. bit val (place big bit_width (j - bit_offset))) long all,
      )
