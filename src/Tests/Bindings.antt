-- ===== src/Tests/Bindings.antt =====
-- Bit-fields of the kernel's structures, in both orders of bits (jbm-ebpf/src/vmlinux.rs).
use jbm.Prelude.{
  ℕ, ◌≡◌, ◌%◌, ◌^◌, ◌+◌, ◌≤◌, refl, true, false, List, [], ◌∷◌, some, length, All, arith,
}
use jbm.Bindings.BitfieldUnit.{get, get_loop, get_bit, set_unit, set_loop, set_bit}
use jbm.Bindings.BitfieldUnit.RoundTrip.{Apart, get-set_unit}
use jbm.Bindings.Layout.{BitField, get_field, set_field, new_bitfield}
use jbm.Bindings.Structs.Laws.{layouts-new_bitfield, layouts-set_field}
use jbm.Bindings.Structs.BpfInsn

-- Ten bits across three bytes.
set_unit_little :
    set_unit false (0xff ∷ (0 ∷ (0xff ∷ []))) 6 10 0x155 ≡ some (0x7f ∷ (0x55 ∷ (0xff ∷ [])))
unfolding set_unit set_loop set_bit
set_unit_little = refl

set_unit_big :
    set_unit true (0xff ∷ (0 ∷ (0xff ∷ []))) 6 10 0x155 ≡ some (0xfd ∷ (0x55 ∷ (0xff ∷ [])))
unfolding set_unit set_loop set_bit
set_unit_big = refl

get_big : get true (0xfd ∷ (0x55 ∷ (0xff ∷ []))) 6 10 ≡ some 0x155
unfolding get get_loop get_bit
get_big = refl

get-set_unit_example :
    (storage' : List ℕ) × (set_unit true (1 ∷ (2 ∷ [])) 3 7 99 ≡ some storage')
    × (length storage' ≡ 2)
    × (get true storage' 3 7 ≡ some (99 % 2 ^ 7))
    × ((offset' width' : ℕ)
        → width' ≤ 64
        → offset' + width' ≤ 16
        → Apart 3 7 offset' width'
        → get true storage' offset' width' ≡ get true (1 ∷ (2 ∷ [])) offset' width')
get-set_unit_example = get-set_unit true (1 ∷ (2 ∷ [])) 3 7 99 (omega arith) (omega arith)

abbrev insn_args : List (BitField × ℕ)
insn_args = (BpfInsn.dst_reg, 10) ∷ ((BpfInsn.src_reg, 17) ∷ [])

layouts-new_bitfield_example :
    (unit : List ℕ) × (new_bitfield false 1 insn_args ≡ some unit)
    × (length unit ≡ 1)
    × All (λ a. get_field false unit a.0 ≡ some (a.1 % 2 ^ (a.0).width)) insn_args
layouts-new_bitfield_example = layouts-new_bitfield false 11 BpfInsn.bitfield_1 refl insn_args refl

layouts-set_field_example :
    (unit' : List ℕ) × (set_field false (0x1a ∷ []) BpfInsn.src_reg 3 ≡ some unit')
    × (length unit' ≡ 1)
    × (get_field false unit' BpfInsn.src_reg ≡ some (3 % 2 ^ 4))
    × All (λ g. get_field false unit' g ≡ get_field false (0x1a ∷ []) g) (BpfInsn.dst_reg ∷ [])
layouts-set_field_example =
    layouts-set_field false 11 BpfInsn.bitfield_1 refl (BpfInsn.dst_reg ∷ []) BpfInsn.src_reg []
      (0x1a ∷ []) 3 refl refl
