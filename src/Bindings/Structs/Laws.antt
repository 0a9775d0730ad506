-- ===== src/Bindings/Structs/Laws.antt =====
-- The accessors of each unit agree with one another.
use jbm.Prelude.{
  ℕ, suc, zero, ◌%◌, ◌^◌, ◌≡◌, refl, Bool, true, ◌&&◌, List, [], ◌∷◌, ◌++◌, map, some, length,
  get_elem?, All, arith,
}
use jbm.Bindings.Layout.{BitField, Layout, get_field, set_field, new_bitfield, is_sound, fit}
use jbm.Bindings.Layout.Laws.{new_bitfield-get_field, set_field-get_field}
use jbm.Bindings.Structs.{layouts}

all_sound : List Layout → Bool
all_sound [] = true
all_sound (l ∷ ls) = is_sound l && all_sound ls

all_sound-layouts : all_sound layouts ≡ true
unfolding fit all_sound
all_sound-layouts = refl

is_sound-at :
    (ls : List Layout) (i : ℕ) (l : Layout)
    → all_sound ls ≡ true
    → get_elem? ls i ≡ some l
    → is_sound l ≡ true
unfolding all_sound
is_sound-at [] i l h e = cc
is_sound-at (k ∷ ls) zero l h e = ground (arith, h, e)
is_sound-at (k ∷ ls) (suc i) l h e = is_sound-at ls i l (ground (arith, h)) e

module _ (big : Bool) (i : ℕ) (l : Layout) (listed : get_elem? layouts i ≡ some l) where
  -- For each listed unit the constructor succeeds, for all arguments: the unit has its bytes, and each
  -- getter gives the argument of its field without the digits that the field has no room for.
  pub layouts-new_bitfield :
      (args : List (BitField × ℕ))
      → map (λ a. a.0) args ≡ l.fields
      → (unit : List ℕ) × (new_bitfield big l.bytes args ≡ some unit)
        × (length unit ≡ l.bytes)
        × All (λ a. get_field big unit a.0 ≡ some (a.1 % 2 ^ (a.0).width)) args
  layouts-new_bitfield args named =
      new_bitfield-get_field big l args (is_sound-at layouts i l all_sound-layouts listed) named

  -- For each listed unit and each of its fields the setter succeeds, on all bytes: its getter then gives
  -- the value without the digits that the field has no room for, and the getters of all the other fields
  -- of the unit give what they gave before.
  pub layouts-set_field :
      (front : List BitField) (f : BitField) (back : List BitField) (unit : List ℕ) (val : ℕ)
      → l.fields ≡ front ++ (f ∷ back)
      → length unit ≡ l.bytes
      → (unit' : List ℕ) × (set_field big unit f val ≡ some unit')
        × (length unit' ≡ l.bytes)
        × (get_field big unit' f ≡ some (val % 2 ^ f.width))
        × All (λ g. get_field big unit' g ≡ get_field big unit g) (front ++ back)
  layouts-set_field front f back unit val named long =
      set_field-get_field big l front f back unit val
        (is_sound-at layouts i l all_sound-layouts listed) named long
