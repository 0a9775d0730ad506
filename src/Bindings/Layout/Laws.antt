-- ===== src/Bindings/Layout/Laws.antt =====
-- What the getters read after the setters and the constructor.
use native.Mathlib.Nat.{mod-eq_of_lt, mod-lt, one-le-pow, pow-le-pow_right}
use jbm.Prelude.{
  ℕ, zero, suc, ◌+◌, ◌*◌, ◌%◌, ◌^◌, ◌≤◌, ◌<◌, ◌≡◌, refl, ap, ◌∙◌, sym, Bool, true, List, [], ◌∷◌,
  ◌++◌, map, some, length, All, All-append, All-mono, arith, inl, inr,
}
use jbm.Bindings.BitfieldUnit.{◌>>=◌}
use jbm.Bindings.BitfieldUnit.RoundTrip.{Apart, get-set_unit}
use jbm.Bindings.Layout.{
  BitField, Layout, zeros, get_field, set_field, set_all, new_bitfield, fit, is_sound,
}

-- A rest that fits the field fits its integer type.
cast_rest : (val width size : ℕ) → width ≤ size → val % 2 ^ width % 2 ^ size ≡ val % 2 ^ width
cast_rest val width size h =
    let small : val % 2 ^ width < 2 ^ width = mod-lt val (one-le-pow width 2 (omega arith)) in
    let room : 2 ^ width ≤ 2 ^ size = pow-le-pow_right (omega arith) h in mod-eq_of_lt (omega arith)

length-zeros : (n : ℕ) → length (zeros n) ≡ n
length-zeros zero = refl
length-zeros (suc n) = ap suc (length-zeros n)

module _ (big : Bool) where
  -- One field is set: it reads as the rest of the value, and the fields apart from it as before.
  set_field_lem :
      (unit : List ℕ) (f : BitField) (val : ℕ)
      → f.width ≤ f.size
      → f.size ≤ 64
      → f.offset + f.width ≤ 8 * length unit
      → (unit' : List ℕ) × (set_field big unit f val ≡ some unit')
        × (length unit' ≡ length unit)
        × (get_field big unit' f ≡ some (val % 2 ^ f.width))
        × ((g : BitField)
            → g.width ≤ 64
            → g.offset + g.width ≤ 8 * length unit
            → Apart f.offset f.width g.offset g.width
            → get_field big unit' g ≡ get_field big unit g)
  unfolding set_field get_field
  set_field_lem unit f val h k fits =
      let (unit', done, long, own, others) =
        get-set_unit big unit f.offset f.width val (omega arith) fits in
      (
        unit',
        done,
        long,
        rw (own, ◌>>=◌) (ap some (cast_rest val f.width f.size h)),
        λ g hg fg apart.
            ap (λ r. r >>= λ v. some (v % 2 ^ g.size)) (others g.offset g.width hg fg apart),
      )

  set_all_lem :
      (args : List (BitField × ℕ)) (start end : ℕ) (unit : List ℕ)
      → end ≤ 8 * length unit
      → fit start end (map (λ a. a.0) args) ≡ true
      → (unit' : List ℕ) × (set_all big args unit ≡ some unit')
        × (length unit' ≡ length unit)
        × All (λ a. get_field big unit' a.0 ≡ some (a.1 % 2 ^ (a.0).width)) args
        × ((g : BitField)
            → g.width ≤ 64
            → g.offset + g.width ≤ start
            → g.offset + g.width ≤ 8 * length unit
            → get_field big unit' g ≡ get_field big unit g)
  unfolding set_all fit
  set_all_lem [] start end unit h ok = (unit, refl, refl, tt, λ g hg below room. refl)
  set_all_lem ((f, val) ∷ args) start end unit h ok =
      let (one, done, long, own, others) =
        set_field_lem unit f val (ground (arith, ok)) (ground (arith, ok)) (ground (arith, ok)) in
      let (unit', rest, long', all, before) =
        set_all_lem args (f.offset + f.width) end one (omega arith) (ground (arith, ok)) in
      (
        unit',
        rw (done, ◌>>=◌) rest,
        long' ∙ long,
        (before f (ground (arith, ok)) (omega arith) (ground (arith, ok)) ∙ own, all),
        λ g hg below room.
            before g hg (ground (arith, ok)) (omega arith)
            ∙ others g hg room (inr (ground (arith, ok))),
      )

-- A field that lies between two bits, and fits its integer type.
abbrev Lies : ℕ → ℕ → BitField → Type 0
Lies start end g =
    (start ≤ g.offset) × (g.offset + g.width ≤ end) × (g.width ≤ g.size) × (g.size ≤ 64)

fit-Lies : (start end : ℕ) (fs : List BitField) → fit start end fs ≡ true → All (Lies start end) fs
unfolding fit
fit-Lies start end [] ok = tt
fit-Lies start end (f ∷ fs) ok = (
  ground (arith, ok),
  All-mono fs (λ g (a, b, c, d). (ground (arith, ok), b, c, d))
      (fit-Lies (f.offset + f.width) end fs (ground (arith, ok))),
)

-- The fields before and behind one of a layout are apart from it.
fit_around :
    (start end : ℕ) (front : List BitField) (f : BitField) (back : List BitField)
    → fit start end (front ++ (f ∷ back)) ≡ true
    → All (Lies start f.offset) front × Lies start end f × All (Lies (f.offset + f.width) end) back
unfolding fit
fit_around start end [] f back ok =
    (tt, ground (arith, ok), fit-Lies (f.offset + f.width) end back (ground (arith, ok)))
fit_around start end (g ∷ front) f back ok =
    let (before, (a, b, c, d), behind) =
      fit_around (g.offset + g.width) end front f back (ground (arith, ok)) in
    (
      (ground (arith, ok), All-mono front (λ h (p, q, r, s). (ground (arith, ok), q, r, s)) before),
      (ground (arith, ok), b, c, d),
      behind,
    )

module _ (big : Bool) where
  -- The constructor of a sound layout succeeds, for all arguments: the unit has its length, and each field
  -- reads as its argument without the digits that it has no room for.
  pub new_bitfield-get_field :
      (l : Layout) (args : List (BitField × ℕ))
      → is_sound l ≡ true
      → map (λ a. a.0) args ≡ l.fields
      → (unit : List ℕ) × (new_bitfield big l.bytes args ≡ some unit)
        × (length unit ≡ l.bytes)
        × All (λ a. get_field big unit a.0 ≡ some (a.1 % 2 ^ (a.0).width)) args
  unfolding new_bitfield
  new_bitfield-get_field l args ok named =
      let (unit, done, long, all, before) =
        set_all_lem big args 0 (8 * l.bytes) (zeros l.bytes) (omega (arith, length-zeros l.bytes))
          (ap (fit 0 (8 * l.bytes)) named ∙ ok) in
      (unit, done, long ∙ length-zeros l.bytes, all)

  -- A setter of a sound layout succeeds on every unit of its length: its field reads as the value without
  -- the digits that it has no room for, and all the other fields of the layout as before.
  pub set_field-get_field :
      (l : Layout) (front : List BitField) (f : BitField) (back : List BitField) (unit : List ℕ)
      (val : ℕ)
      → is_sound l ≡ true
      → l.fields ≡ front ++ (f ∷ back)
      → length unit ≡ l.bytes
      → (unit' : List ℕ) × (set_field big unit f val ≡ some unit')
        × (length unit' ≡ l.bytes)
        × (get_field big unit' f ≡ some (val % 2 ^ f.width))
        × All (λ g. get_field big unit' g ≡ get_field big unit g) (front ++ back)
  set_field-get_field l front f back unit val ok named long =
      let (before, (a, b, c, d), behind) =
        fit_around 0 (8 * l.bytes) front f back (ap (fit 0 (8 * l.bytes)) (sym named) ∙ ok) in
      let (unit', done, long', own, others) = set_field_lem big unit f val c d (omega arith) in
      (
        unit',
        done,
        omega arith,
        own,
        All-append (λ g. get_field big unit' g ≡ get_field big unit g) front back
            (All-mono back (λ g (p, q, r, s). others g (omega arith) (omega arith) (inl p)) behind)
            (All-mono front (λ g (p, q, r, s). others g (omega arith) (omega arith) (inr q))
              before),
      )
