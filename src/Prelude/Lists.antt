-- ===== src/Prelude/Lists.antt =====
-- Lists measured by native numbers, and the list predicates that the components share.
use Prim.Native.Nat.{ℕ, zero, suc, ◌+◌, ◌<◌}
use Prim.Native.Char.{code}
use Prim.Native.String.{String}
use mathlib.Core.Path.{◌≡◌, refl, ap}
use mathlib.Core.Logic.{◌⊎◌, inl, inr}
use mathlib.Core.Bool.{Bool, true, false}
use mathlib.Core.List.{List, [], ◌∷◌, ◌++◌, reverse, reverse-cons}
use mathlib.Core.Option.{Option, none, some}
use native.Mathlib.Omega.{arith}
use jbm.Prelude.Tests.{if◌then◌else◌, ◌==◌}

-- Text is the list of its code points.
abbrev pub Text : Type 0
Text = List ℕ

abbrev pub codes : String → Text
codes String.[] = []
codes (String.◌∷◌ c s) = code c ∷ codes s

module _ {ℓ} {A : Type ℓ} where
  abbrev pub length : List A → ℕ
  length [] = 0
  length (x ∷ xs) = suc (length xs)

  abbrev pub get_elem? : List A → ℕ → Option A
  get_elem? [] i = none
  get_elem? (x ∷ xs) zero = some x
  get_elem? (x ∷ xs) (suc i) = get_elem? xs i

  -- A write out of bounds changes nothing.
  abbrev pub set : List A → ℕ → A → List A
  set [] i v = []
  set (x ∷ xs) zero v = v ∷ xs
  set (x ∷ xs) (suc i) v = x ∷ set xs i v

  abbrev pub take : ℕ → List A → List A
  take zero xs = []
  take (suc n) [] = []
  take (suc n) (x ∷ xs) = x ∷ take n xs

  abbrev pub drop : ℕ → List A → List A
  drop zero xs = xs
  drop (suc n) [] = []
  drop (suc n) (x ∷ xs) = drop n xs

  abbrev pub is_empty : List A → Bool
  is_empty [] = true
  is_empty (x ∷ xs) = false

  abbrev pub keep_if : (A → Bool) → List A → List A
  keep_if p [] = []
  keep_if p (x ∷ xs) = if p x then x ∷ keep_if p xs else keep_if p xs

  pub length-set : (xs : List A) (i : ℕ) (v : A) → length (set xs i v) ≡ length xs
  length-set [] i v = refl
  length-set (x ∷ xs) zero v = refl
  length-set (x ∷ xs) (suc i) v = ap suc (length-set xs i v)

  pub get_elem?-set :
      (xs : List A) (i j : ℕ) (v : A)
      → i < length xs
      → get_elem? (set xs i v) j ≡ (if i == j then some v else get_elem? xs j)
  get_elem?-set [] i j v h = absurd (omega arith)
  get_elem?-set (x ∷ xs) zero zero v h = refl
  get_elem?-set (x ∷ xs) zero (suc j) v h = ground arith
  get_elem?-set (x ∷ xs) (suc i) zero v h = ground arith
  get_elem?-set (x ∷ xs) (suc i) (suc j) v h = ground (arith, get_elem?-set xs i j v)

  pub get_elem?-some : (xs : List A) (i : ℕ) → i < length xs → (x : A) × (get_elem? xs i ≡ some x)
  get_elem?-some [] i h = absurd (omega arith)
  get_elem?-some (x ∷ xs) zero h = (x, refl)
  get_elem?-some (x ∷ xs) (suc i) h = get_elem?-some xs i (omega arith)

  pub length-append : (xs ys : List A) → length (xs ++ ys) ≡ length xs + length ys
  length-append [] ys = omega arith
  length-append (x ∷ xs) ys = omega (arith, length-append xs ys)

  pub keep_if-append :
      (p : A → Bool) (xs ys : List A) → keep_if p (xs ++ ys) ≡ keep_if p xs ++ keep_if p ys
  keep_if-append p [] ys = refl
  keep_if-append p (x ∷ xs) ys = ground (arith, keep_if-append p xs ys)

module _ {ℓ κ} {A : Type ℓ} where
  -- A predicate on every element, which computes to tuples.
  abbrev pub All : (A → Type κ) → List A → Type κ
  All P [] = Unit
  All P (x ∷ xs) = P x × All P xs

  pub All-append :
      (P : A → Type κ) (front back : List A) → All P back → All P front → All P (front ++ back)
  All-append P [] back hb hf = hb
  All-append P (x ∷ front) back hb (hx, hf) = (hx, All-append P front back hb hf)

pub All-parts {ℓ κ} :
    {A : Type ℓ} (P : A → Type κ) (front back : List A)
    → All P (front ++ back)
    → All P front × All P back
All-parts P [] back h = (tt, h)
All-parts P (x ∷ front) back h = let (hf, hb) = All-parts P front back h.1 in ((h.0, hf), hb)

pub All-reverse {ℓ κ} : {A : Type ℓ} (P : A → Type κ) (xs : List A) → All P xs → All P (reverse xs)
All-reverse P [] h = tt
All-reverse P (x ∷ xs) h =
    rw (reverse-cons x xs) (All-append P (reverse xs) (x ∷ []) (h.0, tt) (All-reverse P xs h.1))

pub All_of_reverse {ℓ κ} :
    {A : Type ℓ} (P : A → Type κ) (xs : List A) → All P (reverse xs) → All P xs
All_of_reverse P [] h = tt
All_of_reverse P (x ∷ xs) h =
    let parts = All-parts P (reverse xs) (x ∷ []) (rw (reverse-cons x xs) at h) in
    (parts.1.0, All_of_reverse P xs parts.0)

pub All-mono {ℓ κ ι} :
    {A : Type ℓ} {P : A → Type κ} {Q : A → Type ι} (xs : List A)
    → ((x : A) → P x → Q x)
    → All P xs
    → All Q xs
All-mono [] f h = tt
All-mono (x ∷ xs) f h = (f x h.0, All-mono xs f h.1)

pub All-mono₂ {ℓ κ ι μ} :
    {A : Type ℓ} {P : A → Type κ} {Q : A → Type ι} {R : A → Type μ} (xs : List A)
    → ((x : A) → P x → Q x → R x)
    → All P xs
    → All Q xs
    → All R xs
All-mono₂ [] f h k = tt
All-mono₂ (x ∷ xs) f h k = (f x h.0 k.0, All-mono₂ xs f h.1 k.1)

-- Where a list is cut in two ways, the first part of one cut starts with that of the other, or the second
-- part of the one starts in the first part of the other.
pub append-split {ℓ} :
    {A : Type 0} (P : A → Type ℓ) (front back xs ys : List A)
    → All P front
    → xs ++ ys ≡ front ++ back
    → ((more : List A) × (xs ≡ front ++ more)) ⊎ ((y : A) × (left : List A) × (ys ≡ y ∷ left) × P y)
append-split P [] back xs ys h e = inl (xs, refl)
append-split P (a ∷ front) back [] ys h e = inr (a, front ++ back, e, h.0)
append-split P (a ∷ front) back (x ∷ xs) ys h e =
    let tails : xs ++ ys ≡ front ++ back = cc in
    elim (append-split P front back xs ys h.1 tails) [
      | inl (more, f) ↦ inl (more, cc)
      | inr r ↦ inr r
    ]
