-- ===== src/Resolver/Laws.antt =====
-- The frames that `resolve` (jbm/src/symbol.rs) gives back.
use jbm.Prelude.{
  ℕ, suc, ◌≡◌, refl, ap, ◌∙◌, List, [], ◌∷◌, ◌++◌, Option, none, some, Result, ok, Text, codes,
  get_elem?,
}
use jbm.Resolver.{Symbolized, name_of, name_frames, resolve}

module _ (show : ℕ → Text) where
  -- The reference: the stack and the answers side by side, answer by answer.
  abbrev pub side_by_side : List (List Symbolized) → List ℕ → List (ℕ × Option Text)
  side_by_side answers [] = []
  side_by_side [] (address ∷ stack) = (address, none) ∷ side_by_side [] stack
  side_by_side ([] ∷ answers) (address ∷ stack) = (address, none) ∷ side_by_side answers stack
  side_by_side ((s ∷ more) ∷ answers) (address ∷ stack) =
      (address, some (s.symbol ++ (codes "@" ++ (s.path ++ (codes ":" ++ show s.line)))))
      ∷ side_by_side answers stack

  -- A first answer only moves the indices.
  name_frames-suc :
      (symbols : List Symbolized) (answers : List (List Symbolized)) (i : ℕ) (stack : List ℕ)
      → name_frames show (symbols ∷ answers) (suc i) stack ≡ name_frames show answers i stack
  unfolding name_frames
  name_frames-suc symbols answers i [] = refl
  name_frames-suc symbols answers i (address ∷ stack) =
      ap (λ l. (address, name_of show (get_elem? answers i)) ∷ l)
        (name_frames-suc symbols answers (suc i) stack)

  name_frames-nil : (i : ℕ) (stack : List ℕ) → name_frames show [] i stack ≡ side_by_side [] stack
  unfolding name_frames
  name_frames-nil i [] = refl
  name_frames-nil i (address ∷ stack) =
      ap (λ l. (address, none) ∷ l) (name_frames-nil (suc i) stack)

  name_frames-reference :
      (answers : List (List Symbolized)) (stack : List ℕ)
      → name_frames show answers 0 stack ≡ side_by_side answers stack
  unfolding name_frames
  name_frames-reference answers [] = refl
  name_frames-reference [] (address ∷ stack) =
      ap (λ l. (address, none) ∷ l) (name_frames-nil 1 stack)
  name_frames-reference ([] ∷ answers) (address ∷ stack) =
      ap (λ l. (address, none) ∷ l)
        (name_frames-suc [] answers 0 stack ∙ name_frames-reference answers stack)
  name_frames-reference ((s ∷ more) ∷ answers) (address ∷ stack) =
      ap
        (λ l.
          (address, some (s.symbol ++ (codes "@" ++ (s.path ++ (codes ":" ++ show s.line))))) ∷ l)
        (name_frames-suc (s ∷ more) answers 0 stack ∙ name_frames-reference answers stack)

  -- If blazesym answers, `resolve`, which looks the answers up by index, gives one frame for each address of
  -- the stack, in the order of the stack: with `symbol@path:line` of the first symbol of the answer at
  -- its place, and without a name where that answer has no symbol or the answers are too few.
  pub resolve-frames {κ} :
      {E : Type κ} (symbolize : List ℕ → Result (List (List Symbolized)) E) (stack : List ℕ)
      (answers : List (List Symbolized))
      → symbolize stack ≡ ok answers
      → resolve show symbolize stack ≡ ok (side_by_side answers stack)
  unfolding resolve
  resolve-frames symbolize stack answers e = rw e (ap ok (name_frames-reference answers stack))
