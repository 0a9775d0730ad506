-- ===== src/Resolver.antt =====
-- `Resolver::resolve` (jbm/src/symbol.rs). What blazesym answers for a stack is an argument. `show` is
-- Rust's `Display` of a line number.
pub mod Laws
use jbm.Prelude.{
  ℕ, zero, suc, List, [], ◌∷◌, ◌++◌, Option, none, some, Result, ok, err, ◌>>=◌, Text, codes,
  get_elem?,
}

-- blazesym's `SymbolizedResult`, as far as the code reads it.
pub record Symbolized : Type 0 where
  pub symbol : Text
  pub path : Text
  pub line : ℕ

module _ (show : ℕ → Text) where
  -- `{symbol}@{path}:{line}`
  abbrev pub describe : Symbolized → Text
  describe s = s.symbol ++ (codes "@" ++ (s.path ++ (codes ":" ++ show s.line)))

  -- The name at index `i`: none past the end, and none where blazesym found no symbol.
  abbrev pub name_of : Option (List Symbolized) → Option Text
  name_of none = none
  name_of (some []) = none
  name_of (some (first ∷ others)) = some (describe first)

  -- The loop over the stack, from index `i`.
  name_frames : List (List Symbolized) → ℕ → List ℕ → List (ℕ × Option Text)
  name_frames symbols i [] = []
  name_frames symbols i (address ∷ stack) =
      (address, name_of (get_elem? symbols i)) ∷ name_frames symbols (suc i) stack

  unfoldable pub resolve {κ} :
      {E : Type κ}
      → (List ℕ → Result (List (List Symbolized)) E)
      → List ℕ
      → Result (List (ℕ × Option Text)) E
  unfolding name_frames
  resolve symbolize stack = do symbols ← symbolize stack; ok (name_frames symbols 0 stack)
