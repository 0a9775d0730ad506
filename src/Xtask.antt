-- ===== src/Xtask.antt =====
-- The build tasks of xtask/src: the commands that they run, in their order.
pub mod Words
pub mod Architecture
pub mod BuildEbpf
pub mod Run
use jbm.Prelude.{
  Bool, true, false, not, ℕ, List, [], ◌∷◌, ◌++◌, Option, none, some, Result, ok, err, Text, codes,
  if◌then◌else◌,
}

-- A command as it is put together.
pub record Command : Type 0 where
  pub program : Text
  pub args : List Text
  pub current_dir : Option Text
  pub env_remove : List Text

-- `panics` is a failed `expect` or `assert!`.
pub data Outcome {ℓ} (A : Type ℓ) : Type ℓ where
  done : A → Outcome A
  bails : Text → Outcome A
  panics : Outcome A

-- The commands run so far, oldest first, and how it went.
abbrev pub M {ℓ} : Type ℓ → Type ℓ
M A = List Command → List Command × Outcome A

abbrev pub pure {ℓ} : {A : Type ℓ} → A → M A
pure a log = (log, done a)

abbrev pub continue {ℓ κ} :
    {A : Type ℓ} {B : Type κ} → (A → M B) → List Command × Outcome A → List Command × Outcome B
continue f (log, done a) = f a log
continue f (log, bails e) = (log, bails e)
continue f (log, panics) = (log, panics)

infixl 5 ◌>>=◌ ◌>>◌
abbrev pub ◌>>=◌ {ℓ κ} : {A : Type ℓ} {B : Type κ} → M A → (A → M B) → M B
◌>>=◌ m f log = continue f (m log)

abbrev pub ◌>>◌ {ℓ} : {B : Type ℓ} → M (Unit {0}) → M B → M B
m >> n = m >>= λ _. n

-- The outcome with what `context` puts before the text of an error, as `{e:#}` shows it.
abbrev in_context {ℓ} : {A : Type ℓ} → Text → List Command × Outcome A → List Command × Outcome A
in_context text (log, done a) = (log, done a)
in_context text (log, bails e) = (log, bails (text ++ (codes ": " ++ e)))
in_context text (log, panics) = (log, panics)

abbrev pub context {ℓ} : {A : Type ℓ} → Text → M A → M A
context text m log = in_context text (m log)
