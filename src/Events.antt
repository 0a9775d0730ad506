-- ===== src/Events.antt =====
-- The event types of jbm/src/lib.rs. Times are u64 milliseconds; `duration` is in microseconds.
use jbm.Prelude.{ℕ, List, Text, Option}

pub record JvmFrame : Type 0 where
  pub bci : ℕ  -- the i64 as its bit pattern
  pub method_id : ℕ
  pub symbol : Text

pub record JvmEvent : Type 0 where
  pub timestamp : ℕ
  pub tid : ℕ
  pub frames : List JvmFrame

pub record BpfEvent : Type 0 where
  pub timestamp : ℕ
  pub pid : ℕ
  pub tid : ℕ
  pub comm : Text
  pub duration : ℕ
  pub stacktrace : List (ℕ × Text)

-- An entry of what `process` and `sweep` return.
abbrev pub Pair : Type 0
Pair = BpfEvent × Option JvmEvent
