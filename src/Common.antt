-- ===== src/Common.antt =====
-- The types and constants of jbm-common/src/lib.rs. Each number is an unsigned word of the width in its
-- comment; an i64 is held as its bit pattern.
use jbm.Prelude.{ℕ, List}

abbrev pub stack_storage_size : ℕ
stack_storage_size = 10240

abbrev pub task_comm_len : ℕ
task_comm_len = 16

pub record Config : Type 0 where
  pub target_tgid : ℕ  -- u32
  pub min_block_us : ℕ  -- u64
  pub max_block_us : ℕ  -- u64
  pub stack_storage_size : ℕ  -- u32

pub record BlockEvent : Type 0 where
  pub pid : ℕ  -- u32
  pub tgid : ℕ  -- u32
  pub user_stack_id : ℕ  -- i64
  pub kernel_stack_id : ℕ  -- i64
  pub name : List ℕ  -- task_comm_len bytes
  pub offtime : ℕ  -- u64
  pub t_start : ℕ  -- u64
  pub t_end : ℕ  -- u64
