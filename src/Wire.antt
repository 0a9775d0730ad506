-- ===== src/Wire.antt =====
-- The bytes of a `BlockEvent` on their way from the eBPF program to user space: the `repr(C)` layout of
-- jbm-common/src/lib.rs on a little-endian machine, which the eBPF program writes to EVENTS and
-- `Jbm::process` (jbm/src/lib.rs) copies back with `copy_nonoverlapping`.
use native.Mathlib.Nat.{pow-suc}
use mathlib.Core.List.{append_assoc}
use jbm.Prelude.{
  ℕ, zero, suc, ◌+◌, ◌*◌, ◌/◌, ◌%◌, ◌^◌, ◌<◌, ◌≡◌, refl, List, [], ◌∷◌, ◌++◌, arith, length, take,
  drop, u32_mod, u64_mod,
}
use jbm.Common.{BlockEvent, task_comm_len}

-- The little-endian bytes of a word.
unfoldable pub le_bytes : ℕ → ℕ → List ℕ
le_bytes zero n = []
le_bytes (suc c) n = (n % 256) ∷ le_bytes c (n / 256)

unfoldable pub of_le_bytes : List ℕ → ℕ
of_le_bytes [] = 0
of_le_bytes (b ∷ bs) = b + of_le_bytes bs * 256

unfoldable pub encode : BlockEvent → List ℕ
encode e =
    le_bytes 4 e.pid
    ++ (le_bytes 4 e.tgid
        ++ (le_bytes 8 e.user_stack_id
            ++ (le_bytes 8 e.kernel_stack_id
                ++ (e.name
                    ++ (le_bytes 8 e.offtime ++ (le_bytes 8 e.t_start ++ le_bytes 8 e.t_end))))))

-- The word at the front, and the bytes behind it.
unfoldable pub word : ℕ → List ℕ → ℕ × List ℕ
word c bs = (of_le_bytes (take c bs), drop c bs)

-- The same for the bytes of the name.
unfoldable pub comm : List ℕ → List ℕ × List ℕ
comm bs = (take task_comm_len bs, drop task_comm_len bs)

unfoldable pub decode : List ℕ → BlockEvent
decode bs =
    let (pid, b1) = word 4 bs in
    let (tgid, b2) = word 4 b1 in
    let (user_stack_id, b3) = word 8 b2 in
    let (kernel_stack_id, b4) = word 8 b3 in
    let (name, b5) = comm b4 in
    let (offtime, b6) = word 8 b5 in
    let (t_start, b7) = word 8 b6 in
    let (t_end, b8) = word 8 b7 in
    record {
      pid = pid;
      tgid = tgid;
      user_stack_id = user_stack_id;
      kernel_stack_id = kernel_stack_id;
      name = name;
      offtime = offtime;
      t_start = t_start;
      t_end = t_end;
    }

-- The fields are words of their widths.
pub record IsWellSized (e : BlockEvent) : Type 0 where
  pub pid_word : e.pid < u32_mod
  pub tgid_word : e.tgid < u32_mod
  pub user_word : e.user_stack_id < u64_mod
  pub kernel_word : e.kernel_stack_id < u64_mod
  pub name_bytes : length e.name ≡ task_comm_len
  pub offtime_word : e.offtime < u64_mod
  pub start_word : e.t_start < u64_mod
  pub end_word : e.t_end < u64_mod

of_le_bytes-le_bytes : (c n : ℕ) → n < 256 ^ c → of_le_bytes (le_bytes c n) ≡ n
unfolding le_bytes of_le_bytes
of_le_bytes-le_bytes zero n h = omega arith
of_le_bytes-le_bytes (suc c) n h =
    omega (arith, of_le_bytes-le_bytes c (n / 256) (omega (arith, pow-suc 256 c)))

take_front : (c : ℕ) (xs rest : List ℕ) → length xs ≡ c → take c (xs ++ rest) ≡ xs
take_front zero [] rest h = refl
take_front zero (x ∷ xs) rest h = absurd (omega arith)
take_front (suc c) [] rest h = absurd (omega arith)
take_front (suc c) (x ∷ xs) rest h = rw (take_front c xs rest (omega arith))

drop_front : (c : ℕ) (xs rest : List ℕ) → length xs ≡ c → drop c (xs ++ rest) ≡ rest
drop_front zero [] rest h = refl
drop_front zero (x ∷ xs) rest h = absurd (omega arith)
drop_front (suc c) [] rest h = absurd (omega arith)
drop_front (suc c) (x ∷ xs) rest h = drop_front c xs rest (omega arith)

length-le_bytes : (c n : ℕ) → length (le_bytes c n) ≡ c
unfolding le_bytes
length-le_bytes zero n = refl
length-le_bytes (suc c) n = omega (arith, length-le_bytes c (n / 256))

word-le_bytes : (c n : ℕ) (rest : List ℕ) → n < 256 ^ c → word c (le_bytes c n ++ rest) ≡ (n, rest)
unfolding word
word-le_bytes c n rest h = rw (
  take_front c (le_bytes c n) rest (length-le_bytes c n),
  drop_front c (le_bytes c n) rest (length-le_bytes c n),
  of_le_bytes-le_bytes c n h,
)

comm-append :
    (name rest : List ℕ) → length name ≡ task_comm_len → comm (name ++ rest) ≡ (name, rest)
unfolding comm
comm-append name rest h =
    rw (take_front task_comm_len name rest h, drop_front task_comm_len name rest h)

-- What user space decodes is what the eBPF program wrote, whatever bytes follow it, if the fields of the
-- event have their widths.
pub decode-encode : (e : BlockEvent) (rest : List ℕ) → IsWellSized e → decode (encode e ++ rest) ≡ e
unfolding decode encode
decode-encode e rest h = simp append_assoc (
    rw
      (
        word-le_bytes 4 e.pid _ h.pid_word,
        word-le_bytes 4 e.tgid _ h.tgid_word,
        word-le_bytes 8 e.user_stack_id _ h.user_word,
        word-le_bytes 8 e.kernel_stack_id _ h.kernel_word,
        comm-append e.name _ h.name_bytes,
        word-le_bytes 8 e.offtime _ h.offtime_word,
        word-le_bytes 8 e.t_start _ h.start_word,
        word-le_bytes 8 e.t_end _ h.end_word,
      )
      refl)
