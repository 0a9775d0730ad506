-- ===== src/Report.antt =====
-- The text of a report (the body of the loop in jbm/src/main.rs) and of a trashed event
-- (`EventStream::trash_jvm_event` in jbm/src/lib.rs).
pub mod Digits
pub mod Lines
pub mod Laws
use jbm.Prelude.{
  ℕ, zero, suc, ◌+◌, ◌*◌, ◌/◌, ◌%◌, List, [], ◌∷◌, ◌++◌, map, Option, none, some, Text, codes, ltb,
  if◌then◌else◌,
}
use jbm.Events.{JvmFrame, JvmEvent, BpfEvent, Pair}

-- '\n'
abbrev pub newline : ℕ
newline = 10

-- The digits of a number below `base ^ fuel`, as numbers.
unfoldable pub digits : ℕ → ℕ → ℕ → List ℕ
digits base zero n = []
digits base (suc fuel) n =
    let front = digits base fuel (n / base) in
    if ltb n base then n ∷ [] else front ++ (n % base ∷ [])

abbrev pub digit : ℕ → ℕ
digit d = if ltb d 10 then 48 + d else 87 + d

-- `{}` and `{:x}` of an integer: a u64 has 20 decimal and 16 hexadecimal digits at most.
abbrev pub decimal : ℕ → Text
decimal n = map digit (digits 10 20 n)

abbrev pub hex : ℕ → Text
hex n = map digit (digits 16 16 n)

-- What `format!` puts together.
abbrev pub format : List Text → Text
format [] = []
format (t ∷ ts) = t ++ format ts

-- "{}: [0x{:x}] {}"
unfoldable pub frame_text : ℕ → ℕ → Text → Text
frame_text i address symbol =
    decimal i ++ (codes ": [0x" ++ (hex address ++ (codes "] " ++ symbol)))

abbrev pub native_lines : ℕ → List (ℕ × Text) → Text
native_lines i [] = []
native_lines i ((address, symbol) ∷ frames) =
    (codes "  " ++ frame_text i address symbol) ++ (newline ∷ native_lines (suc i) frames)

-- `if i > 0 { out.push('\n') }`
abbrev pub break_line : ℕ → Text → Text
break_line i t = if ltb 0 i then newline ∷ t else t

abbrev pub jvm_lines : ℕ → List JvmFrame → Text
jvm_lines i [] = []
jvm_lines i (frame ∷ frames) =
    break_line i
      ((codes "  " ++ frame_text i frame.method_id frame.symbol) ++ jvm_lines (suc i) frames)

abbrev pub separator : Text
separator = codes "--------------------------------------------------------------------------------"

-- `time` is `format_time`, of the crate chrono.
module _ (time : ℕ → Text) where
  abbrev pub header_parts : BpfEvent → List Text
  header_parts b =
      (codes "=== "
        ∷ (time b.timestamp
            ∷ (codes " "
                ∷ (decimal b.timestamp
                    ∷ (codes " PID: "
                        ∷ (decimal b.pid
                            ∷ (codes ", TID: "
                                ∷ (decimal b.tid
                                    ∷ (codes " ("
                                        ∷ (b.comm
                                            ∷ (codes "), DURATION: "
                                                ∷ (decimal b.duration
                                                    ∷ (codes " us" ∷ [])))))))))))))

  unfoldable pub header_line : BpfEvent → Text
  header_line b = format (header_parts b)

  abbrev pub took_parts : JvmEvent → List Text
  took_parts j = (codes "JVM Stack (took: " ∷ (time j.timestamp ∷ (codes "):" ∷ [])))

  unfoldable pub took_line : JvmEvent → Text
  took_line j = format (took_parts j)

  pub jvm_part : Option JvmEvent → Text
  jvm_part none = []
  jvm_part (some j) = separator ++ (newline ∷ (took_line j ++ (newline ∷ jvm_lines 0 j.frames)))

  -- What `println!` prints, before its own newline.
  unfoldable pub report_text : Pair → Text
  unfolding jvm_part
  report_text (b, j) =
      header_line b
      ++ (newline
          ∷ (codes "Native Stack:" ++ (newline ∷ (native_lines 0 b.stacktrace ++ jvm_part j))))

abbrev pub trash_parts : JvmEvent → List Text
trash_parts e =
    (codes "DISCARDED AP EVENT tid="
      ∷ (decimal e.tid ∷ (codes ", timestamp=" ∷ (decimal e.timestamp ∷ []))))

unfoldable pub trash_header : JvmEvent → Text
trash_header e = format (trash_parts e)

abbrev pub trash_lines : ℕ → List JvmFrame → Text
trash_lines i [] = []
trash_lines i (frame ∷ frames) =
    frame_text i frame.method_id frame.symbol ++ break_line i (trash_lines (suc i) frames)

-- What `trash_jvm_event` logs.
unfoldable pub trash_text : JvmEvent → Text
trash_text e = trash_header e ++ (newline ∷ trash_lines 0 e.frames)
