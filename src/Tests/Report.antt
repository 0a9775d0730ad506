-- ===== src/Tests/Report.antt =====
-- Texts of reports (jbm/src/main.rs) and of trashed events (jbm/src/lib.rs).
use jbm.Prelude.{ℕ, ◌≡◌, refl, [], ◌∷◌, ◌++◌, some, Text, codes}
use jbm.Events.{JvmFrame, JvmEvent, BpfEvent}
use jbm.Report.{digits, decimal, frame_text, header_line, report_text, trash_header, trash_text}
use jbm.Report.Lines.{has_newline, split_lines, numbered, native_line, jvm_tail}
use jbm.Report.Laws.{split_lines-report_text, split_lines-trash_text, trash_frames}

-- A clock that shows the milliseconds.
abbrev time : ℕ → Text
time t = decimal t

abbrev frame : ℕ → Text → JvmFrame
frame id symbol = record { bci = 0; method_id = id; symbol = symbol }

abbrev traced_frames : JvmEvent
traced_frames = record {
  timestamp = 1200;
  tid = 7;
  frames = frame 255 (codes "a") ∷ (frame 16 (codes "b") ∷ (frame 1 (codes "c") ∷ []));
}

abbrev blocked_frames : BpfEvent
blocked_frames = record {
  timestamp = 1000;
  pid = 100;
  tid = 7;
  comm = codes "main";
  duration = 2000;
  stacktrace = (4096, codes "f") ∷ ((0, codes "g") ∷ []);
}

trash_text-lines :
    trash_text traced_frames
    ≡ codes "DISCARDED AP EVENT tid=7, timestamp=1200"
      ++ (10 ∷ (codes "0: [0xff] a1: [0x10] b" ++ (10 ∷ (codes "2: [0x1] c" ++ (10 ∷ [])))))
unfolding trash_text trash_header frame_text digits
trash_text-lines = refl

split_lines-trash_text_example :
    split_lines (trash_text traced_frames)
    ≡ trash_header traced_frames ∷ trash_frames traced_frames.frames
unfolding has_newline
split_lines-trash_text_example = split_lines-trash_text traced_frames (refl, (refl, (refl, tt)))

split_lines-report_text_example :
    split_lines (report_text time (blocked_frames, some traced_frames))
    ≡ header_line time blocked_frames
      ∷ (codes "Native Stack:"
          ∷ (numbered native_line 0 blocked_frames.stacktrace
              ++ jvm_tail time (some traced_frames)))
unfolding has_newline digits
split_lines-report_text_example =
    split_lines-report_text time (blocked_frames, some traced_frames)
      (refl, refl, (refl, (refl, tt)), (refl, (refl, (refl, (refl, tt)))))
