-- ===== src/Report/Laws.antt =====
-- The lines of the two texts: a report is one line for each frame, but the first two frames of a
-- trashed event share a line.
use mathlib.Core.List.{append_assoc, append-nil}
use jbm.Prelude.{sym, suc, ℕ, ◌≡◌, refl, false, List, [], ◌∷◌, ◌++◌, Text, codes, ap, ◌∙◌}
use jbm.Events.{JvmFrame, JvmEvent, BpfEvent, Pair}
use jbm.Report.{
  newline, digits, header_parts, header_line, native_lines, jvm_part, report_text, trash_parts,
  trash_header, trash_lines, trash_text,
}
use jbm.Report.Lines.{
  has_newline, has_newline-append, has_newline-digits, has_newline-codes, has_newline-frame_text,
  split_lines, split_lines-line, split_lines-native, split_lines-one, split_lines-trash,
  split_lines-jvm_part, has_newline-format, JvmPartClean, jvm_tail, NativeClean, JvmClean,
  native_line, trash_line, numbered, break_line-suc,
}

module _ (time : ℕ → Text) where
  has_newline-header_line :
      (b : BpfEvent)
      → has_newline (time b.timestamp) ≡ false
      → has_newline b.comm ≡ false
      → has_newline (header_line time b) ≡ false
  unfolding header_line has_newline
  has_newline-header_line b at comm = has_newline-format (header_parts time b) (
    refl,
    (
      at,
      (
        refl,
        (
          has_newline-digits (digits 10 20 b.timestamp),
          (
            refl,
            (
              has_newline-digits (digits 10 20 b.pid),
              (
                refl,
                (
                  has_newline-digits (digits 10 20 b.tid),
                  (
                    refl,
                    (comm, (refl, (has_newline-digits (digits 10 20 b.duration), (refl, tt)))),
                  ),
                ),
              ),
            ),
          ),
        ),
      ),
    ),
  )

has_newline-trash_header : (e : JvmEvent) → has_newline (trash_header e) ≡ false
unfolding trash_header has_newline
has_newline-trash_header e = has_newline-format (trash_parts e) (
  refl,
  (
    has_newline-digits (digits 10 20 e.tid),
    (refl, (has_newline-digits (digits 10 20 e.timestamp), tt)),
  ),
)

-- The lines of a trashed event's text after its first: the first two frames share one.
abbrev pub trash_frames : List JvmFrame → List Text
trash_frames [] = [] ∷ []
trash_frames (f ∷ []) = trash_line 0 f ∷ []
trash_frames (f ∷ (g ∷ fs)) =
    (trash_line 0 f ++ trash_line 1 g) ∷ (numbered trash_line 2 fs ++ ([] ∷ []))

module _ (time : ℕ → Text) where
  -- The names in a pair and the times that it shows have no newline.
  abbrev pub IsClean : Pair → Type 0
  IsClean (b, j) =
      (has_newline (time b.timestamp) ≡ false)
      × (has_newline b.comm ≡ false)
      × NativeClean b.stacktrace
      × JvmPartClean time j

  -- Cut at its newlines, the report of a pair is a header, a title, a numbered line for each native
  -- frame, and then the Java part: a rule, a title with its time, and a numbered line for each frame.
  -- The names in the pair, and the times as they are shown, must have no newline.
  pub split_lines-report_text :
      (p : Pair)
      → IsClean p
      → split_lines (report_text time p)
        ≡ header_line time p.0
          ∷ (codes "Native Stack:" ∷ (numbered native_line 0 p.0.stacktrace ++ jvm_tail time p.1))
  unfolding report_text
  split_lines-report_text (b, j) h =
      let frames = native_lines 0 b.stacktrace ++ jvm_part time j in
      split_lines-line (header_line time b) (codes "Native Stack:" ++ (newline ∷ frames))
        (has_newline-header_line time b h.0 h.1)
      ∙ (ap (λ ls. header_line time b ∷ ls)
            (split_lines-line (codes "Native Stack:") frames has_newline-codes.4)
          ∙ ap (λ ls. header_line time b ∷ (codes "Native Stack:" ∷ ls))
              (split_lines-native 0 b.stacktrace (jvm_part time j) h.2
                ∙ ap (λ ls. numbered native_line 0 b.stacktrace ++ ls)
                    (split_lines-jvm_part time j h.3)))

trash_tail :
    (i : ℕ) (fs : List JvmFrame)
    → JvmClean fs
    → split_lines (trash_lines (suc i) fs) ≡ numbered trash_line (suc i) fs ++ ([] ∷ [])
unfolding split_lines numbered
trash_tail i [] h = refl
trash_tail i (f ∷ fs) h =
    ap (λ t. split_lines (trash_line (suc i) f ++ t))
      (break_line-suc i (trash_lines (suc (suc i)) fs))
    ∙ split_lines-trash i f fs h

trash_front : (fs : List JvmFrame) → JvmClean fs → split_lines (trash_lines 0 fs) ≡ trash_frames fs
unfolding split_lines
trash_front [] h = refl
trash_front (f ∷ []) h =
    ap split_lines (append-nil (trash_line 0 f))
    ∙ split_lines-one (trash_line 0 f) (has_newline-frame_text 0 f.method_id f.symbol h.0)
trash_front (f ∷ (g ∷ fs)) h =
    let rest = trash_lines 2 fs in
    ap (λ t. split_lines (trash_line 0 f ++ (trash_line 1 g ++ t))) (break_line-suc 0 rest)
    ∙ (ap split_lines (sym (append_assoc (trash_line 0 f) (trash_line 1 g) (newline ∷ rest)))
        ∙ (split_lines-line (trash_line 0 f ++ trash_line 1 g) rest (
              has_newline-append (trash_line 0 f) (trash_line 1 g)
                (has_newline-frame_text 0 f.method_id f.symbol h.0)
                (has_newline-frame_text 1 g.method_id g.symbol h.1.0))
            ∙ ap (λ ls. (trash_line 0 f ++ trash_line 1 g) ∷ ls) (trash_tail 1 fs h.1.1)))

-- Cut at its newlines, the text of a trashed event is a header and a line for each frame, but frames 0
-- and 1 stand on one line, with nothing between them. The symbols must have no newline.
pub split_lines-trash_text :
    (e : JvmEvent)
    → JvmClean e.frames
    → split_lines (trash_text e) ≡ trash_header e ∷ trash_frames e.frames
unfolding trash_text
split_lines-trash_text e h =
    split_lines-line (trash_header e) (trash_lines 0 e.frames) (has_newline-trash_header e)
    ∙ ap (λ ls. trash_header e ∷ ls) (trash_front e.frames h)
