-- ===== src/Tests/Provider.antt =====
-- A line of async-profiler that is cut in two (jbm/src/async_profiler.rs), with a reader of lines.
use jbm.Prelude.{
  ℕ, ◌≡◌, ◌≢◌, refl, false, List, [], ◌∷◌, ◌++◌, Option, some, none, Result, ok, err, ap, Text,
  codes, ◌==◌, if◌then◌else◌, arith, Bool-cases, inl, inr,
}
use jbm.Events.{JvmEvent}
use jbm.HashMap.{push_back}
use jbm.Report.{newline}
use jbm.Provider.Reader.{has_break, LineReader, written, fill_all, fill_all-cut}
use jbm.Tests.Matching.{traced}

-- A text's lines, the part behind the last newline included if it is not empty.
abbrev begun : ℕ → List (Result Text Text) → List (Result Text Text)
begun c [] = ok (c ∷ []) ∷ []
begun c (ok line ∷ lines) = ok (c ∷ line) ∷ lines
begun c (err e ∷ lines) = err e ∷ lines

abbrev cut_lines : Text → List (Result Text Text)
cut_lines [] = []
cut_lines (c ∷ text) = if c == newline then ok [] ∷ cut_lines text else begun c (cut_lines text)

cut_lines-newline :
    (line rest : Text)
    → has_break line ≡ false
    → cut_lines (line ++ (newline ∷ rest)) ≡ ok line ∷ cut_lines rest
cut_lines-newline [] rest h = refl
cut_lines-newline (c ∷ line) rest h = elim (Bool-cases (c == newline)) [
  | inl e ↦ absurd (ground (arith, h, e))
  | inr e ↦
      let k : has_break line ≡ false = ground (arith, h, e) in
      rw (e, cut_lines-newline line rest k) refl
]

cut_lines-part : (part : Text) → has_break part ≡ false → part ≢ [] → cut_lines part ≡ ok part ∷ []
cut_lines-part [] h k = absurd (k refl)
cut_lines-part (c ∷ []) h k = ground (arith, h)
cut_lines-part (c ∷ (d ∷ part)) h k =
    let more : has_break (d ∷ part) ≡ false = ground (arith, h) in
    let off : (c == newline) ≡ false = ground (arith, h) in
    rw off (ap (begun c) (cut_lines-part (d ∷ part) more (λ e. cc)))

-- A reader that takes a '\n' as the end of a line, and leaves a '\r' in it.
abbrev reader : LineReader
reader = record {
  next_lines = cut_lines;
  at_end = refl;
  at_newline = cut_lines-newline;
  at_part = cut_lines-part;
}

-- A line of two characters is a trace.
abbrev parse : Text → Option JvmEvent
parse [] = none
parse (c ∷ []) = none
parse (c ∷ (d ∷ [])) = some (traced 7 1200)
parse (c ∷ (d ∷ (e ∷ text))) = none

fill_all-cut_example :
    (fill_all reader parse (written ((codes "{" ++ codes "}") ∷ []) ∷ []) []
      ≡ push_back 7 (traced 7 1200) [])
    × (fill_all reader parse (codes "{" ∷ written (codes "}" ∷ []) ∷ []) [] ≡ [])
fill_all-cut_example =
    fill_all-cut reader parse (codes "{") (codes "}") (traced 7 1200) [] refl refl refl (λ e. cc)
      refl refl refl
