-- ===== src/Provider/Reader.antt =====
-- The lines that `fill_queue` (jbm/src/async_profiler.rs) gets from a file that async-profiler still
-- writes to.
use jbm.Prelude.{
  ◌≡◌, ◌≢◌, refl, ap, ◌∙◌, false, Bool, ◌||◌, List, [], ◌∷◌, ◌++◌, map, Option, none, some, Result,
  ok, Text, ◌==◌, All,
}
use jbm.Events.{JvmEvent}
use jbm.HashMap.{HashMap, push_back}
use jbm.Report.{newline}
use jbm.Provider.AsyncProfiler.{accept_line, fill_queue}

-- A '\n' or a '\r'.
abbrev pub has_break : Text → Bool
has_break [] = false
has_break (c ∷ t) = (c == newline) || (c == 13) || has_break t

-- tokio's `Lines`: what the calls of `next_line` give, up to the end of the file, for the text that was
-- written since the last call. At the end of the file the text behind the last '\n' is given as a line.
pub record LineReader : Type 0 where
  pub next_lines : Text → List (Result Text Text)
  pub at_end : next_lines [] ≡ []
  pub at_newline :
      (line rest : Text)
      → has_break line ≡ false
      → next_lines (line ++ (newline ∷ rest)) ≡ ok line ∷ next_lines rest
  pub at_part : (part : Text) → has_break part ≡ false → part ≢ [] → next_lines part ≡ ok part ∷ []

abbrev pub written : List Text → Text
written [] = []
written (line ∷ lines) = line ++ (newline ∷ written lines)

module _ (R : LineReader) (parse : Text → Option JvmEvent) where
  next_lines-written :
      (lines : List Text)
      → All (λ l. has_break l ≡ false) lines
      → R.next_lines (written lines) ≡ map ok lines
  next_lines-written [] h = R.at_end
  next_lines-written (line ∷ lines) h =
      R.at_newline line (written lines) h.0 ∙ ap (λ l. ok line ∷ l) (next_lines-written lines h.1)

  -- The calls of `fill_queue` for the texts that were written before each.
  unfoldable pub fill_all : List Text → HashMap (List JvmEvent) → HashMap (List JvmEvent)
  fill_all [] queues = queues
  fill_all (text ∷ texts) queues = fill_all texts (fill_queue parse (R.next_lines text) queues).0

  -- Whole lines are read as they were written.
  pub fill_all-written :
      (lines : List Text) (queues : HashMap (List JvmEvent))
      → All (λ l. has_break l ≡ false) lines
      → fill_all (written lines ∷ []) queues ≡ (fill_queue parse (map ok lines) queues).0
  unfolding fill_all
  fill_all-written lines queues h =
      ap (λ l. (fill_queue parse l queues).0) (next_lines-written lines h)

  accept_line-trace :
      (line : Text) (j : JvmEvent) (queues : HashMap (List JvmEvent))
      → parse line ≡ some j
      → accept_line parse line queues ≡ push_back j.tid j queues
  accept_line-trace line j queues e = rw (e, accept_line) refl

  accept_line-other :
      (line : Text) (queues : HashMap (List JvmEvent))
      → parse line ≡ none
      → accept_line parse line queues ≡ queues
  accept_line-other line queues e = rw (e, accept_line) refl

  -- One call that reads a line that is not a trace.
  fill_all-other :
      (text line : Text) (texts : List Text) (queues : HashMap (List JvmEvent))
      → R.next_lines text ≡ ok line ∷ []
      → parse line ≡ none
      → fill_all (text ∷ texts) queues ≡ fill_all texts queues
  unfolding fill_all fill_queue
  fill_all-other text line texts queues e no_trace =
      ap (λ l. fill_all texts (fill_queue parse l queues).0) e
      ∙ ap (fill_all texts) (accept_line-other line queues no_trace)

  -- A line that was written only in part when it is read is lost, though it is a trace: written in one
  -- piece its event is queued, but if one call comes between two parts of it, each of which is not a trace, the
  -- calls queue nothing.
  pub fill_all-cut :
      (front back : Text) (j : JvmEvent) (queues : HashMap (List JvmEvent))
      → has_break (front ++ back) ≡ false
      → has_break front ≡ false
      → has_break back ≡ false
      → front ≢ []
      → parse (front ++ back) ≡ some j
      → parse front ≡ none
      → parse back ≡ none
      → (fill_all (written ((front ++ back) ∷ []) ∷ []) queues ≡ push_back j.tid j queues)
        × (fill_all (front ∷ written (back ∷ []) ∷ []) queues ≡ queues)
  unfolding fill_all fill_queue
  fill_all-cut front back j queues whole h k some_front traced no_front no_back = (
    fill_all-written ((front ++ back) ∷ []) queues (whole, tt)
        ∙ accept_line-trace (front ++ back) j queues traced,
    fill_all-other front front (written (back ∷ []) ∷ []) queues (R.at_part front h some_front)
          no_front
        ∙ fill_all-other (written (back ∷ [])) back [] queues
            (next_lines-written (back ∷ []) (k, tt)) no_back,
  )
