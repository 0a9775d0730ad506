-- ===== src/Report/Lines.antt =====
-- Texts cut at their newlines, and the lines of the frames.
use mathlib.Core.List.{append_assoc, append-nil}
use jbm.Prelude.{
  ℕ, suc, ◌≡◌, refl, Bool, false, ◌||◌, List, [], ◌∷◌, ◌++◌, map, Option, none, some, Text, codes,
  arith, ◌==◌, if◌then◌else◌, All, ap, ◌∙◌,
}
use jbm.Events.{JvmFrame, JvmEvent}
use jbm.Report.{
  newline, digits, took_parts, digit, decimal, hex, frame_text, native_lines, break_line, jvm_lines,
  separator, format, took_line, jvm_part, trash_lines,
}

unfoldable pub has_newline : Text → Bool
has_newline [] = false
has_newline (c ∷ cs) = (c == newline) || has_newline cs

abbrev onto_first : ℕ → List Text → List Text
onto_first c [] = (c ∷ []) ∷ []
onto_first c (l ∷ ls) = (c ∷ l) ∷ ls

-- The parts of a text between its newlines.
unfoldable pub split_lines : Text → List Text
split_lines [] = [] ∷ []
split_lines (c ∷ cs) =
    let rest = split_lines cs in if c == newline then [] ∷ rest else onto_first c rest

pub split_lines-line :
    (l t : Text) → has_newline l ≡ false → split_lines (l ++ (newline ∷ t)) ≡ l ∷ split_lines t
unfolding has_newline split_lines
split_lines-line [] t h = refl
split_lines-line (c ∷ l) t h = ground (arith, split_lines-line l t)

pub split_lines-one : (l : Text) → has_newline l ≡ false → split_lines l ≡ l ∷ []
unfolding has_newline split_lines
split_lines-one [] h = refl
split_lines-one (c ∷ l) h = ground (arith, split_lines-one l)

pub has_newline-append :
    (xs ys : Text)
    → has_newline xs ≡ false
    → has_newline ys ≡ false
    → has_newline (xs ++ ys) ≡ false
unfolding has_newline
has_newline-append [] ys hx hy = hy
has_newline-append (x ∷ xs) ys hx hy = ground (arith, has_newline-append xs ys)

pub has_newline-digits : (ds : List ℕ) → has_newline (map digit ds) ≡ false
unfolding has_newline
has_newline-digits [] = refl
has_newline-digits (d ∷ ds) = ground (arith, has_newline-digits ds)

pub has_newline-codes :
    (has_newline (codes ": [0x") ≡ false)
    × (has_newline (codes "] ") ≡ false)
    × (has_newline (codes "  ") ≡ false)
    × (has_newline separator ≡ false)
    × (has_newline (codes "Native Stack:") ≡ false)
unfolding has_newline
has_newline-codes = (refl, refl, refl, refl, refl)

pub has_newline-frame_text :
    (i address : ℕ) (symbol : Text)
    → has_newline symbol ≡ false
    → has_newline (frame_text i address symbol) ≡ false
unfolding frame_text
has_newline-frame_text i address symbol h =
    let tail = has_newline-append (codes "] ") symbol has_newline-codes.1 h in
    let inner =
      has_newline-append (hex address) (codes "] " ++ symbol)
        (has_newline-digits (digits 16 16 address)) tail in
    has_newline-append (decimal i) (codes ": [0x" ++ (hex address ++ (codes "] " ++ symbol)))
      (has_newline-digits (digits 10 20 i))
      (has_newline-append (codes ": [0x") (hex address ++ (codes "] " ++ symbol))
        has_newline-codes.0 inner)

-- No symbol of the frames has a newline.
abbrev pub NativeClean : List (ℕ × Text) → Type 0
NativeClean = All (λ f. has_newline f.1 ≡ false)

abbrev pub JvmClean : List JvmFrame → Type 0
JvmClean = All (λ f. has_newline f.symbol ≡ false)

abbrev pub native_line : ℕ → ℕ × Text → Text
native_line i f = codes "  " ++ frame_text i f.0 f.1

abbrev pub jvm_line : ℕ → JvmFrame → Text
jvm_line i f = codes "  " ++ frame_text i f.method_id f.symbol

abbrev pub trash_line : ℕ → JvmFrame → Text
trash_line i f = frame_text i f.method_id f.symbol

-- A line for each element, with its number.
unfoldable pub numbered {ℓ} : {A : Type ℓ} → (ℕ → A → Text) → ℕ → List A → List Text
numbered line i [] = []
numbered line i (x ∷ xs) = line i x ∷ numbered line (suc i) xs

has_newline-line :
    (i address : ℕ) (symbol : Text)
    → has_newline symbol ≡ false
    → has_newline (codes "  " ++ frame_text i address symbol) ≡ false
has_newline-line i address symbol h =
    has_newline-append (codes "  ") (frame_text i address symbol) has_newline-codes.2
      (has_newline-frame_text i address symbol h)

pub split_lines-native :
    (i : ℕ) (fs : List (ℕ × Text)) (t : Text)
    → NativeClean fs
    → split_lines (native_lines i fs ++ t) ≡ numbered native_line i fs ++ split_lines t
unfolding numbered
split_lines-native i [] t h = refl
split_lines-native i (f ∷ fs) t h =
    rw
      (
        append_assoc (native_line i f) (newline ∷ native_lines (suc i) fs) t,
        split_lines-line (native_line i f) (native_lines (suc i) fs ++ t)
            (has_newline-line i f.0 f.1 h.0),
        split_lines-native (suc i) fs t h.1,
      )
      refl

pub break_line-suc : (i : ℕ) (t : Text) → break_line (suc i) t ≡ newline ∷ t
break_line-suc i t = ground arith

split_lines-jvm :
    (i : ℕ) (f : JvmFrame) (fs : List JvmFrame)
    → JvmClean (f ∷ fs)
    → split_lines (jvm_line i f ++ jvm_lines (suc i) fs) ≡ numbered jvm_line i (f ∷ fs)
unfolding numbered
split_lines-jvm i f [] h =
    rw (append-nil (jvm_line i f))
      (split_lines-one (jvm_line i f) (has_newline-line i f.method_id f.symbol h.0))
split_lines-jvm i f (g ∷ fs) h =
    let rest = jvm_line (suc i) g ++ jvm_lines (suc (suc i)) fs in
    ap (λ t. split_lines (jvm_line i f ++ t)) (break_line-suc i rest)
    ∙ (split_lines-line (jvm_line i f) rest (has_newline-line i f.method_id f.symbol h.0)
        ∙ ap (λ ls. jvm_line i f ∷ ls) (split_lines-jvm (suc i) g fs h.1))

pub split_lines-trash :
    (i : ℕ) (f : JvmFrame) (fs : List JvmFrame)
    → JvmClean (f ∷ fs)
    → split_lines (trash_line (suc i) f ++ (newline ∷ trash_lines (suc (suc i)) fs))
      ≡ numbered trash_line (suc i) (f ∷ fs) ++ ([] ∷ [])
unfolding numbered split_lines
split_lines-trash i f [] h =
    split_lines-line (trash_line (suc i) f) []
      (has_newline-frame_text (suc i) f.method_id f.symbol h.0)
    ∙ refl
split_lines-trash i f (g ∷ fs) h =
    let rest = trash_lines (suc (suc i)) (g ∷ fs) in
    split_lines-line (trash_line (suc i) f) rest
      (has_newline-frame_text (suc i) f.method_id f.symbol h.0)
    ∙ ap (λ ls. trash_line (suc i) f ∷ ls)
        (ap (λ t. split_lines (trash_line (suc (suc i)) g ++ t))
            (break_line-suc (suc i) (trash_lines (suc (suc (suc i))) fs))
          ∙ split_lines-trash (suc i) g fs h.1)

-- The lines of the Java part of a report. A trace without frames leaves an empty line.
abbrev pub frame_lines : List JvmFrame → List Text
frame_lines [] = [] ∷ []
frame_lines (f ∷ fs) = numbered jvm_line 0 (f ∷ fs)

split_lines-frames :
    (fs : List JvmFrame) → JvmClean fs → split_lines (jvm_lines 0 fs) ≡ frame_lines fs
unfolding split_lines
split_lines-frames [] h = refl
split_lines-frames (f ∷ fs) h = split_lines-jvm 0 f fs h

pub has_newline-format :
    (ts : List Text) → All (λ t. has_newline t ≡ false) ts → has_newline (format ts) ≡ false
unfolding has_newline
has_newline-format [] h = refl
has_newline-format (t ∷ ts) h = has_newline-append t (format ts) h.0 (has_newline-format ts h.1)

-- The lines that follow those of the native stack.
module _ (time : ℕ → Text) where
  has_newline-took_line :
      (j : JvmEvent)
      → has_newline (time j.timestamp) ≡ false
      → has_newline (took_line time j) ≡ false
  unfolding took_line has_newline
  has_newline-took_line j at = has_newline-format (took_parts time j) (refl, (at, (refl, tt)))

  abbrev pub jvm_tail : Option JvmEvent → List Text
  jvm_tail none = [] ∷ []
  jvm_tail (some j) = separator ∷ (took_line time j ∷ frame_lines j.frames)

  abbrev pub JvmPartClean : Option JvmEvent → Type 0
  JvmPartClean none = Unit {0}
  JvmPartClean (some j) = (has_newline (time j.timestamp) ≡ false) × JvmClean j.frames

  pub split_lines-jvm_part :
      (j : Option JvmEvent) → JvmPartClean j → split_lines (jvm_part time j) ≡ jvm_tail j
  unfolding jvm_part split_lines
  split_lines-jvm_part none h = refl
  split_lines-jvm_part (some j) h =
      split_lines-line separator (took_line time j ++ (newline ∷ jvm_lines 0 j.frames))
        has_newline-codes.3
      ∙ (ap (λ ls. separator ∷ ls)
            (split_lines-line (took_line time j) (jvm_lines 0 j.frames)
              (has_newline-took_line j h.0))
          ∙ ap (λ ls. separator ∷ (took_line time j ∷ ls)) (split_lines-frames j.frames h.1))
