-- ===== src/Xtask/Words.antt =====
-- `trim` and `split_terminator(' ')` of Rust's strings, as xtask/src/run.rs uses them.
use jbm.Prelude.{
  ℕ, ◌≡◌, refl, Bool, false, ◌||◌, ◌&&◌, List, [], ◌∷◌, ◌++◌, Text, leb, ◌==◌, if◌then◌else◌, arith,
  is_empty, All, inl, inr, Bool-cases, sym, ap, ◌∙◌, ==_iff,
}

-- Unicode's White_Space.
unfoldable pub is_whitespace : ℕ → Bool
is_whitespace c =
    (leb 9 c && leb c 13)
    || c == 32
    || c == 0x85
    || c == 0xa0
    || c == 0x1680
    || (leb 0x2000 c && leb c 0x200a)
    || c == 0x2028
    || c == 0x2029
    || c == 0x202f
    || c == 0x205f
    || c == 0x3000

unfoldable pub trim_start : Text → Text
trim_start [] = []
trim_start (c ∷ cs) = let rest = trim_start cs in if is_whitespace c then rest else c ∷ cs

unfoldable pub trim_end : Text → Text
trim_end [] = []
trim_end (c ∷ cs) =
    let rest = trim_end cs in if is_empty rest && is_whitespace c then [] else c ∷ rest

unfoldable pub trim : Text → Text
trim s = trim_end (trim_start s)

abbrev pub onto_word : ℕ → List Text → List Text
onto_word c [] = (c ∷ []) ∷ []
onto_word c (w ∷ ws) = (c ∷ w) ∷ ws

-- A space ends a piece; behind the last space there is a piece only if there is a character.
unfoldable pub split_terminator : Text → List Text
split_terminator [] = []
split_terminator (c ∷ cs) =
    let rest = split_terminator cs in if c == 32 then [] ∷ rest else onto_word c rest

-- `join(" ")`
unfoldable pub join : List Text → Text
join [] = []
join (w ∷ []) = w
join (w ∷ (v ∷ ws)) = w ++ (32 ∷ join (v ∷ ws))

unfoldable pub has_space : Text → Bool
has_space [] = false
has_space (c ∷ cs) = c == 32 || has_space cs

ends_in_space : Text → Bool
ends_in_space [] = false
ends_in_space (c ∷ cs) = if is_empty cs then c == 32 else ends_in_space cs

onto_word-cons :
    (c : ℕ) (ls : List Text) → (w : Text) × (ws : List Text) × (onto_word c ls ≡ w ∷ ws)
onto_word-cons c [] = (c ∷ [], [], refl)
onto_word-cons c (l ∷ ls) = (c ∷ l, ls, refl)

split_terminator-cons :
    (c : ℕ) (cs : Text) → (w : Text) × (ws : List Text) × (split_terminator (c ∷ cs) ≡ w ∷ ws)
unfolding split_terminator
split_terminator-cons c cs = elim (Bool-cases (c == 32)) [
  | inl e ↦ ([], split_terminator cs, rw e refl)
  | inr e ↦ let (w, ws, f) = onto_word-cons c (split_terminator cs) in (w, ws, rw e f)
]

join-onto_word : (c : ℕ) (w : Text) (ws : List Text) → join ((c ∷ w) ∷ ws) ≡ c ∷ join (w ∷ ws)
unfolding join
join-onto_word c w [] = refl
join-onto_word c w (v ∷ ws) = refl

join_words : (s : Text) → ends_in_space s ≡ false → join (split_terminator s) ≡ s
unfolding join split_terminator ends_in_space
join_words [] h = refl
join_words (c ∷ []) h = ground (arith, h)
join_words (c ∷ (d ∷ s)) h =
    let (w, ws, e) = split_terminator-cons d s in
    let rest : join (w ∷ ws) ≡ d ∷ s = ap join (sym e) ∙ join_words (d ∷ s) h in
    elim (Bool-cases (c == 32)) [
      | inl f ↦ rw (f, e, rest) (ap (λ b. b ∷ (d ∷ s)) (sym ((==_iff c 32).0 f)))
      | inr f ↦ rw (f, e) (join-onto_word c w ws ∙ ap (λ t. c ∷ t) rest)
    ]

trim_end-ends : (s : Text) → ends_in_space (trim_end s) ≡ false
unfolding trim_end ends_in_space is_whitespace
trim_end-ends [] = refl
trim_end-ends (c ∷ s) = ground (arith, trim_end-ends s)

onto_word-All :
    (c : ℕ) (ls : List Text)
    → (c == 32) ≡ false
    → All (λ w. has_space w ≡ false) ls
    → All (λ w. has_space w ≡ false) (onto_word c ls)
unfolding has_space
onto_word-All c [] h all = (ground (arith, h), tt)
onto_word-All c (l ∷ ls) h all = (ground (arith, h, all.0), all.1)

split_terminator-All : (s : Text) → All (λ w. has_space w ≡ false) (split_terminator s)
unfolding split_terminator has_space
split_terminator-All [] = tt
split_terminator-All (c ∷ s) = elim (Bool-cases (c == 32)) [
  | inl e ↦ rw e (refl, split_terminator-All s)
  | inr e ↦ rw e (onto_word-All c (split_terminator s) e (split_terminator-All s))
]

-- Joined by spaces, the words of a trimmed text give it back, and no word holds a space.
join-split_terminator :
    (s : Text)
    → (join (split_terminator (trim s)) ≡ trim s)
      × All (λ w. has_space w ≡ false) (split_terminator (trim s))
unfolding trim
join-split_terminator s = (
  join_words (trim_end (trim_start s)) (trim_end-ends (trim_start s)),
  split_terminator-All (trim_end (trim_start s)),
)
