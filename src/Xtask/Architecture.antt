-- ===== src/Xtask/Architecture.antt =====
-- The BPF targets of xtask/src/build_ebpf.rs.
use jbm.Prelude.{
  ◌≡◌, ◌↔◌, refl, Bool, true, false, ◌&&◌, [], ◌∷◌, Result, ok, err, Text, codes, ◌==◌,
  if◌then◌else◌, arith,
}

pub data Architecture : Type 0 where
  bpf_el : Architecture
  bpf_eb : Architecture

unfoldable pub text_eq : Text → Text → Bool
text_eq [] [] = true
text_eq [] (d ∷ t) = false
text_eq (c ∷ s) [] = false
text_eq (c ∷ s) (d ∷ t) = c == d && text_eq s t

unfoldable pub from_str : Text → Result Architecture Text
from_str s =
    if text_eq s (codes "bpfel-unknown-none")
    then ok bpf_el
    else if text_eq s (codes "bpfeb-unknown-none")
    then ok bpf_eb
    else err (codes "invalid target")

-- `Display`
unfoldable pub to_string : Architecture → Text
to_string bpf_el = codes "bpfel-unknown-none"
to_string bpf_eb = codes "bpfeb-unknown-none"

text_eq→eq : (s t : Text) → text_eq s t ≡ true → s ≡ t
unfolding text_eq
text_eq→eq [] [] h = refl
text_eq→eq [] (d ∷ t) h = cc
text_eq→eq (c ∷ s) [] h = cc
text_eq→eq (c ∷ s) (d ∷ t) h = ground (arith, text_eq→eq s t)

from_str-eq : (s : Text) (a : Architecture) → from_str s ≡ ok a → s ≡ to_string a
unfolding from_str to_string
from_str-eq s bpf_el h = ground (arith, h, text_eq→eq s (codes "bpfel-unknown-none"))
from_str-eq s bpf_eb h = ground (arith, h, text_eq→eq s (codes "bpfeb-unknown-none"))

from_str-of : (a : Architecture) → from_str (to_string a) ≡ ok a
unfolding from_str to_string text_eq
from_str-of bpf_el = refl
from_str-of bpf_eb = refl

-- A text is read as a target exactly if it is the name that the target is shown by.
from_str-to_string : (s : Text) (a : Architecture) → (from_str s ≡ ok a) ↔ (s ≡ to_string a)
from_str-to_string s a = (from_str-eq s a, λ e. rw e (from_str-of a))
