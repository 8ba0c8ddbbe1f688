-- ===== src/Lines/Scan.antt =====
-- The reference: a scanner that reads one byte at a time and knows nothing of chunks.
use rtc_egress.Prelude.{
  ℕ, List, [], ◌∷◌, ◌++◌, ◌≡◌, refl, ap, Bool-cases, inl, inr, ◌==◌, if◌then◌else◌,
}

pub record Scanned : Type 0 where
  pub lines : List (List ℕ)
  pub tail : List ℕ

abbrev pub add_line : List ℕ → Scanned → Scanned
add_line l s = record { lines = l ∷ s.lines; tail = s.tail }

abbrev pub add_lines : List (List ℕ) → Scanned → Scanned
add_lines ls s = record { lines = ls ++ s.lines; tail = s.tail }

-- `scan cur text`: the complete lines of `text` behind the unfinished line `cur`.
unfoldable pub scan : List ℕ → List ℕ → Scanned
scan cur [] = record { lines = []; tail = cur }
scan cur (c ∷ cs) =
    let here = add_line cur (scan [] cs) in
    let more = scan (cur ++ c ∷ []) cs in if c == 10 then here else more

-- Two texts are scanned one after the other.
pub scan-append :
    (cur xs ys : List ℕ)
    → scan cur (xs ++ ys) ≡ add_lines (scan cur xs).lines (scan (scan cur xs).tail ys)
unfolding scan
scan-append cur [] ys = refl
scan-append cur (c ∷ cs) ys = elim (Bool-cases (c == 10)) [
  | inl e ↦ rw e (ap (add_line cur) (scan-append [] cs ys))
  | inr e ↦ rw e (scan-append (cur ++ c ∷ []) cs ys)
]
