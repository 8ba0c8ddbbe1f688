-- ===== src/Lines/Refine.antt =====
-- The loop of `LineMessageBuffer::append` against the reference scanner.
use rtc_egress.Prelude.{
  ℕ, zero, suc, ◌<◌, List, [], ◌∷◌, ◌++◌, ◌≡◌, ◌∙◌, arith, none, some, Bool-cases, Option-cases,
  inl, inr, ltb, length, append_assoc, append-nil, ◌==◌, if◌then◌else◌,
}
use rtc_egress.Lines.{
  Bytes, newline, max_message_size, LineMessageBuffer, Consumed, find_newline, deliver_line,
  keep_pending, consume_lines, finish, append,
}
use rtc_egress.Lines.Scan.{add_line, scan, scan-append}

-- The lines and the tail of a scan, each with its size check.
abbrev pub deliver_all : List Bytes → Bytes → Consumed
deliver_all [] t = keep_pending t
deliver_all (l ∷ ls) t =
    let others = deliver_all ls t in
    if ltb max_message_size (length l)
    then record { lines = []; rest = none }
    else deliver_line l others

abbrev pub HasNoNewline : Bytes → Type 0
HasNoNewline t = find_newline t ≡ none

scan_of_none :
    (cur t : Bytes) → HasNoNewline t → scan cur t ≡ record { lines = []; tail = cur ++ t }
unfolding scan find_newline
scan_of_none cur [] h = rw append-nil
scan_of_none cur (c ∷ cs) h = elim (Bool-cases (c == newline)) [
  | inl e ↦ ground arith
  | inr e ↦ rw e (scan_of_none (cur ++ c ∷ []) cs (ground arith) ∙ rw append_assoc)
]

scan_of_some :
    (cur t l r : Bytes)
    → find_newline t ≡ some (l, r)
    → scan cur t ≡ add_line (cur ++ l) (scan [] r)
unfolding scan find_newline
scan_of_some cur [] l r h = cc
scan_of_some cur (c ∷ cs) l r h = elim (Bool-cases (c == newline)) [
  | inl e ↦ ground (arith, append-nil cur)
  | inr e ↦ elim (Option-cases (find_newline cs)) [
    | inl n ↦ ground arith
    | inr ((l', r'), s) ↦
        rw e
          (scan_of_some (cur ++ c ∷ []) cs l' r' s ∙ ground (arith, append_assoc cur (c ∷ []) l'))
  ]
]

find_newline_shorter : (t l r : Bytes) → find_newline t ≡ some (l, r) → length r < length t
unfolding find_newline
find_newline_shorter [] l r h = cc
find_newline_shorter (c ∷ cs) l r h = elim (Option-cases (find_newline cs)) [
  | inl n ↦ ground arith
  | inr ((l', r'), s) ↦ ground (arith, find_newline_shorter cs l' r' s)
]

-- With more fuel than bytes the loop does what the scanner says.
pub consume_lines-scan :
    (fuel : ℕ) (t : Bytes)
    → length t < fuel
    → consume_lines fuel t ≡ some (deliver_all (scan [] t).lines (scan [] t).tail)
unfolding consume_lines
consume_lines-scan zero t h = absurd (omega arith)
consume_lines-scan (suc fuel) t h = elim (Option-cases (find_newline t)) [
  | inl n ↦ rw (n, consume_lines) (rw (scan_of_none [] t n))
  | inr ((l, r), s) ↦
      let ih = consume_lines-scan fuel r (omega (arith, find_newline_shorter t l r s)) in
      rw (s, consume_lines) (rw (scan_of_some [] t l r s) (rw ih (ground arith)))
]

-- From a buffer without a newline, `append` always ends, and does what the scanner says of the
-- pending text and the new one: the nonempty lines go to the callback up to a size limit that is
-- passed, and the tail stays pending.
pub append_lem :
    (b : LineMessageBuffer) (text : Bytes)
    → HasNoNewline b.pending
    → append b text
      ≡ some (finish (deliver_all (scan b.pending text).lines (scan b.pending text).tail))
unfolding append
append_lem b text h =
    let joined : scan [] (b.pending ++ text) ≡ scan b.pending text =
      scan-append [] b.pending text ∙ rw (scan_of_none [] b.pending h) in
    rw
      (
        consume_lines-scan (suc (length (b.pending ++ text))) (b.pending ++ text) (omega arith),
        append,
      )
      (rw joined)
