-- ===== src/Lines/Chunks.antt =====
-- How the bytes are cut into reads does not matter: the read loop of TaskPipe::thread_func over
-- src/include/line_message_buffer.h.
use rtc_egress.Prelude.{
  ℕ, ◌≤◌, List, [], ◌∷◌, ◌++◌, ◌≡◌, refl, ap, ◌∙◌, arith, Option, none, some, true, false,
  Bool-cases, Option-cases, inl, inr, ltb, le→ltb, ltb-false→le, length, length-append, ◌==◌,
  if◌then◌else◌, All, All-append, is_empty, ◌↔◌,
}
use rtc_egress.Lines.{
  Bytes, newline, max_message_size, LineMessageBuffer, find_newline, Appended, append,
}
use rtc_egress.Lines.Scan.{Scanned, scan, scan-append}
use rtc_egress.Lines.Refine.{deliver_all, HasNoNewline, append_lem}

-- The reads of one connection: the loop ends at the first read that `append` refuses.
unfoldable pub read_loop : LineMessageBuffer → List Bytes → Option Appended
read_loop b [] = some (record { consumed = []; buffer = b; valid = true })
read_loop b (d ∷ ds) = elim (append b d) [
  | none ↦ none
  | some a ↦ elim a.valid [
    | false ↦ some a
    | true ↦ elim (read_loop a.buffer ds) [
      | none ↦ none
      | some z ↦ some (record z { consumed = a.consumed ++ z.consumed })
    ]
  ]
]

unfoldable pub concat : List Bytes → Bytes
concat [] = []
concat (d ∷ ds) = d ++ concat ds

-- Every line, and the unfinished one, is within the limit.
pub record Fits (s : Scanned) : Type 0 where
  pub lines_fit : All (λ l. length l ≤ max_message_size) s.lines
  pub tail_fits : length s.tail ≤ max_message_size

abbrev pub nonempty : List Bytes → List Bytes
nonempty [] = []
nonempty (l ∷ ls) = if is_empty l then nonempty ls else l ∷ nonempty ls

nonempty-append : (xs ys : List Bytes) → nonempty (xs ++ ys) ≡ nonempty xs ++ nonempty ys
nonempty-append [] ys = refl
nonempty-append ([] ∷ xs) ys = nonempty-append xs ys
nonempty-append ((c ∷ l) ∷ xs) ys = ap (◌∷◌ (c ∷ l)) (nonempty-append xs ys)

deliver_all-Fits :
    (ls : List Bytes) (t : Bytes)
    → All (λ l. length l ≤ max_message_size) ls
    → length t ≤ max_message_size
    → deliver_all ls t ≡ record { lines = nonempty ls; rest = some t }
deliver_all-Fits [] t h k = rw (le→ltb max_message_size (length t) k)
deliver_all-Fits (l ∷ ls) t h k =
    rw (le→ltb max_message_size (length l) h.0) (rw (deliver_all-Fits ls t h.1 k))

-- The converse: what is kept was within the limits.
pub deliver_all-valid :
    (ls : List Bytes) (t u : Bytes)
    → (deliver_all ls t).rest ≡ some u
    → All (λ l. length l ≤ max_message_size) ls × (length t ≤ max_message_size)
deliver_all-valid [] t u h = elim (Bool-cases (ltb max_message_size (length t))) [
  | inl e ↦ ground arith
  | inr e ↦ (tt, ltb-false→le max_message_size (length t) e)
]
deliver_all-valid (l ∷ ls) t u h = elim (Bool-cases (ltb max_message_size (length l))) [
  | inl e ↦ ground arith
  | inr e ↦
      let ih = deliver_all-valid ls t u (ground arith) in
      ((ltb-false→le max_message_size (length l) e, ih.0), ih.1)
]

find_newline-snoc :
    (cur : Bytes) (c : ℕ) → HasNoNewline cur → (c == newline) ≡ false → HasNoNewline (cur ++ c ∷ [])
unfolding find_newline
find_newline-snoc [] c h e = rw e
find_newline-snoc (x ∷ cur) c h e = elim (Option-cases (find_newline cur)) [
  | inl n ↦ ground (arith, find_newline-snoc cur c n e)
  | inr (_, n) ↦ ground arith
]

pub scan-tail_HasNoNewline : (cur t : Bytes) → HasNoNewline cur → HasNoNewline (scan cur t).tail
unfolding scan
scan-tail_HasNoNewline cur [] h = h
scan-tail_HasNoNewline cur (c ∷ cs) h = elim (Bool-cases (c == newline)) [
  | inl e ↦ rw e (scan-tail_HasNoNewline [] cs (unfold find_newline in refl))
  | inr e ↦ rw e (scan-tail_HasNoNewline (cur ++ c ∷ []) cs (find_newline-snoc cur c h e))
]

All-split :
    (xs ys : List Bytes)
    → All (λ l. length l ≤ max_message_size) (xs ++ ys)
    → All (λ l. length l ≤ max_message_size) xs × All (λ l. length l ≤ max_message_size) ys
All-split [] ys h = (tt, h)
All-split (x ∷ xs) ys h = let r = All-split xs ys h.1 in ((h.0, r.0), r.1)

-- A line only grows.
scan_start-Fits : (cur t : Bytes) → Fits (scan cur t) → length cur ≤ max_message_size
unfolding scan
scan_start-Fits cur [] f = f.tail_fits
scan_start-Fits cur (c ∷ cs) f = elim (Bool-cases (c == newline)) [
  | inl e ↦ ground arith
  | inr e ↦
      let ih = scan_start-Fits (cur ++ c ∷ []) cs (rw e at f) in
      omega (arith, length-append cur (c ∷ []))
]

pub Fits-append :
    (cur xs ys : Bytes)
    → Fits (scan cur (xs ++ ys)) ↔ (Fits (scan cur xs) × Fits (scan (scan cur xs).tail ys))
Fits-append cur xs ys = (there, back)
  where
    there : Fits (scan cur (xs ++ ys)) → Fits (scan cur xs) × Fits (scan (scan cur xs).tail ys)
    there f =
        let g = rw (scan-append cur xs ys) at f in
        let parts = All-split (scan cur xs).lines (scan (scan cur xs).tail ys).lines g.lines_fit in
        let later : Fits (scan (scan cur xs).tail ys) = record {
          lines_fit = parts.1;
          tail_fits = g.tail_fits;
        } in
        (
          record { lines_fit = parts.0; tail_fits = scan_start-Fits (scan cur xs).tail ys later },
          later,
        )

    back : Fits (scan cur xs) × Fits (scan (scan cur xs).tail ys) → Fits (scan cur (xs ++ ys))
    back (f, g) = rw (scan-append cur xs ys) (record {
      lines_fit = All-append _ (scan cur xs).lines _ f.lines_fit g.lines_fit;
      tail_fits = g.tail_fits;
    })

pub append-Fits :
    (b : LineMessageBuffer) (text : Bytes)
    → HasNoNewline b.pending
    → Fits (scan b.pending text)
    → append b text
      ≡ some (record {
        consumed = nonempty (scan b.pending text).lines;
        buffer = record { pending = (scan b.pending text).tail };
        valid = true;
      })
append-Fits b text h f =
    append_lem b text h
    ∙ rw (
        deliver_all-Fits (scan b.pending text).lines (scan b.pending text).tail f.lines_fit
          f.tail_fits)

-- However a stream is cut into reads, if the pending text has no newline and every line of it and
-- the stream, with the unfinished one, is within 65536 bytes: the callback gets the nonempty lines in
-- order, and what follows the last newline stays pending.
pub read_loop_lem :
    (ds : List Bytes) (b : LineMessageBuffer)
    → HasNoNewline b.pending
    → Fits (scan b.pending (concat ds))
    → read_loop b ds
      ≡ some (record {
        consumed = nonempty (scan b.pending (concat ds)).lines;
        buffer = record { pending = (scan b.pending (concat ds)).tail };
        valid = true;
      })
unfolding read_loop concat
read_loop_lem [] b h f = unfold scan in refl
read_loop_lem (d ∷ ds) b h f =
    let parts = (Fits-append b.pending d (concat ds)).0 f in
    let first = append-Fits b d h parts.0 in
    let others =
      read_loop_lem ds (record { pending = (scan b.pending d).tail })
        (scan-tail_HasNoNewline b.pending d h) parts.1 in
    rw (first, read_loop)
      (rw (others, read_loop)
        (rw (scan-append b.pending d (concat ds)) (
          rw (
            nonempty-append (scan b.pending d).lines
              (scan (scan b.pending d).tail (concat ds)).lines))))
