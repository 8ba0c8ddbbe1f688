-- ===== src/Lines/Limits.antt =====
-- When the read loop gives up: the 64 KiB limit of src/include/line_message_buffer.h over a whole
-- stream.
use rtc_egress.Prelude.{
  ◌≤◌, List, [], ◌∷◌, ◌++◌, ◌≡◌, refl, arith, some, true, false, Option-cases, inl, inr, length,
  ◌↔◌, ◌⊎◌,
}
use rtc_egress.Lines.{Bytes, max_message_size, LineMessageBuffer, Appended, finish, append}
use rtc_egress.Lines.Scan.{scan}
use rtc_egress.Lines.Refine.{deliver_all, HasNoNewline, append_lem}
use rtc_egress.Lines.Chunks.{
  read_loop, concat, Fits, Fits-append, append-Fits, deliver_all-valid, scan-tail_HasNoNewline,
  read_loop_lem, nonempty,
}

-- The pending text between two reads.
pub record IsSound (b : LineMessageBuffer) : Type 0 where
  pub unfinished : HasNoNewline b.pending
  pub bounded : length b.pending ≤ max_message_size

abbrev after_read : LineMessageBuffer → Bytes → LineMessageBuffer
after_read b d = record { pending = (scan b.pending d).tail }

-- A read is refused, or its text is within the limits and the buffer stays sound.
read_cases :
    (b : LineMessageBuffer) (d : Bytes)
    → IsSound b
    → ((a : Appended) × (append b d ≡ some a) × (a.valid ≡ false))
      ⊎ (Fits (scan b.pending d)
          × (append b d
              ≡ some (record {
                consumed = nonempty (scan b.pending d).lines;
                buffer = after_read b d;
                valid = true;
              })))
read_cases b d s =
    elim (Option-cases (deliver_all (scan b.pending d).lines (scan b.pending d).tail).rest) [
      | inl e ↦ inl (_, append_lem b d s.unfinished, rw (e, finish))
      | inr (u, e) ↦
          let v = deliver_all-valid (scan b.pending d).lines (scan b.pending d).tail u e in
          let f : Fits (scan b.pending d) = record { lines_fit = v.0; tail_fits = v.1 } in
          inr (f, append-Fits b d s.unfinished f)
    ]

after_read-IsSound :
    (b : LineMessageBuffer) (d : Bytes)
    → IsSound b
    → Fits (scan b.pending d)
    → IsSound (after_read b d)
after_read-IsSound b d s f = record {
  unfinished = scan-tail_HasNoNewline b.pending d s.unfinished;
  bounded = f.tail_fits;
}

-- The loop always ends with a verdict, and a valid one means that the stream was within the limits.
read_loop_valid :
    (ds : List Bytes) (b : LineMessageBuffer)
    → IsSound b
    → (z : Appended) × (read_loop b ds ≡ some z)
      × (z.valid ≡ true → Fits (scan b.pending (concat ds)))
unfolding read_loop concat
read_loop_valid [] b s =
    (_, refl, λ _. unfold scan in record { lines_fit = tt; tail_fits = s.bounded })
read_loop_valid (d ∷ ds) b s = elim (read_cases b d s) [
  | inl (a, e, v) ↦ (a, rw (e, read_loop) (ground arith), λ t. cc)
  | inr (f, e) ↦
      let (z, k, g) = read_loop_valid ds (after_read b d) (after_read-IsSound b d s f) in
      (
        record z { consumed = nonempty (scan b.pending d).lines ++ z.consumed },
        rw (e, read_loop) (rw (k, read_loop)),
        λ t. (Fits-append b.pending d (concat ds)).1 (f, g t),
      )
]

-- From a sound buffer the loop accepts a stream exactly when no line of it, and not the unfinished
-- one either, is longer than 65536 bytes, however it is cut into reads.
pub read_loop-accepts :
    (b : LineMessageBuffer) (ds : List Bytes)
    → IsSound b
    → (z : Appended) × (read_loop b ds ≡ some z)
      × ((z.valid ≡ true) ↔ Fits (scan b.pending (concat ds)))
read_loop-accepts b ds s =
    let (z, k, g) = read_loop_valid ds b s in
    (z, k, (g, λ f. cc (read_loop_lem ds b s.unfinished f)))
