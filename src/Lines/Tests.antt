-- ===== src/Lines/Tests.antt =====
-- The theorems on src/include/line_message_buffer.h at a short stream.
use rtc_egress.Prelude.{List, [], ◌∷◌, ◌≡◌, refl, ◌↔◌, some, true, arith}
use rtc_egress.Lines.{Bytes, LineMessageBuffer, Appended, find_newline}
use rtc_egress.Lines.Scan.{scan}
use rtc_egress.Lines.Chunks.{read_loop, concat, Fits, read_loop_lem}
use rtc_egress.Lines.Limits.{read_loop-accepts}

-- Two bytes without a newline.
abbrev half_line : LineMessageBuffer
half_line = record { pending = 123 ∷ 34 ∷ [] }

abbrev reads : List Bytes
reads = (125 ∷ []) ∷ (10 ∷ 10 ∷ 123 ∷ []) ∷ []

read_loop_lem_example :
    read_loop half_line reads
    ≡ some (record {
      consumed = (123 ∷ 34 ∷ 125 ∷ []) ∷ [];
      buffer = record { pending = 123 ∷ [] };
      valid = true;
    })
unfolding find_newline scan concat
read_loop_lem_example =
    read_loop_lem reads half_line refl
      (record { lines_fit = (omega arith, (omega arith, tt)); tail_fits = omega arith })

read_loop-accepts_example :
    (z : Appended) × (read_loop half_line reads ≡ some z)
    × ((z.valid ≡ true) ↔ Fits (scan (123 ∷ 34 ∷ []) (concat reads)))
unfolding find_newline
read_loop-accepts_example =
    read_loop-accepts half_line reads (record { unfinished = refl; bounded = omega arith })
