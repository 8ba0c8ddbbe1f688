-- ===== src/Lines.antt =====
-- src/include/line_message_buffer.h: the socket's byte stream cut into JSON lines.
pub mod Scan
pub mod Refine
pub mod Chunks
pub mod Limits
mod Tests
use rtc_egress.Prelude.{
  ℕ, zero, suc, List, [], ◌∷◌, ◌++◌, Option, none, some, Bool, true, false, ltb, is_empty, length,
  ◌==◌, if◌then◌else◌,
}

abbrev pub Bytes : Type 0
Bytes = List ℕ

abbrev pub max_message_size : ℕ
max_message_size = 65536

abbrev pub newline : ℕ
newline = b'\n'

pub record LineMessageBuffer : Type 0 where
  pub pending : Bytes

-- What a loop over the buffered text did: the lines handed to the callback, and the text that
-- stays pending, or `none` where a size limit was passed.
pub record Consumed : Type 0 where
  pub lines : List Bytes
  pub rest : Option Bytes

-- pending_.find('\n', begin): the text before the first newline, and the text behind it.
pub find_newline : Bytes → Option (Bytes × Bytes)
find_newline [] = none
find_newline (c ∷ cs) =
    if c == newline
    then some ([], cs)
    else elim (find_newline cs) [ none ↦ none | some (l, r) ↦ some (c ∷ l, r) ]

-- if (end != begin) consume(...)
abbrev pub deliver_line : Bytes → Consumed → Consumed
deliver_line l r = record { lines = if is_empty l then r.lines else l ∷ r.lines; rest = r.rest }

-- The check behind the loop, on the text that has no newline.
abbrev pub keep_pending : Bytes → Consumed
keep_pending t =
    if ltb max_message_size (length t)
    then record { lines = []; rest = none }
    else record { lines = []; rest = some t }

-- The `while (true)` loop, from `begin` on; `none` means that the fuel ran out.
pub consume_lines : ℕ → Bytes → Option Consumed
consume_lines zero t = none
consume_lines (suc fuel) t = elim (find_newline t) [
  | none ↦ some (keep_pending t)
  | some (l, r) ↦
      let others = consume_lines fuel r in
      if ltb max_message_size (length l)
      then some (record { lines = []; rest = none })
      else elim others [ none ↦ none | some c ↦ some (deliver_line l c) ]
]

pub record Appended : Type 0 where
  pub consumed : List Bytes
  pub buffer : LineMessageBuffer
  pub valid : Bool

abbrev pub finish : Consumed → Appended
finish c = elim c.rest [
  | none ↦ record { consumed = c.lines; buffer = record { pending = [] }; valid = false }
  | some t ↦ record { consumed = c.lines; buffer = record { pending = t }; valid = true }
]

-- LineMessageBuffer::append
pub append : LineMessageBuffer → Bytes → Option Appended
append b text = elim (consume_lines (suc (length (b.pending ++ text))) (b.pending ++ text)) [
  | none ↦ none
  | some c ↦ some (finish c)
]
