-- ===== src/Recording/Handed.antt =====
-- A short TS recording's files in its task's catalogue.
use rtc_egress.Prelude.{
  ℕ, zero, suc, ◌+◌, ◌==◌, String, List, [], ◌∷◌, none, some, true, lookup, if◌then◌else◌, ◌≡◌,
  refl, ◌∙◌, sym, ap, arith,
}
use Prim.Native.Char.{code}
use rtc_egress.Segments.Names.{segment_filename}
use rtc_egress.Segments.Defs.{Manager, no_segment, end_current_session}
use rtc_egress.Segments.Numbering.{InOrder}
use rtc_egress.Metadata.Samples.{disk, template}
use rtc_egress.Metadata.Views.{view}
use rtc_egress.Metadata.Catalogue.{catalogue}
use rtc_egress.Metadata.Sessions
use rtc_egress.Recording.Files.{TaskFiles, hand_over}
use rtc_egress.Recording.Listed.{IsFaithful, segment_named, said_of, hand_over_lem}

-- Bytes as text, each in unary: different bytes are different texts.
unary : ℕ → String → String
unary zero text = String.◌∷◌ "b" text
unary (suc n) text = String.◌∷◌ "a" (unary n text)

spell : List ℕ → String
spell [] = ""
spell (n ∷ ns) = unary n (spell ns)

read_spelled : ℕ → String → List ℕ
read_spelled n String.[] = []
read_spelled n (String.◌∷◌ c text) =
    if code c == 98 then n ∷ read_spelled 0 text else read_spelled (suc n) text

read_spelled-unary :
    (n m : ℕ) (text : String) → read_spelled m (unary n text) ≡ (m + n) ∷ read_spelled 0 text
unfolding read_spelled unary
read_spelled-unary zero m text = ap (λ k. k ∷ read_spelled 0 text) (omega arith)
read_spelled-unary (suc n) m text =
    read_spelled-unary n (suc m) text ∙ ap (λ k. k ∷ read_spelled 0 text) (omega arith)

read_spelled-spell : (ns : List ℕ) → read_spelled 0 (spell ns) ≡ ns
unfolding read_spelled spell
read_spelled-spell [] = refl
read_spelled-spell (n ∷ ns) =
    read_spelled-unary n 0 (spell ns)
    ∙ ap (λ k. k ∷ read_spelled 0 (spell ns)) (omega arith)
    ∙ ap (λ ms. n ∷ ms) (read_spelled-spell ns)

abbrev output : TaskFiles
output = record {
  task_id = "t";
  output_prefix = b'/' ∷ b'o' ∷ [];
  session_dir = b'/' ∷ [];
  disk = disk;
  text = spell;
}

output-IsFaithful : IsFaithful output
output-IsFaithful x y e = sym (read_spelled-spell x) ∙ ap (read_spelled 0) e ∙ read_spelled-spell y

-- One segment is finished and the second one is begun.
abbrev recorded : Manager
recorded = record {
  segment_duration = 10;
  generate_playlist = true;
  session = record {
    session_id = [];
    segments =
        record {
          filename = segment_filename 1;
          start_time = 2;
          duration = 12;
          segment_number = 1;
          is_complete = true;
        }
        ∷ [];
    session_start_time = 0;
    current_segment_number = 3;
    total_duration = 12;
  };
  current = record no_segment {
    filename = segment_filename 2;
    start_time = 15;
    segment_number = 2;
  };
  playlist = none;
}

recorded-InOrder : InOrder recorded
recorded-InOrder = record {
  finished = (record { below = omega arith; complete = refl; named = refl }, tt);
  rising = (omega arith, tt);
  summed = refl;
  newest =
      λ b. (omega arith, refl, (record { below = omega arith; complete = refl; named = refl }, tt));
}

abbrev known : Sessions.Manager
known = record { sessions = ("t", template) ∷ []; saved = [] }

hand_over_lem_example :
    let (ended, after) = hand_over output 20 true true recorded known in
    (ended ≡ end_current_session 20 true true recorded)
    × InOrder ended
    × (catalogue after "t"
        ≡ some
            (λ k. said_of output (segment_named output k ended.session.segments) (view template k)))
unfolding lookup
hand_over_lem_example =
    hand_over_lem output 20 true true recorded known (view template) output-IsFaithful refl refl
      recorded-InOrder refl
