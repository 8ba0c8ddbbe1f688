-- ===== src/Streaming/Sessions.antt =====
-- Any operations of src/streaming_output.cpp keep the order of its calls.
use rtc_egress.Prelude.{ℕ, List, [], ◌∷◌, arith, Bool}
use rtc_egress.Streaming.Config.{Protocol, OutputConfig}
use rtc_egress.Streaming.Output.{
  Output, set_deadline, close, Answers, open_output, write, poll, cancel,
}
use rtc_egress.Streaming.Calls.{IsOrdered}
use rtc_egress.Streaming.Opening.{close-IsOrdered, open_output-IsOrdered}

pub data Operation : Type 0 where
  opening : OutputConfig → Bool → Bool → ℕ → ℕ → ℕ → Answers → Operation
  writing : ℕ → Bool → Bool → Operation
  polling : ℕ → Bool → Bool → Operation
  cancelling : Operation
  closing : ℕ → Operation

write-IsOrdered :
    (now : ℕ) (stopping accepted : Bool) (o : Output)
    → IsOrdered o
    → IsOrdered (write now stopping accepted o).1
unfolding write set_deadline
write-IsOrdered now stopping accepted o s = record {
  in_session = ground (arith, s.in_session);
  with_context = ground (arith, s.with_context);
  settled = ground (arith, s.settled);
  in_time = ground (arith, s.settled, s.in_time);
}

poll-IsOrdered :
    (now : ℕ) (stopping accepted : Bool) (o : Output)
    → IsOrdered o
    → IsOrdered (poll now stopping accepted o).1
unfolding poll set_deadline
poll-IsOrdered now stopping accepted o s = record {
  in_session = ground (arith, s.in_session);
  with_context = ground (arith, s.with_context);
  settled = ground (arith, s.settled);
  in_time = ground (arith, s.settled, s.in_time);
}

module _ (backend : Protocol → Bool) where
  pub operate : Operation → Output → Output
  operate (opening c codecs stopping task now later a) o =
      (open_output backend c codecs stopping task now later a o).1
  operate (writing now stopping accepted) o = (write now stopping accepted o).1
  operate (polling now stopping accepted) o = (poll now stopping accepted o).1
  operate cancelling o = cancel o
  operate (closing now) o = close now o

  pub operate_all : List Operation → Output → Output
  operate_all [] o = o
  operate_all (k ∷ ks) o = operate_all ks (operate k o)

  operate-IsOrdered : (k : Operation) (o : Output) → IsOrdered o → IsOrdered (operate k o)
  unfolding operate
  operate-IsOrdered (opening c codecs stopping task now later a) o s =
      open_output-IsOrdered backend c codecs stopping task now later a o s
  operate-IsOrdered (writing now stopping accepted) o s = write-IsOrdered now stopping accepted o s
  operate-IsOrdered (polling now stopping accepted) o s = poll-IsOrdered now stopping accepted o s
  operate-IsOrdered cancelling o s = record {
    in_session = s.in_session;
    with_context = s.with_context;
    settled = s.settled;
    in_time = s.in_time;
  }
  operate-IsOrdered (closing now) o s = close-IsOrdered now o s

  -- Over any operations, whatever FFmpeg answers and whatever the clock, a transport keeps its order:
  -- packets and flushes are sent only in a session, which begins with an accepted header and ends with
  -- exactly one trailer; there is no session without a context; and in a session the transport's
  -- deadline is not later than the task's, if there is one.
  pub operate_all-IsOrdered :
      (ks : List Operation) (o : Output) → IsOrdered o → IsOrdered (operate_all ks o)
  unfolding operate_all
  operate_all-IsOrdered [] o s = s
  operate_all-IsOrdered (k ∷ ks) o s =
      operate_all-IsOrdered ks (operate k o) (operate-IsOrdered k o s)
