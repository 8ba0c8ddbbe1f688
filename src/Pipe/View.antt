-- ===== src/Pipe/View.antt =====
-- What the manager can tell of a pipe of src/task_pipe.cpp: its channel map, the completions sent,
-- and the socket. With rules that follow a handler statement by statement.
use rtc_egress.Prelude.{
  String, List, [], ◌∷◌, ◌≡◌, refl, sym, ap, ◌∙◌, subst, arith, Option, none, some, Bool, true,
  false, if◌then◌else◌, Dict, lookup, insert, erase, lookup-insert_self,
}
use rtc_egress.Uds.{UdsCompletionMessage}
use rtc_egress.Pipe.Defs.{
  Call, send, ChannelState, TaskPipe, M, ◌>>=◌, ◌>>◌, pure, done, gets, modify, when, branch,
  on_some, perform, send_completion,
}
use rtc_egress.Pipe.Connection.{
  is_connected_to, mark_connected, without_task, ensure_connected, stop_all, cleanup_connection,
  release_connection,
}
use rtc_egress.Pipe.Entries.{
  released, reached, released-none, released-last, released-kept, reached-known, reached-new,
}

abbrev pub sent_by : Call → Option UdsCompletionMessage
sent_by (send m) = some m
sent_by _ = none

-- The completions among the calls, newest first.
abbrev pub completions : List Call → List UdsCompletionMessage
completions [] = []
completions (c ∷ cs) =
    let others = completions cs in elim (sent_by c) [ none ↦ others | some m ↦ m ∷ others ]

pub record View : Type 0 where
  pub channels : Dict ChannelState
  pub sent : List UdsCompletionMessage
  pub connected : Bool

abbrev pub view : TaskPipe → View
view p = record { channels = p.channel_states; sent = completions p.calls; connected = p.connected }

-- From a pipe that looks like `v` the handler ends with `Q` of its result and of the new look.
pub record Post {A : Type 0} (Q : A → View → Type 0) (m : M A) (v : View) : Type 0 where
  pub at : (p : TaskPipe) → view p ≡ v → Q (m p).0 (view (m p).1)

module _ {A B : Type 0} {Q : B → View → Type 0} where
  pub Post-bind :
      {m : M A} {f : A → M B} {v : View} → Post (λ a w. Post Q (f a) w) m v → Post Q (m >>= f) v
  unfolding ◌>>=◌
  Post-bind {m} {f} h = record { at = λ p e. (h.at p e).at (m p).1 refl }

  pub Post-then : {m : M A} {k : M B} {v : View} → Post (λ _ w. Post Q k w) m v → Post Q (m >> k) v
  unfolding ◌>>◌
  Post-then {m} {k} h = record { at = λ p e. (h.at p e).at (m p).1 refl }

module _ {A : Type 0} {Q : A → View → Type 0} where
  pub Post-weaken :
      (R : A → View → Type 0) {m : M A} {v : View}
      → ((a : A) (w : View) → R a w → Q a w)
      → Post R m v
      → Post Q m v
  Post-weaken R h k = record { at = λ p e. h _ _ (k.at p e) }

  pub Post-pure : (a : A) {v : View} → Q a v → Post Q (pure a) v
  unfolding pure
  Post-pure a h = record { at = λ p e. subst (Q a) (sym e) h }

  pub Post-branch :
      (b : Bool) {m k : M A} {v : View}
      → (b ≡ true → Post Q m v)
      → (b ≡ false → Post Q k v)
      → Post Q (branch b m k) v
  unfolding branch
  Post-branch true h k = record { at = (h refl).at }
  Post-branch false h k = record { at = (k refl).at }

  pub Post-gets :
      (f : TaskPipe → A) {v : View} → ((p : TaskPipe) → view p ≡ v → Q (f p) v) → Post Q (gets f) v
  unfolding gets
  Post-gets f h = record { at = λ p e. subst (Q (f p)) (sym e) (h p e) }

  pub Post-gets_channels :
      (g : Dict ChannelState → A) {v : View}
      → Q (g v.channels) v
      → Post Q (gets (λ p. g p.channel_states)) v
  Post-gets_channels g {v} h = Post-gets _ λ p e. subst (λ w. Q (g w.channels) v) (sym e) h

module _ {Q : Unit {0} → View → Type 0} where
  pub Post-done : {v : View} → Q tt v → Post Q done v
  unfolding done
  Post-done h = record { at = λ p e. subst (Q tt) (sym e) h }

  pub Post-when :
      (b : Bool) {m : M (Unit {0})} {v : View}
      → (b ≡ true → Post Q m v)
      → (b ≡ false → Q tt v)
      → Post Q (when b m) v
  unfolding when
  Post-when true h k = record { at = (h refl).at }
  Post-when false h k = record { at = λ p e. subst (Q tt) (sym e) (k refl) }

  -- A write to the channel map.
  pub Post-write :
      (g : Dict ChannelState → Dict ChannelState) {v : View}
      → Q tt (record v { channels = g v.channels })
      → Post Q (modify (λ p. record p { channel_states = g p.channel_states })) v
  unfolding modify
  Post-write g h = record {
    at = λ p e. subst (λ w. Q tt (record w { channels = g w.channels })) (sym e) h;
  }

  -- A write to another part of the state.
  pub Post-quiet :
      (f : TaskPipe → TaskPipe) {v : View}
      → ((p : TaskPipe) → view (f p) ≡ view p)
      → Q tt v
      → Post Q (modify f) v
  unfolding modify
  Post-quiet f same h = record { at = λ p e. subst (Q tt) (sym (same p ∙ e)) h }

  pub Post-on_some :
      {A : Type 0} (o : Option A) {f : A → M (Unit {0})} {v : View}
      → (o ≡ none → Q tt v)
      → ((a : A) → o ≡ some a → Post Q (f a) v)
      → Post Q (on_some o f) v
  unfolding on_some
  Post-on_some none h k = record { at = λ p e. subst (Q tt) (sym e) (h refl) }
  Post-on_some (some a) h k = record { at = (k a refl).at }

completions-call :
    (c : Call) (cs : List Call) → sent_by c ≡ none → completions (c ∷ cs) ≡ completions cs
completions-call c cs h = ground arith

-- A completion goes out if the socket is open.
abbrev pub with_completion : UdsCompletionMessage → View → View
with_completion m v = if v.connected then record v { sent = m ∷ v.sent } else v

-- The channel map of a view, replaced by an equal one.
exchange :
    {A : Type 0} (Q : A → View → Type 0) (a : A) (v : View) {m n : Dict ChannelState}
    → m ≡ n
    → Q a (record v { channels = m })
    → Q a (record v { channels = n })
exchange Q a v e h = subst (λ k. Q a (record v { channels = k })) e h

module _ (answer : List Call → Call → Bool) where
  pub Post-perform :
      {Q : Bool → View → Type 0} (c : Call) {v : View}
      → sent_by c ≡ none
      → ((b : Bool) → Q b v)
      → Post Q (perform answer c) v
  unfolding perform
  Post-perform {Q} c s h = record {
    at = λ p e.
        subst (λ k. Q (answer p.calls c) (record (view p) { sent = k }))
          (sym (completions-call c p.calls s)) (subst (Q (answer p.calls c)) (sym e) (h _));
  }

  -- A call for its effect alone.
  pub Post-call :
      {Q : Unit {0} → View → Type 0} (c : Call) {v : View}
      → sent_by c ≡ none
      → Q tt v
      → Post Q (perform answer c >> done) v
  Post-call c s h = Post-then (Post-perform c s λ b. Post-done h)

  pub Post-when_call :
      {Q : Unit {0} → View → Type 0} (b : Bool) (c : Call) {v : View}
      → sent_by c ≡ none
      → Q tt v
      → Post Q (when b (perform answer c >> done)) v
  Post-when_call b c s h = Post-when b (λ _. Post-call c s h) (λ _. h)

  view-send_completion :
      (task status error message : String) (p : TaskPipe)
      → view (send_completion answer task status error message p).1
        ≡ with_completion
            (record { task_id = task; status = status; error = error; message = message })
            (view p)
  unfolding send_completion
  view-send_completion task status error message p = ground arith

  pub Post-send :
      {Q : Unit {0} → View → Type 0} (task status error message : String) {v : View}
      → Q tt (
          with_completion
            (record { task_id = task; status = status; error = error; message = message })
            v)
      → Post Q (send_completion answer task status error message) v
  Post-send {Q} task status error message {v} h = record {
    at = λ p e.
        subst (Q tt)
          (sym (
            view-send_completion task status error message p
            ∙ ap
                (with_completion
                  (record { task_id = task; status = status; error = error; message = message }))
                e))
          h;
  }

  Post-stop_all :
      {Q : Unit {0} → View → Type 0} (b : Bool) {v : View} → Q tt v → Post Q (stop_all answer b) v
  unfolding stop_all
  Post-stop_all b h = Post-bind (
      Post-gets _ λ p _. Post-then (
        Post-when_call _ _ refl (
          Post-then (
            Post-when_call _ _ refl
              (Post-then (Post-perform _ refl λ _. Post-when_call _ _ refl h))))))

  Post-cleanup_connection :
      {Q : Unit {0} → View → Type 0} (c : String) {v : View} {s : ChannelState}
      → lookup c v.channels ≡ some s
      → Q tt (record v { channels = erase c v.channels })
      → Post Q (cleanup_connection answer c) v
  unfolding cleanup_connection
  Post-cleanup_connection c {v} {s} found h = Post-bind (
      Post-gets _ λ p e.
        Post-on_some _ (λ n. cc)
          (λ s _. Post-then (Post-write (erase c) (Post-stop_all s.is_connected h))))

  pub Post-release_connection :
      {Q : Unit {0} → View → Type 0} (c task : String) {v : View}
      → Q tt (record v { channels = released c task v.channels })
      → Post Q (release_connection answer c task) v
  unfolding release_connection
  Post-release_connection {Q} c task {v} h = Post-bind (
      Post-gets _ λ p e.
        let same = ap (λ w. lookup c w.channels) e in
        Post-on_some _ (λ n. exchange Q tt v (released-none c task v.channels (sym same ∙ n)) h)
          (λ s f. Post-then (
            Post-write (insert c (without_task task s)) (
              Post-when _
                (λ t.
                  Post-cleanup_connection c (lookup-insert_self c (without_task task s) v.channels)
                    (exchange Q tt v (released-last c task v.channels s (sym same ∙ f) t) h))
                (λ t. exchange Q tt v (released-kept c task v.channels s (sym same ∙ f) t) h)))))

  pub Post-ensure_connected :
      {Q : Bool → View → Type 0} (c token : String) {v : View}
      → Q true (record v { channels = reached c v.channels })
      → Q false v
      → Post Q (ensure_connected answer c token) v
  unfolding ensure_connected
  Post-ensure_connected {Q} c token {v} h k = Post-bind (
      Post-gets _ λ p e.
        let same = ap (λ w. is_connected_to c w.channels) e in
        Post-branch _
          (λ t. Post-pure true (exchange Q true v (reached-known c v.channels (sym same ∙ t)) h))
          (λ f. Post-then (
            Post-perform _ refl λ _. Post-then (
              Post-when_call _ _ refl (
                Post-bind (
                  Post-perform _ refl λ b.
                    Post-branch b
                      (λ _. Post-then (
                        Post-write (mark_connected c) (
                          Post-pure true
                            (exchange Q true v (reached-new c v.channels (sym same ∙ f)) h))))
                      (λ _. Post-pure false k)))))))
