-- ===== src/Pipe/Thread.antt =====
-- The reading thread of src/task_pipe.cpp: the connection to the manager's socket, and the writing
-- of one completion (the loops of TaskPipe::thread_func and TaskPipe::sendCompletionMessage).
use rtc_egress.Prelude.{
  total, ℕ, zero, suc, ◌+◌, ◌*◌, ◌^◌, ◌≤◌, ◌≡◌, refl, ap, ◌∙◌, arith, List, [], ◌∷◌, ◌++◌, Bool,
  true, false, length, if◌then◌else◌, take, drop, ◌↔◌, min, take-append-drop, append_assoc,
}

-- The result of connect(): done, an error that is worth another try (ECONNREFUSED, ENOENT), or any
-- other error.
pub data Attempt : Type 0 where
  accepted not_ready broken : Attempt

pub data Connection : Type 0 where
  connected : Connection  -- or the pipe was stopped, and the main loop ends at once
  failed : Connection
  gave_up : Connection

pub record Connecting : Type 0 where
  pub result : Connection
  pub delays : List ℕ

abbrev pub max_retries : ℕ
max_retries = 10

-- std::min(100 * (1 << retry_count), 2000)
unfoldable pub delay_ms : ℕ → ℕ
delay_ms retry_count = min (100 * 2 ^ retry_count) 2000

abbrev wait_then : ℕ → Connecting → Connecting
wait_then d c = record { result = c.result; delays = d ∷ c.delays }

-- The `while` loop with `left` of the tries left, after `retry_count` of them.
unfoldable pub connect_loop : (ℕ → Attempt) → (ℕ → Bool) → ℕ → ℕ → Connecting
connect_loop attempt running zero retry_count = record { result = gave_up; delays = [] }
connect_loop attempt running (suc left) retry_count =
    let again =
      wait_then (delay_ms (suc retry_count))
        (connect_loop attempt running left (suc retry_count)) in
    if running retry_count
    then elim (attempt retry_count) [
      | accepted ↦ record { result = connected; delays = [] }
      | broken ↦ record { result = failed; delays = [] }
      | not_ready ↦ again
    ]
    else record { result = connected; delays = [] }

pub connect_to_manager : (ℕ → Attempt) → (ℕ → Bool) → Connecting
connect_to_manager attempt running = connect_loop attempt running max_retries 0

-- All delays that the loop can wait for.
worst : ℕ → ℕ → ℕ
worst zero retry_count = 0
worst (suc left) retry_count = delay_ms (suc retry_count) + worst left (suc retry_count)

connect_loop_waits :
    (attempt : ℕ → Attempt) (running : ℕ → Bool) (left retry_count : ℕ)
    → let c = connect_loop attempt running left retry_count in
      (total c.delays ≤ worst left retry_count)
      × (length c.delays ≤ left)
      × (c.result ≡ gave_up → length c.delays ≡ left)
unfolding connect_loop worst
connect_loop_waits attempt running zero k = (omega arith, omega arith, λ _. refl)
connect_loop_waits attempt running (suc left) k =
    ground (arith, connect_loop_waits attempt running left (suc k))

-- Whatever connect() answers and whenever the pipe is stopped, the thread waits at most 15 seconds
-- in at most ten waits, and it gives up only after all ten.
pub connect_to_manager_waits :
    (attempt : ℕ → Attempt) (running : ℕ → Bool)
    → let c = connect_to_manager attempt running in
      (total c.delays ≤ 15000)
      × (length c.delays ≤ max_retries)
      × (c.result ≡ gave_up → length c.delays ≡ max_retries)
unfolding connect_to_manager worst delay_ms
connect_to_manager_waits attempt running = connect_loop_waits attempt running max_retries 0

-- The result of send(): some bytes written, EINTR, or any other error.
pub data Sending : Type 0 where
  wrote : ℕ → Sending
  interrupted : Sending
  refused : Sending

pub record Sent : Type 0 where
  pub wire : List ℕ
  pub complete : Bool

-- The loop over the unsent bytes; it ends when all are written, at an error, or where the list of
-- the results of send() ends.
pub send_loop : List Sending → List ℕ → Sent
send_loop results [] = record { wire = []; complete = true }
send_loop [] (b ∷ bs) = record { wire = []; complete = false }
send_loop (interrupted ∷ rs) (b ∷ bs) = send_loop rs (b ∷ bs)
send_loop (refused ∷ rs) (b ∷ bs) = record { wire = []; complete = false }
send_loop (wrote zero ∷ rs) (b ∷ bs) = record { wire = []; complete = false }
send_loop (wrote (suc n) ∷ rs) (b ∷ bs) =
    let others = send_loop rs (drop (suc n) (b ∷ bs)) in
    record { wire = take (suc n) (b ∷ bs) ++ others.wire; complete = others.complete }

take_cancel : (n : ℕ) (bs x : List ℕ) → take n bs ++ x ≡ bs → x ≡ drop n bs
take_cancel zero bs x e = e
take_cancel (suc n) [] x e = e
take_cancel (suc n) (b ∷ bs) x e = take_cancel n bs x (cc)

-- What goes over the wire is a prefix of the message, whatever the partial writes and interrupts,
-- and the loop ends as complete exactly when it is the whole message.
pub send_loop_lem :
    (results : List Sending) (text : List ℕ)
    → let s = send_loop results text in
      ((rest : List ℕ) × (s.wire ++ rest ≡ text)) × ((s.complete ≡ true) ↔ (s.wire ≡ text))
unfolding send_loop
send_loop_lem results [] = (([], refl), (λ _. refl, λ _. refl))
send_loop_lem [] (b ∷ bs) = ((b ∷ bs, refl), (λ h. cc, λ h. cc))
send_loop_lem (interrupted ∷ rs) (b ∷ bs) = send_loop_lem rs (b ∷ bs)
send_loop_lem (refused ∷ rs) (b ∷ bs) = ((b ∷ bs, refl), (λ h. cc, λ h. cc))
send_loop_lem (wrote zero ∷ rs) (b ∷ bs) = ((b ∷ bs, refl), (λ h. cc, λ h. cc))
send_loop_lem (wrote (suc n) ∷ rs) (b ∷ bs) =
    let ((rest, e), (there, back)) = send_loop_lem rs (drop n bs) in
    let whole = take-append-drop n bs in
    (
      (rest, ap (◌∷◌ b) (rw append_assoc (ap (◌++◌ (take n bs)) e ∙ whole))),
      (
        λ h. ap (◌∷◌ b) (ap (◌++◌ (take n bs)) (there h) ∙ whole),
        λ h. back (take_cancel n bs _ (cc)),
      ),
    )
