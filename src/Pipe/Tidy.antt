-- ===== src/Pipe/Tidy.antt =====
-- Between two events a channel of src/task_pipe.cpp is tracked only while it is connected and has a
-- task.
use rtc_egress.Prelude.{
  String, [], ◌∷◌, ◌≡◌, refl, sym, arith, some, true, false, Dict, inl, inr, subst, All, All-insert,
  All-erase, All-lookup, lookup, insert, erase, is_empty, insert-nonempty, Option-cases, Bool-cases,
  lookup-insert_self, insert-insert,
}
use rtc_egress.Uds.{UdsMessage}
use rtc_egress.Pipe.Defs.{
  ChannelState, new_channel, is_blank, channel_of_task, first_of_type, add_task,
}
use rtc_egress.Pipe.Connection.{without_task}
use rtc_egress.Pipe.Snapshot.{task_to_stop}
use rtc_egress.Pipe.Entries.{released, released-none, released-kept}
use rtc_egress.Pipe.Starts.{joined}
use rtc_egress.Pipe.Stops.{unnamed}

-- A task with a name.
abbrev pub IsNamed {ℓ} : {V : Type ℓ} → String × V → Type 0
IsNamed e = is_blank e.0 ≡ false

pub record IsLive (e : String × ChannelState) : Type 0 where
  pub named : is_blank e.0 ≡ false
  pub connected : e.1.is_connected ≡ true
  pub busy : is_empty e.1.active_tasks ≡ false
  pub tasks_named : All (IsNamed {V = String}) e.1.active_tasks

abbrev pub IsTidy : Dict ChannelState → Type 0
IsTidy m = All IsLive m

pub released-IsTidy :
    (c task : String) (m : Dict ChannelState) → IsTidy m → IsTidy (released c task m)
released-IsTidy c task m t = elim (Option-cases (lookup c m)) [
  | inl e ↦ subst IsTidy (sym (released-none c task m e)) t
  | inr (s, e) ↦
      let live = All-lookup IsLive c m t e in
      elim (Bool-cases (is_empty (erase task s.active_tasks))) [
        | inl gone ↦ rw (e, released) (rw gone (All-erase IsLive c m t))
        | inr kept ↦ subst IsTidy (sym (released-kept c task m s e kept)) (
            All-insert IsLive c (without_task task s) m
              (record {
                named = live.named;
                connected = live.connected;
                busy = kept;
                tasks_named = All-erase IsNamed task s.active_tasks live.tasks_named;
              })
              t)
      ]
]

-- The entry that a new task makes or extends.
joined_entry : UdsMessage → String → ChannelState → ChannelState
joined_entry msg type s = record {
  is_connected = true;
  active_tasks = insert msg.task_id type s.active_tasks;
}

joined-insert :
    (msg : UdsMessage) (type : String) (m : Dict ChannelState)
    → IsTidy m
    → (s : ChannelState) × (joined msg type m ≡ insert msg.channel (joined_entry msg type s) m)
      × All (IsNamed {V = String}) s.active_tasks
unfolding add_task joined_entry
joined-insert msg type m t = elim (Option-cases (lookup msg.channel m)) [
  | inl e ↦ (
    new_channel,
    ground (
      arith,
      lookup-insert_self msg.channel (record new_channel { is_connected = true }) m,
      insert-insert msg.channel (record new_channel { is_connected = true })
          (joined_entry msg type new_channel) m,
    ),
    tt,
  )
  | inr (s, e) ↦
      let live = All-lookup IsLive msg.channel m t e in
      (s, ground (arith, live.connected), live.tasks_named)
]

pub joined-IsTidy :
    (msg : UdsMessage) (type : String) (m : Dict ChannelState)
    → is_blank msg.channel ≡ false
    → is_blank msg.task_id ≡ false
    → IsTidy m
    → IsTidy (joined msg type m)
unfolding joined_entry
joined-IsTidy msg type m c k t =
    let (s, e, named) = joined-insert msg type m t in
    subst IsTidy (sym e) (
      All-insert IsLive msg.channel (joined_entry msg type s) m
        (record {
          named = c;
          connected = refl;
          busy = insert-nonempty msg.task_id type s.active_tasks;
          tasks_named = All-insert IsNamed msg.task_id type s.active_tasks k named;
        })
        t)

channel_of_task-IsNamed :
    (task c : String) (m : Dict ChannelState)
    → IsTidy m
    → channel_of_task task m ≡ some c
    → is_blank c ≡ false
unfolding channel_of_task
channel_of_task-IsNamed task c [] t e = cc
channel_of_task-IsNamed task c ((d, s) ∷ m) t e =
    ground (arith, channel_of_task-IsNamed task c m t.1, t.0.named)

first_of_type-IsNamed :
    (type task : String) (ts : Dict String)
    → All (IsNamed {V = String}) ts
    → first_of_type type ts ≡ some task
    → is_blank task ≡ false
unfolding first_of_type
first_of_type-IsNamed type task [] h e = cc
first_of_type-IsNamed type task ((k, t) ∷ ts) h e =
    ground (arith, first_of_type-IsNamed type task ts h.1, h.0)

-- In a tidy map a stop command never means a task without a name.
pub task_to_stop-named :
    (type : String) (msg : UdsMessage) (m : Dict ChannelState) (t : String × String)
    → IsTidy m
    → task_to_stop type msg m ≡ some t
    → unnamed t ≡ false
unfolding task_to_stop
task_to_stop-named type msg m t tidy e = elim (Bool-cases (is_blank msg.task_id)) [
  | inr given ↦ elim (Option-cases (channel_of_task msg.task_id m)) [
    | inl n ↦ ground arith
    | inr (c, found) ↦ ground (arith, channel_of_task-IsNamed msg.task_id c m tidy found)
  ]
  | inl legacy ↦ elim (Option-cases (lookup msg.channel m)) [
    | inl n ↦ ground arith
    | inr (s, found) ↦
        let live = All-lookup IsLive msg.channel m tidy found in
        elim (Option-cases (first_of_type type s.active_tasks)) [
          | inl n ↦ ground arith
          | inr (task, first) ↦ ground (
            arith,
            live.named,
            first_of_type-IsNamed type task s.active_tasks live.tasks_named first,
          )
        ]
  ]
]
