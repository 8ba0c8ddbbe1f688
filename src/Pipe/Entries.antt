-- ===== src/Pipe/Entries.antt =====
-- The channel map of src/task_pipe.cpp as the operations leave it, without their calls.
use rtc_egress.Prelude.{
  String, ◌≡◌, arith, none, some, true, false, if◌then◌else◌, Dict, lookup, insert, erase, is_empty,
  lookup-insert_self, insert-insert, erase-insert, erase-erase, Option-cases, inl, inr,
}
use rtc_egress.Pipe.Defs.{ChannelState}
use rtc_egress.Pipe.Connection.{is_connected_to, mark_connected, without_task}
use rtc_egress.Pipe.Snapshot.{remove_task}

-- What `release_connection` leaves: the channel without the task, or no channel where it was the
-- last one.
abbrev pub released : String → String → Dict ChannelState → Dict ChannelState
released c task m = elim (lookup c m) [
  | none ↦ m
  | some s ↦
      if is_empty (erase task s.active_tasks) then erase c m else insert c (without_task task s) m
]

-- What a successful `ensure_connected` leaves.
abbrev pub reached : String → Dict ChannelState → Dict ChannelState
reached c m = if is_connected_to c m then m else mark_connected c m

pub released-none :
    (c task : String) (m : Dict ChannelState) → lookup c m ≡ none → released c task m ≡ m
released-none c task m e = ground arith

pub released-last :
    (c task : String) (m : Dict ChannelState) (s : ChannelState)
    → lookup c m ≡ some s
    → is_empty (erase task s.active_tasks) ≡ true
    → released c task m ≡ erase c (insert c (without_task task s) m)
released-last c task m s e t = ground (arith, erase-insert c (without_task task s) m)

pub released-kept :
    (c task : String) (m : Dict ChannelState) (s : ChannelState)
    → lookup c m ≡ some s
    → is_empty (erase task s.active_tasks) ≡ false
    → released c task m ≡ insert c (without_task task s) m
released-kept c task m s e t = ground arith

pub reached-known :
    (c : String) (m : Dict ChannelState) → is_connected_to c m ≡ true → reached c m ≡ m
reached-known c m e = rw e

pub reached-new :
    (c : String) (m : Dict ChannelState)
    → is_connected_to c m ≡ false
    → reached c m ≡ mark_connected c m
reached-new c m e = rw e

-- A task that is taken out first is released all the same.
pub released-remove_task :
    (c task : String) (m : Dict ChannelState)
    → released c task (remove_task c task m) ≡ released c task m
unfolding remove_task
released-remove_task c task m = elim (Option-cases (lookup c m)) [
  | inl e ↦ ground arith
  | inr (s, e) ↦ ground (
    arith,
    lookup-insert_self c (without_task task s) m,
    erase-insert c (without_task task s) m,
    insert-insert c (without_task task s) (without_task task (without_task task s)) m,
    erase-erase task s.active_tasks,
  )
]
