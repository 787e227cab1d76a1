-- ===== src/NmtMaster.antt =====
-- The NMT command observer of src/nmt_master_process.cpp: a ring of 16 commands that the Lely
-- callback fills and the validation thread empties. The record is what its mutex protects.
pub mod Queue
pub mod Process
use canopen_slave_tester.Prelude.{
  ℕ, ◌+◌, ◌-◌, ◌%◌, Bool, true, false, Option, none, some, List, leb, ltb, if◌then◌else◌, not,
  get_or, set, replicate, ◌||◌,
}
use canopen_slave_tester.Lely.{NmtCommand, start}

abbrev pub nmt_command_queue_capacity : ℕ
nmt_command_queue_capacity = 16

pub record NmtCommandObserverState : Type 0 where
  pub queue : List NmtCommand  -- an array of 16
  pub head : ℕ
  pub count : ℕ
  pub overflow : Bool
  pub active : Bool

abbrev pub entry : List NmtCommand → ℕ → NmtCommand
entry queue i = get_or queue i start

unfoldable pub nmt_command_callback : NmtCommand → NmtCommandObserverState → NmtCommandObserverState
nmt_command_callback command o =
    if not o.active
    then o
    else if leb nmt_command_queue_capacity o.count
    then record o { overflow = true }
    else record o {
      queue = set o.queue ((o.head + o.count) % nmt_command_queue_capacity) command;
      count = o.count + 1;
    }

unfoldable pub register_nmt_command_observer : NmtCommandObserverState → NmtCommandObserverState
register_nmt_command_observer o = record o { head = 0; count = 0; overflow = false; active = true }

unfoldable pub deactivate : NmtCommandObserverState → NmtCommandObserverState
deactivate o = record o { active = false }

unfoldable pub clear : NmtCommandObserverState → NmtCommandObserverState
clear o = record o { head = 0; count = 0; overflow = false }

abbrev pub has_news : NmtCommandObserverState → Bool
has_news o = ltb 0 o.count || o.overflow

-- The command at the head, taken out of the queue.
unfoldable pub pop : NmtCommandObserverState → NmtCommand × NmtCommandObserverState
pop o = (
  entry o.queue o.head,
  record o { head = (o.head + 1) % nmt_command_queue_capacity; count = o.count - 1 },
)
