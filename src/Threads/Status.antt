-- ===== src/Threads/Status.antt =====
-- src/arch/ia32/threads.c: where a thread stands, independently of the table: the flag and the state
-- that its slot has, what each operation makes of them, and the place it has come to in the program.
use test_kernel.Base.{Bool, true, false, if◌then◌else◌}
use test_kernel.Threads.{ThreadState, wait_sleep_join, running, unstarted, stopped}

-- Created; runnable; in `sleep`; paused; running on although it is out of the schedule; stopped;
-- stopped although it is in the schedule.
pub data Status : Type 0 where
  fresh ready sleeping waiting idle over revived : Status

abbrev pub scheduled : Status → Bool
scheduled waiting = false
scheduled idle = false
scheduled over = false
scheduled _ = true

abbrev pub state_of : Status → ThreadState
state_of fresh = unstarted
state_of ready = running
state_of sleeping = wait_sleep_join
state_of waiting = wait_sleep_join
state_of idle = running
state_of over = stopped
state_of revived = stopped

-- What the thread itself does, and what another one does to it.
abbrev pub runs : Status → Status
runs s = if scheduled s then ready else idle

abbrev pub falls_asleep : Status → Status
falls_asleep s = if scheduled s then sleeping else waiting

abbrev pub leaves : Status → Status
leaves ready = idle
leaves sleeping = waiting
leaves revived = over
leaves s = s

abbrev pub ends : Status → Status
ends s = if scheduled s then revived else over

abbrev pub woken : Status → Status
woken waiting = ready
woken s = s

-- In front of `th_main_func`; in the thread's own function; in the loop of `sleep`; between the two
-- writes at the end of `th_main_func`; in its last loop.
pub data Place : Type 0 where
  starting inside dozing leaving ended : Place

-- The places at which a thread may have that status.
abbrev pub fits : Place → Status → Bool
fits starting fresh = true
fits inside ready = true
fits inside waiting = true
fits inside idle = true
fits dozing sleeping = true
fits dozing waiting = true
fits dozing ready = true
fits leaving idle = true
fits leaving waiting = true
fits leaving ready = true
fits ended over = true
fits ended revived = true
fits _ _ = false
