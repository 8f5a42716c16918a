-- ===== src/Lock/Object.antt =====
-- objectLock, objectUnlock, objectWait and objectNotify of src/lock.c, on one object and the monitor
-- that findMonitor gives for it. Each function runs from one point where the thread can be made to wait
-- to the next; what happens between such points is one step.
pub mod Spec
pub mod Inv
pub mod Refine
pub mod Release
pub mod Unlock
pub mod Wait
pub mod Resume
pub mod Notify
use jamiga_jamvm.Base.{
  ℕ, ◌+◌, ◌-◌, ◌*◌, ◌/◌, ◌%◌, ◌^◌, ◌≤◌, ◌<◌, ◌≡◌, Bool, true, false, arith, ltb, ◌==◌,
  if◌then◌else◌, ◌&&◌, not, List, [], ◌∷◌, ◌++◌, Option, none, some,
}
use jamiga_jamvm.Lock.Word.{
  thin_locked, is_fat, tid_and_shape, tid_of, count_of, has_room, fat_word,
}
use jamiga_jamvm.Lock.Monitor.{
  Monitor, Waiting, un_used, update, monitor_lock, monitor_try_lock, monitor_unlock, monitor_notify,
  monitor_notify_all, begin_wait, end_wait, Wakeup, notified,
}

-- The object's lock word and FLC bit, and its monitor at the address `addr`: the one that the
-- monitor cache has for it, or that will be allocated. A monitor on the free list is as a fresh one.
pub record Object : Type 0 where
  pub lock : ℕ
  pub flc : Bool
  pub addr : ℕ
  pub w : Waiting

abbrev pub with_mon : Object → Monitor → Object
with_mon o m = let w = o.w in record o { w = record w { mon = m } }

-- findMonitor: on a thin word the monitor is looked up, and FOUND marks it used.
pub find_monitor : Object → Object
find_monitor o =
    let m = o.w.mon in
    if is_fat o.lock
    then o
    else if m.entering == un_used
    then with_mon o (record m { entering = 0 })
    else o

pub data Outcome : Type 0 where
  acquired blocked waiting released spinning interrupted illegal_state done : Outcome

-- inflate, by the owner of the monitor.
pub inflate : ℕ → Object → Object
inflate self o = record o {
  flc = false;
  lock = fat_word o.addr;
  w = (monitor_notify_all self o.w).2;
}

abbrev pub set_count : ℕ → Object → Object
set_count n o = let m = o.w.mon in with_mon o (record m { count = n })

abbrev pub add_entering : Object → Object
add_entering o = let m = o.w.mon in with_mon o (record m { entering = m.entering + 1 })

-- The thread has counted itself in `entering`.
abbrev pub drop_entering : Object → Object
drop_entering o = let m = o.w.mon in with_mon o (record m { entering = m.entering - 1 })

-- The `while` at the end of objectLock, by the owner of the monitor.
pub lock_loop : ℕ → Object → Outcome × Object
unfolding inflate
lock_loop self o =
    if is_fat o.lock
    then (acquired, o)
    else if o.lock == 0
    then (acquired, inflate self (record o { flc = true; lock = thin_locked self }))
    else (waiting, record o { flc = true; w = begin_wait self o.w })

-- monitorLock in objectLock and what follows, for a thread that is counted in `entering`.
pub enter_monitor : ℕ → Object → Outcome × Object
unfolding lock_loop
enter_monitor self o = elim (monitor_lock self o.w.mon) [
  | none ↦ (blocked, o)
  | some m ↦ lock_loop self (drop_entering (with_mon o m))
]

-- The recursion count is exhausted.
pub lock_overflow : ℕ → Object → Outcome × Object
unfolding inflate
lock_overflow self o = elim (monitor_lock self o.w.mon) [
  | none ↦ (blocked, o)
  | some m ↦ (acquired, set_count (2 ^ 8) (inflate self (with_mon o m)))
]

-- objectLock.
pub object_lock : ℕ → Object → Outcome × Object
unfolding find_monitor enter_monitor lock_overflow
object_lock self o =
    if o.lock == 0
    then (acquired, record o { lock = thin_locked self })
    else if tid_and_shape o.lock == thin_locked self
    then if has_room o.lock
      then (acquired, record o { lock = o.lock + 2 })
      else lock_overflow self (find_monitor o)
    else enter_monitor self (add_entering (find_monitor o))

-- A thread that waits in objectLock is woken; blocked where the mutex is still held.
pub resume_lock : ℕ → Object → Outcome × Object
unfolding lock_loop
resume_lock self o = elim (end_wait notified self o.w) [
  | none ↦ (blocked, o)
  | some (_, w) ↦ lock_loop self (record o { w = w })
]

-- The thin lock has been released and the FLC bit is set.
pub notify_contender : ℕ → Object → Outcome × Object
notify_contender self o =
    let (owns, m) = monitor_try_lock self o.w.mon in
    let o' = with_mon o m in
    let w' = (monitor_notify self o'.w).2 in
    if owns
    then (released, record o { w = record w' { mon = monitor_unlock self w'.mon } })
    else (spinning, o)

abbrev pub is_idle : Monitor → Bool
is_idle m = m.count == 0 && (m.entering == 0 && m.in_wait == 0)

-- The deflation in objectUnlock, and monitorUnlock.
pub unlock_fat : ℕ → Object → Object
unlock_fat self o =
    let m = o.w.mon in
    if is_idle m
    then with_mon (record o { lock = 0 }) (monitor_unlock self (record m { entering = un_used }))
    else with_mon o (monitor_unlock self m)

-- objectUnlock.
pub object_unlock : ℕ → Object → Outcome × Object
unfolding find_monitor notify_contender unlock_fat
object_unlock self o =
    if o.lock == thin_locked self
    then if o.flc
      then notify_contender self (find_monitor (record o { lock = 0 }))
      else (released, record o { lock = 0 })
    else if tid_and_shape o.lock == thin_locked self
    then (released, record o { lock = o.lock - 2 })
    else if is_fat o.lock
    then (released, unlock_fat self o)
    else (done, o)

-- monitorWait, up to its wait, by a thread whose interrupt status is given.
pub monitor_wait : ℕ → Bool → Object → Outcome × Object
monitor_wait self is_interrupted o =
    if o.w.mon.owner == self
    then if is_interrupted
      then (interrupted, o)
      else (waiting, record o { w = begin_wait self o.w })
    else (illegal_state, o)

-- objectWait.
pub object_wait : ℕ → Bool → Object → Outcome × Object
unfolding find_monitor inflate monitor_wait
object_wait self is_interrupted o =
    if is_fat o.lock
    then monitor_wait self is_interrupted o
    else if tid_of o.lock == self
    then elim (monitor_lock self (find_monitor o).w.mon) [
      | none ↦ (blocked, o)
      | some m ↦
          monitor_wait self is_interrupted
            (set_count (count_of o.lock) (inflate self (with_mon (find_monitor o) m)))
    ]
    else (illegal_state, o)

-- objectNotify.
pub object_notify : ℕ → Object → Outcome × Object
object_notify self o =
    if is_fat o.lock
    then (let (owns, _, w') = monitor_notify self o.w in
        if owns then (done, record o { w = w' }) else (illegal_state, o))
    else if tid_of o.lock == self
    then (done, o)
    else (illegal_state, o)

-- objectNotifyAll.
pub object_notify_all : ℕ → Object → Outcome × Object
object_notify_all self o =
    if is_fat o.lock
    then (let (owns, _, w') = monitor_notify_all self o.w in
        if owns then (done, record o { w = w' }) else (illegal_state, o))
    else if tid_of o.lock == self
    then (done, o)
    else (illegal_state, o)

-- objectLockedByCurrent.
pub object_locked_by_current : ℕ → Object → Bool
object_locked_by_current self o =
    if is_fat o.lock then o.w.mon.owner == self else tid_of o.lock == self
