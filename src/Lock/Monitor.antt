-- ===== src/Lock/Monitor.antt =====
-- Monitors of src/lock.c: the mutex with its owner and count, and the wait set.
pub mod Queue
pub mod PassOn
use jamiga_jamvm.Base.{
  ℕ, ◌+◌, ◌-◌, ◌*◌, ◌/◌, ◌%◌, ◌^◌, ◌≤◌, ◌<◌, ◌≡◌, Bool, true, false, arith, ltb, ◌==◌,
  if◌then◌else◌, ◌&&◌, not, List, [], ◌∷◌, ◌++◌, Option, none, some,
}

-- `struct monitor`. Threads are named by their ids, 0 is NULL; `mutex` is the thread that holds the
-- pthread mutex; the circular list of waiting threads is the list from `mon->wait_set` on.
pub record Monitor : Type 0 where
  pub mutex : ℕ
  pub owner : ℕ
  pub count : ℕ
  pub in_wait : ℕ
  pub entering : ℕ
  pub wait_count : ℕ
  pub wait_set : List ℕ

-- `UN_USED`, -1 as a uintptr_t.
abbrev pub un_used : ℕ
un_used = 2 ^ 64 - 1

-- A monitor with what src/lock.c keeps in the threads: their tickets and the recursion counts saved
-- on the stack of monitorWait.
pub record Waiting : Type 0 where
  pub mon : Monitor
  pub wait_id : ℕ → ℕ
  pub notify_id : ℕ → ℕ
  pub saved : ℕ → ℕ

abbrev pub update : (ℕ → ℕ) → ℕ → ℕ → ℕ → ℕ
update f i v j = if i == j then v else f j

abbrev pub is_member : ℕ → List ℕ → Bool
is_member t [] = false
is_member t (x ∷ xs) = if x == t then true else is_member t xs

-- monitorInit, and allocMonitor's `mon->entering = 0`.
abbrev pub fresh_monitor : Monitor
fresh_monitor = record {
  mutex = 0;
  owner = 0;
  count = 0;
  in_wait = 0;
  entering = 0;
  wait_count = 0;
  wait_set = [];
}

-- waitSetAppend.
unfoldable pub wait_set_append : ℕ → Waiting → Waiting
wait_set_append self w = record w {
  mon = record w.mon {
    wait_count = (w.mon.wait_count + 1) % 2 ^ 32;
    wait_set = w.mon.wait_set ++ self ∷ [];
  };
  wait_id = update w.wait_id self w.mon.wait_count;
}

abbrev pub remove : ℕ → List ℕ → List ℕ
remove t [] = []
remove t (x ∷ xs) = if x == t then xs else x ∷ remove t xs

-- waitSetUnlinkThread.
unfoldable pub wait_set_unlink : ℕ → Waiting → Waiting
wait_set_unlink t w = record w { mon = record w.mon { wait_set = remove t w.mon.wait_set } }

signal_from : List ℕ → Waiting → Option ℕ × Waiting
signal_from [] w = (none, w)
signal_from (t ∷ ts) w = (
  some t,
  record w {
    mon = record w.mon { wait_set = ts };
    notify_id = update w.notify_id t w.mon.wait_count;
  },
)

-- waitSetSignalNext; the thread that is woken, or none. It is the head of the list.
unfoldable pub signal_next : Waiting → Option ℕ × Waiting
unfolding signal_from
signal_next w = signal_from w.mon.wait_set w

-- `while(waitSetSignalNext(mon) != NULL)`, over the threads of the wait set.
unfoldable pub signal_all : List ℕ → Waiting → List ℕ × Waiting
unfolding signal_next
signal_all [] w = ([], w)
signal_all (_ ∷ ts) w = elim (signal_next w).0 [
  | none ↦ ([], w)
  | some t ↦ let (woken, w') = signal_all ts (signal_next w).1 in (t ∷ woken, w')
]

-- monitorLock; none where the mutex is held by another thread and the caller blocks.
unfoldable pub monitor_lock : ℕ → Monitor → Option Monitor
monitor_lock self m =
    if m.owner == self
    then some (record m { count = m.count + 1 })
    else if m.mutex == 0
    then some (record m { mutex = self; owner = self })
    else none

-- monitorTryLock.
unfoldable pub monitor_try_lock : ℕ → Monitor → Bool × Monitor
monitor_try_lock self m =
    if m.owner == self
    then (true, record m { count = m.count + 1 })
    else if m.mutex == 0
    then (true, record m { mutex = self; owner = self })
    else (false, m)

-- monitorUnlock. The count is decremented only where it is not 0.
unfoldable pub monitor_unlock : ℕ → Monitor → Monitor
monitor_unlock self m =
    if m.owner == self
    then if m.count == 0
      then record m { mutex = 0; owner = 0 }
      else record m { count = m.count - 1 }
    else m

-- monitorNotify; false where the caller does not own the monitor.
unfoldable pub monitor_notify : ℕ → Waiting → Bool × Option ℕ × Waiting
unfolding signal_next
monitor_notify self w =
    if w.mon.owner == self then (let (t, w') = signal_next w in (true, t, w')) else (false, none, w)

-- monitorNotifyAll.
unfoldable pub monitor_notify_all : ℕ → Waiting → Bool × List ℕ × Waiting
unfolding signal_all
monitor_notify_all self w =
    if w.mon.owner == self
    then (let (ts, w') = signal_all w.mon.wait_set w in (true, ts, w'))
    else (false, [], w)

-- monitorWait up to the first pthread_cond_wait, which releases the mutex; the caller owns the
-- monitor and has not been interrupted.
unfoldable pub begin_wait : ℕ → Waiting → Waiting
unfolding wait_set_append
begin_wait self w = wait_set_append self (record w {
  mon = record w.mon { mutex = 0; owner = 0; count = 0; in_wait = w.mon.in_wait + 1 };
  saved = update w.saved self w.mon.count;
})

-- Why the loop around pthread_cond_wait ends.
pub data Wakeup : Type 0 where
  notified interrupting timeout : Wakeup

pass_on_from : List ℕ → ℕ → Waiting → Option ℕ × Waiting
unfolding signal_next
pass_on_from [] self w = (none, w)
pass_on_from (t ∷ ts) self w =
    let w' = (signal_next w).1 in
    if ltb (w.wait_id t) (w.notify_id self)
    then (some t, record w' { notify_id = update w'.notify_id t (w.notify_id self) })
    else (none, w)

-- The notification of a thread that was interrupted or timed out is passed on to the first thread
-- of the wait set, if it was waiting when the notification was made.
unfoldable pub pass_on : ℕ → Waiting → Option ℕ × Waiting
unfolding pass_on_from
pass_on self w = pass_on_from w.mon.wait_set self w

-- What monitorWait does about the wait set once the mutex is held again.
unfoldable pub settle : Wakeup → ℕ → Waiting → Option ℕ × Waiting
unfolding pass_on wait_set_unlink
settle notified self w = (none, w)
settle _ self w =
    if is_member self w.mon.wait_set then (none, wait_set_unlink self w) else pass_on self w

-- The end of monitorWait, with the thread that a lost notification has been passed on to; none where
-- the mutex is held, and pthread_cond_wait does not return yet.
unfoldable pub end_wait : Wakeup → ℕ → Waiting → Option (Option ℕ × Waiting)
unfolding settle
end_wait reason self w =
    if w.mon.mutex == 0
    then (let (t, w') = settle reason self (record w { mon = record w.mon { mutex = self } }) in
        some (
          t,
          record w' {
            mon = record w'.mon {
              count = w'.saved self;
              owner = self;
              in_wait = w'.mon.in_wait - 1;
            };
          },
        ))
    else none
