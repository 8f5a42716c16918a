-- ===== src/Lock/Object/Notify.antt =====
-- objectNotify and objectNotifyAll of src/lock.c, and the calls of threads that do not hold the lock.
use jamiga_jamvm.Base.{
  ℕ, ◌≤◌, ◌≡◌, ◌≢◌, refl, Bool, true, false, arith, ◌==◌, if◌then◌else◌, List, [], length,
  Bool-cases, inl, inr,
}
use jamiga_jamvm.Lock.Word.{is_fat, tid_of}
use jamiga_jamvm.Lock.Monitor.{Waiting, monitor_notify, signal_next, monitor_notify_all}
use jamiga_jamvm.Lock.Monitor.Queue.{Signalled, monitor_notify_all_lem, signal_next_lem, tail_of}
use jamiga_jamvm.Lock.Object.{
  Object, Outcome, illegal_state, done, monitor_wait, object_wait, object_notify, object_notify_all,
  object_locked_by_current,
}
use jamiga_jamvm.Lock.Object.Spec.{holder, depth, IsThread, IsValid}

-- Some threads of the wait set are woken, and nothing else changes.
pub record Notifies (self : ℕ) (o : Object) (ts : List ℕ) (out : Outcome) (o' : Object)
    : Type 0 where
  pub outcome : out ≡ done
  pub valid : IsValid o'
  pub holder' : holder o' ≡ self
  pub depth' : depth o' ≡ depth o
  pub queue : o'.w.mon.wait_set ≡ ts

Signalled-Notifies :
    (self : ℕ) (o : Object) (ts : List ℕ) (w' : Waiting)
    → IsValid o
    → IsThread self
    → is_fat o.lock ≡ true
    → holder o ≡ self
    → length ts ≤ length o.w.mon.wait_set
    → Signalled ts o.w w'
    → Notifies self o ts done (record o { w = w' })
Signalled-Notifies self o ts w' v t f h l s = record {
  outcome = refl;
  valid = record {
    aligned = v.aligned;
    waiters = rw (s.queue, s.in_wait) (ground (arith, v.waiters));
    mode = inr (ground arith);
  };
  holder' = ground arith;
  depth' = ground arith;
  queue = s.queue;
}

-- Object.notify by the holder: the thread that has waited longest is woken. Under a thin word no thread
-- is in Object.wait.
pub object_notify-Notifies :
    (self : ℕ) (o : Object)
    → IsThread self
    → IsValid o
    → holder o ≡ self
    → let ts = o.w.mon.wait_set in
      Notifies self o
        (if is_fat o.lock then tail_of ts else ts)
        (object_notify self o).0
        (object_notify self o).1
unfolding object_notify monitor_notify
object_notify-Notifies self o t v h = elim (Bool-cases (is_fat o.lock)) [
  | inl f ↦
      let e : (o.w.mon.owner == self) ≡ true = ground arith in
      rw (f, e)
        (Signalled-Notifies self o (tail_of o.w.mon.wait_set) (signal_next o.w).1 v t f h
          (ground arith) (signal_next_lem o.w).1)
  | inr f ↦
      let e : (tid_of o.lock == self) ≡ true = ground arith in
      rw (f, e) (record { outcome = refl; valid = v; holder' = h; depth' = refl; queue = refl })
]

-- Object.notifyAll by the holder.
pub object_notify_all-Notifies :
    (self : ℕ) (o : Object)
    → IsThread self
    → IsValid o
    → holder o ≡ self
    → let ts = o.w.mon.wait_set in
      Notifies self o
        (if is_fat o.lock then [] else ts)
        (object_notify_all self o).0
        (object_notify_all self o).1
unfolding object_notify_all
object_notify_all-Notifies self o t v h = elim (Bool-cases (is_fat o.lock)) [
  | inl f ↦
      let n = monitor_notify_all_lem self o.w (ground arith) in
      rw (f, n.0)
        (Signalled-Notifies self o [] (monitor_notify_all self o.w).2 v t f h (omega arith) n.2)
  | inr f ↦
      let e : (tid_of o.lock == self) ≡ true = ground arith in
      rw (f, e) (record { outcome = refl; valid = v; holder' = h; depth' = refl; queue = refl })
]

-- A thread that does not hold the lock gets an IllegalMonitorStateException from all three calls, and
-- the object stays as it is.
pub illegal_state_lem :
    (self : ℕ) (b : Bool) (o : Object)
    → IsThread self
    → IsValid o
    → holder o ≢ self
    → (object_wait self b o ≡ (illegal_state, o))
      × (object_notify self o ≡ (illegal_state, o))
      × (object_notify_all self o ≡ (illegal_state, o))
      × (object_locked_by_current self o ≡ false)
unfolding object_wait monitor_wait object_notify object_notify_all monitor_notify monitor_notify_all
    object_locked_by_current
illegal_state_lem self b o t v h = ground arith
