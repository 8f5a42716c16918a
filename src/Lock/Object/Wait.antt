-- ===== src/Lock/Object/Wait.antt =====
-- objectWait, objectNotify and objectNotifyAll of src/lock.c, by the holder of the lock and by others.
use jamiga_jamvm.Base.{
  ℕ, ◌+◌, ◌≡◌, ◌≢◌, refl, ap, ◌∙◌, true, false, arith, if◌then◌else◌, List, [], ◌∷◌, ◌++◌,
  Bool-cases, inl, inr, length-append,
}
use jamiga_jamvm.Lock.Word.{is_fat, tid_of, count_of}
use jamiga_jamvm.Lock.Monitor.{monitor_lock, begin_wait, wait_set_append}
use jamiga_jamvm.Lock.Monitor.Queue.{monitor_notify_all_lem}
use jamiga_jamvm.Lock.Object.{
  Object, with_mon, find_monitor, Outcome, waiting, inflate, set_count, monitor_wait, object_wait,
  interrupted,
}
use jamiga_jamvm.Lock.Object.Spec.{holder, depth, IsThread, IsValid}
use jamiga_jamvm.Lock.Object.Inv.{inflate_lem}
use jamiga_jamvm.Lock.Object.Refine.{find_monitor-SameLock, SameLock-IsValid, set_count-IsValid}

monitor_wait_owned :
    (self : ℕ) (o : Object)
    → o.w.mon.owner ≡ self
    → monitor_wait self false o ≡ (waiting, record o { w = begin_wait self o.w })
unfolding monitor_wait
monitor_wait_owned self o e = ground arith

-- A thread gives up all its locks and is the last of the wait set `ts`.
pub record Waits (self : ℕ) (o : Object) (ts : List ℕ) (out : Outcome) (o' : Object) : Type 0 where
  pub outcome : out ≡ waiting
  pub valid : IsValid o'
  pub free : holder o' ≡ 0
  pub fat : is_fat o'.lock ≡ true
  pub saved : o'.w.saved self + 1 ≡ depth o
  pub queue : o'.w.mon.wait_set ≡ ts ++ self ∷ []

-- The wait of the owner of a fat lock.
monitor_wait-Waits :
    (self : ℕ) (o : Object)
    → IsThread self
    → IsValid o
    → is_fat o.lock ≡ true
    → o.w.mon.owner ≡ self
    → Waits self o o.w.mon.wait_set (monitor_wait self false o).0 (monitor_wait self false o).1
unfolding begin_wait wait_set_append
monitor_wait-Waits self o t v f e = rw (monitor_wait_owned self o e) (record {
  outcome = refl;
  valid = record {
    aligned = v.aligned;
    waiters = rw (length-append o.w.mon.wait_set (self ∷ [])) (ground (arith, v.waiters));
    mode = inr (ground arith);
  };
  free = ground arith;
  fat = f;
  saved = ground arith;
  queue = refl;
})

wait_thin :
    (self : ℕ) (o : Object)
    → is_fat o.lock ≡ false
    → tid_of o.lock ≡ self
    → (find_monitor o).w.mon.owner ≢ self
    → (find_monitor o).w.mon.mutex ≡ 0
    → let o₁ = find_monitor o in
      let m = o₁.w.mon in
      object_wait self false o
      ≡ monitor_wait self false (
          set_count
            (count_of o.lock)
            (inflate self (with_mon o₁ (record m { mutex = self; owner = self }))))
unfolding object_wait monitor_lock
wait_thin self o f h n m = ground arith

wait_fat :
    (self : ℕ) (o : Object)
    → is_fat o.lock ≡ true
    → object_wait self false o ≡ monitor_wait self false o
unfolding object_wait
wait_fat self o f = rw f

-- inflate wakes all threads that wait for the thin lock.
inflate_wakes :
    (self : ℕ) (o : Object) → o.w.mon.owner ≡ self → (inflate self o).w.mon.wait_set ≡ []
unfolding inflate
inflate_wakes self o e = (monitor_notify_all_lem self o.w e).2.queue

inflate_owner : (self : ℕ) (o : Object) → o.w.mon.owner ≡ self → (inflate self o).w.mon.owner ≡ self
unfolding inflate
inflate_owner self o e = (monitor_notify_all_lem self o.w e).2.owner ∙ e

thin_depth :
    (self : ℕ) (o : Object)
    → IsThread self
    → is_fat o.lock ≡ false
    → tid_of o.lock ≡ self
    → count_of o.lock + 1 ≡ depth o
thin_depth self o t f e = ground arith

-- Object.wait: the holder, however often it has locked the object, gives the lock up and is put at the
-- end of the wait set. The wait set of a thin lock holds threads that wait for the lock, and these
-- are woken before.
pub object_wait-Waits :
    (self : ℕ) (o : Object)
    → IsThread self
    → IsValid o
    → holder o ≡ self
    → let (out, o') = object_wait self false o in
      Waits self o (if is_fat o.lock then o.w.mon.wait_set else []) out o'
object_wait-Waits self o t v h = elim (Bool-cases (is_fat o.lock)) [
  | inl f ↦ rw (wait_fat self o f, f) (monitor_wait-Waits self o t v f (ground arith))
  | inr f ↦
      let s = find_monitor-SameLock o in
      let o₁ = find_monitor o in
      let mon = o₁.w.mon in
      let mine : tid_of o.lock ≡ self = ground arith in
      let unowned : mon.owner ≢ self = ground arith in
      let unlocked : mon.mutex ≡ 0 = ground arith in
      let o₂ = with_mon o₁ (record mon { mutex = self; owner = self }) in
      let i = inflate_lem self o₂ t (SameLock-IsValid o o₁ s v).aligned refl refl in
      let n = count_of o.lock in
      let c = set_count-IsValid self n (inflate self o₂) t i.0 i.3 i.1 in
      let o₃ = set_count n (inflate self o₂) in
      let w = monitor_wait-Waits self o₃ t c.0 i.3 (inflate_owner self o₂ refl) in
      let e = wait_thin self o f mine unowned unlocked in
      rw (e, f)
        (record {
          outcome = w.outcome;
          valid = w.valid;
          free = w.free;
          fat = w.fat;
          saved = w.saved ∙ c.2 ∙ thin_depth self o t f mine;
          queue = w.queue ∙ ap (λ l. l ++ self ∷ []) (inflate_wakes self o₂ refl);
        })
]

-- The interrupt status is set: the thread keeps the lock as it is.
pub record Refused (self : ℕ) (o : Object) (out : Outcome) (o' : Object) : Type 0 where
  pub outcome : out ≡ interrupted
  pub valid : IsValid o'
  pub held : holder o' ≡ self
  pub depth_kept : depth o' ≡ depth o
  pub queue : o'.w.mon.wait_set ≡ (if is_fat o.lock then o.w.mon.wait_set else [])

monitor_wait_interrupted :
    (self : ℕ) (o : Object) → o.w.mon.owner ≡ self → monitor_wait self true o ≡ (interrupted, o)
unfolding monitor_wait
monitor_wait_interrupted self o e = ground arith

interrupted_thin :
    (self : ℕ) (o : Object)
    → is_fat o.lock ≡ false
    → tid_of o.lock ≡ self
    → (find_monitor o).w.mon.owner ≢ self
    → (find_monitor o).w.mon.mutex ≡ 0
    → let o₁ = find_monitor o in
      let m = o₁.w.mon in
      object_wait self true o
      ≡ monitor_wait self true (
          set_count
            (count_of o.lock)
            (inflate self (with_mon o₁ (record m { mutex = self; owner = self }))))
unfolding object_wait monitor_lock
interrupted_thin self o f h n m = ground arith

interrupted_fat :
    (self : ℕ) (o : Object)
    → is_fat o.lock ≡ true
    → object_wait self true o ≡ monitor_wait self true o
unfolding object_wait
interrupted_fat self o f = rw f

object_wait-Refused :
    (self : ℕ) (o : Object)
    → IsThread self
    → IsValid o
    → holder o ≡ self
    → Refused self o (object_wait self true o).0 (object_wait self true o).1
object_wait-Refused self o t v h = elim (Bool-cases (is_fat o.lock)) [
  | inl f ↦
      let e = interrupted_fat self o f ∙ monitor_wait_interrupted self o (ground arith) in
      rw e (record { outcome = refl; valid = v; held = h; depth_kept = refl; queue = rw f refl })
  | inr f ↦
      let s = find_monitor-SameLock o in
      let o₁ = find_monitor o in
      let mon = o₁.w.mon in
      let mine : tid_of o.lock ≡ self = ground arith in
      let unowned : mon.owner ≢ self = ground arith in
      let unlocked : mon.mutex ≡ 0 = ground arith in
      let o₂ = with_mon o₁ (record mon { mutex = self; owner = self }) in
      let i = inflate_lem self o₂ t (SameLock-IsValid o o₁ s v).aligned refl refl in
      let n = count_of o.lock in
      let c = set_count-IsValid self n (inflate self o₂) t i.0 i.3 i.1 in
      let o₃ = set_count n (inflate self o₂) in
      let owned = inflate_owner self o₂ refl in
      let e =
        interrupted_thin self o f mine unowned unlocked ∙ monitor_wait_interrupted self o₃ owned in
      rw e (record {
        outcome = refl;
        valid = c.0;
        held = c.1;
        depth_kept = c.2 ∙ thin_depth self o t f mine;
        queue = inflate_wakes self o₂ refl ∙ rw f refl;
      })
]

-- Object.wait by the holder of the lock, however often it has locked the object. Where the interrupt status
-- of the thread is not set, it gives the lock up and is put at the end of the wait set; the wait set of a
-- thin lock holds threads that wait for the lock, and these are woken before. Where it is set, the call ends
-- as interrupted, and the thread has the lock as often as before and the wait set is
-- as before, or empty.
pub object_wait_lem :
    (self : ℕ) (o : Object)
    → IsThread self
    → IsValid o
    → holder o ≡ self
    → Waits self o
        (if is_fat o.lock then o.w.mon.wait_set else [])
        (object_wait self false o).0
        (object_wait self false o).1
      × Refused self o (object_wait self true o).0 (object_wait self true o).1
object_wait_lem self o t v h = (object_wait-Waits self o t v h, object_wait-Refused self o t v h)
