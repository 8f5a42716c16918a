-- ===== src/Lock/Object/Resume.antt =====
-- The end of monitorWait in src/lock.c.
use jamiga_jamvm.Base.{
  ℕ, ◌+◌, ◌-◌, ◌<◌, ◌≡◌, ◌==◌, ◌++◌, List, [], ◌∷◌, length, refl, sym, subst, ap, ◌∙◌, true, false,
  arith, Option, some,
}
use jamiga_jamvm.Lock.Word.{is_fat}
use jamiga_jamvm.Lock.Monitor.{monitor_unlock, Waiting, end_wait, Wakeup}
use jamiga_jamvm.Lock.Object.{
  Object, object_wait, object_unlock, released, with_mon, is_idle, unlock_fat,
}
use jamiga_jamvm.Lock.Object.Unlock.{unlock_when_fat}
use jamiga_jamvm.Lock.Object.Spec.{holder, depth, IsThread, IsValid}
use jamiga_jamvm.Lock.Monitor.{settle}
use jamiga_jamvm.Lock.Monitor.PassOn.{settle_saved}
use jamiga_jamvm.Lock.Object.Wait.{object_wait-Waits}

-- The end of a wait, however it ends, on a fat lock that nobody holds: the thread holds the lock again,
-- as often as before.
end_wait_lem :
    (reason : Wakeup) (self : ℕ) (o : Object)
    → IsThread self
    → is_fat o.lock ≡ true
    → o.w.mon.mutex ≡ 0
    → (r : Option ℕ × Waiting) × (end_wait reason self o.w ≡ some r)
      × (holder (record o { w = r.1 }) ≡ self)
      × (depth (record o { w = r.1 }) ≡ o.w.saved self + 1)
unfolding end_wait
end_wait_lem reason self o t f z =
    let w = record o.w { mon = record o.w.mon { mutex = self } } in
    let (p, w') = settle reason self w in
    (
      (
        p,
        record w' {
          mon = record w'.mon { count = w'.saved self; owner = self; in_wait = w'.mon.in_wait - 1 };
        },
      ),
      ground arith,
      ground arith,
      ground (arith, settle_saved reason self w),
    )

-- The last unlock by the owner of a fat lock for which a thread is counted in `in_wait`.
unlock_counted :
    (self : ℕ) (o : Object)
    → IsThread self
    → is_fat o.lock ≡ true
    → holder o ≡ self
    → depth o ≡ 1
    → 0 < o.w.mon.in_wait
    → object_unlock self o ≡ (released, with_mon o (record o.w.mon { mutex = 0; owner = 0 }))
unfolding unlock_fat monitor_unlock
unlock_counted self o t f h d n =
    let busy : is_idle o.w.mon ≡ false = ground (arith, n) in
    let once : (o.w.mon.count == 0) ≡ true = ground (arith, t.positive) in
    let mine : (o.w.mon.owner == self) ≡ true = ground arith in
    unlock_when_fat self o (ground arith) (ground arith) f ∙ rw (busy, mine, once) refl

length_snoc : (ts : List ℕ) (t : ℕ) → 0 < length (ts ++ t ∷ [])
length_snoc [] t = omega arith
length_snoc (x ∷ ts) t = omega arith

-- The holder of a lock waits in Object.wait, and is counted in the monitor. Later, in the state `y`, the lock
-- is fat, some thread is counted as waiting, the thread's saved count is its own, and another thread holds
-- the lock once. When that one unlocks, the lock stays fat and as many are counted, and the wait, however it
-- ends, ends with the thread holding the lock as often as before its call.
pub object_wait_restores :
    (reason : Wakeup) (self other : ℕ) (o y : Object)
    → IsThread self
    → IsThread other
    → IsValid o
    → holder o ≡ self
    → is_fat y.lock ≡ true
    → holder y ≡ other
    → depth y ≡ 1
    → 0 < y.w.mon.in_wait
    → y.w.saved self ≡ (object_wait self false o).1.w.saved self
    → let x = (object_unlock other y).1 in
      (0 < (object_wait self false o).1.w.mon.in_wait)
      × (is_fat x.lock ≡ true)
      × (x.w.mon.in_wait ≡ y.w.mon.in_wait)
      × ((r : Option ℕ × Waiting) × (end_wait reason self x.w ≡ some r)
          × (holder (record x { w = r.1 }) ≡ self)
          × (depth (record x { w = r.1 }) ≡ depth o))
object_wait_restores reason self other o y t t' v h f h' d n s =
    let waits = object_wait-Waits self o t v h in
    let x = with_mon y (record y.w.mon { mutex = 0; owner = 0 }) in
    let (r, ended, whose, how_often) = end_wait_lem reason self x t f refl in
    let some_waiter : 0 < length (object_wait self false o).1.w.mon.wait_set =
      subst (λ ts. 0 < length ts) (sym waits.queue) (length_snoc _ self) in
    let waiters = waits.valid.waiters in
    rw (unlock_counted other y t' f h' d n) (
      omega (arith, some_waiter, waiters),
      f,
      refl,
      (r, ended, whose, how_often ∙ ap (λ n. n + 1) s ∙ waits.saved),
    )
