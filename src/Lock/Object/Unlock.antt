-- ===== src/Lock/Object/Unlock.antt =====
-- objectUnlock of src/lock.c: by the holder, and by a thread that does not hold the lock.
use jamiga_jamvm.Base.{
  ℕ, ◌+◌, ◌-◌, ◌<◌, ◌≡◌, ◌≢◌, refl, sym, ap, ◌∙◌, true, false, arith, ◌==◌, [], Bool-cases, inl,
  inr,
}
use jamiga_jamvm.Lock.Word.{thin_locked, is_fat, tid_and_shape}
use jamiga_jamvm.Lock.Monitor.{monitor_unlock}
use jamiga_jamvm.Lock.Monitor.Queue.{tail_of}
use jamiga_jamvm.Lock.Object.{
  Object, find_monitor, acquired, released, object_lock, notify_contender, is_idle, unlock_fat,
  object_unlock,
}
use jamiga_jamvm.Lock.Object.Spec.{holder, depth, IsThread, Thin, IsValid}
use jamiga_jamvm.Lock.Object.Refine.{find_monitor-SameLock, SameLock-IsValid}
use jamiga_jamvm.Lock.Object.Release.{Unlocks, notify_contender_lem, unlock_fat_lem}

-- The branches of objectUnlock.
module _ (self : ℕ) (o : Object) where
  unlock_contended :
      (o.lock == thin_locked self) ≡ true
      → o.flc ≡ true
      → object_unlock self o ≡ notify_contender self (find_monitor (record o { lock = 0 }))
  unfolding object_unlock
  unlock_contended e f = cc

  unlock_uncontended :
      (o.lock == thin_locked self) ≡ true
      → o.flc ≡ false
      → object_unlock self o ≡ (released, record o { lock = 0 })
  unfolding object_unlock
  unlock_uncontended e f = rw (e, f)

  unlock_nested :
      (o.lock == thin_locked self) ≡ false
      → (tid_and_shape o.lock == thin_locked self) ≡ true
      → object_unlock self o ≡ (released, record o { lock = o.lock - 2 })
  unfolding object_unlock
  unlock_nested e f = rw (e, f)

  pub unlock_when_fat :
      (o.lock == thin_locked self) ≡ false
      → (tid_and_shape o.lock == thin_locked self) ≡ false
      → is_fat o.lock ≡ true
      → object_unlock self o ≡ (released, unlock_fat self o)
  unfolding object_unlock
  unlock_when_fat e f g = rw (e, f, g)

unlocked_lem : (o : Object) → o.lock ≡ 0 → (holder o ≡ 0) × (depth o ≡ 0)
unlocked_lem o z = ground arith

locked_once_lem :
    (self : ℕ) (o : Object) → IsThread self → (o.lock == thin_locked self) ≡ true → depth o ≡ 1
locked_once_lem self o t e = ground arith

-- The thin lock is undone for the last time, by its holder.
unlock_last_lem :
    (self : ℕ) (o : Object)
    → IsThread self
    → Thin o
    → IsValid o
    → (o.lock == thin_locked self) ≡ true
    → Unlocks self o (object_unlock self o).0 (object_unlock self o).1
      × ((object_unlock self o).1.w.mon.wait_set ≡ tail_of o.w.mon.wait_set)
unlock_last_lem self o t th v e = elim (Bool-cases o.flc) [
  | inl f ↦
      let o₁ = record o { lock = 0 } in
      let s = find_monitor-SameLock o₁ in
      let o₂ = find_monitor o₁ in
      let v₂ : IsValid o₂ =
        SameLock-IsValid o₁ o₂ s
          (record { aligned = v.aligned; waiters = v.waiters; mode = inl (ground arith) }) in
      let n =
        notify_contender_lem self o₂ t.positive v₂ s.lock (inr (s.flc ∙ f)) (s.owner ∙ th.owner)
          (s.mutex ∙ th.mutex) (s.count ∙ th.count) in
      let z = unlocked_lem (notify_contender self o₂).1 n.2 in
      let once = locked_once_lem self o t e in
      rw (unlock_contended self o e f) (
        record {
          valid = n.1;
          outcome = n.0;
          depth' = ap (λ d. d + 1) z.1 ∙ sym once;
          holder' = z.0 ∙ rw once refl;
        },
        n.3 ∙ ap tail_of s.wait_set,
      )
  | inr f ↦
      let q : o.w.mon.wait_set ≡ [] = ground arith in
      rw (unlock_uncontended self o e f) (
        record {
          valid = record { aligned = v.aligned; waiters = v.waiters; mode = inl (ground arith) };
          outcome = refl;
          depth' = ground arith;
          holder' = ground arith;
        },
        q ∙ sym (ap tail_of q),
      )
]

-- The holder's objectUnlock undoes one of its locks, on every path, and the lock is free after the last.
pub object_unlock-Unlocks :
    (self : ℕ) (o : Object)
    → IsThread self
    → IsValid o
    → holder o ≡ self
    → Unlocks self o (object_unlock self o).0 (object_unlock self o).1
object_unlock-Unlocks self o t v h = elim v.mode [
  | inl th ↦ elim (Bool-cases (o.lock == thin_locked self)) [
    | inl e ↦ (unlock_last_lem self o t th v e).0
    | inr n ↦ rw (unlock_nested self o n (ground arith)) (record {
      valid = record { aligned = v.aligned; waiters = v.waiters; mode = inl (ground arith) };
      outcome = refl;
      depth' = ground arith;
      holder' = ground arith;
    })
  ]
  | inr fa ↦
      let f : is_fat o.lock ≡ true = ground arith in
      rw (unlock_when_fat self o (ground arith) (ground arith) f)
        (unlock_fat_lem self o t v f (ground arith))
]

-- Where a thread gives up a thin lock for which others wait, exactly the one that has waited longest
-- leaves the wait set.
pub object_unlock_wakes :
    (self : ℕ) (o : Object)
    → IsThread self
    → IsValid o
    → o.lock ≡ thin_locked self
    → (object_unlock self o).1.w.mon.wait_set ≡ tail_of o.w.mon.wait_set
object_unlock_wakes self o t v e = elim v.mode [
  | inl th ↦ (unlock_last_lem self o t th v (ground arith)).1
  | inr fa ↦ ground arith
]

-- A thread that does not own the idle monitor of a fat lock calls objectUnlock: the lock word is
-- set to 0, while the monitor keeps its owner, so that any thread gets the lock at once.
pub object_unlock_deflates :
    (self next : ℕ) (o : Object)
    → IsThread self
    → IsThread next
    → IsValid o
    → is_fat o.lock ≡ true
    → 0 < holder o
    → holder o ≢ self
    → is_idle o.w.mon ≡ true
    → let o' = (object_unlock self o).1 in
      (o'.w.mon.owner ≡ holder o) × (holder o' ≡ 0) × ((object_lock next o').0 ≡ acquired)
unfolding unlock_fat monitor_unlock object_lock
object_unlock_deflates self next o t t' v f p n i =
    rw (unlock_when_fat self o (ground arith) (ground arith) f, i) (ground arith, refl, refl)
