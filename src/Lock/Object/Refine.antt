-- ===== src/Lock/Object/Refine.antt =====
-- objectLock, objectUnlock and the calls on an owned lock (src/lock.c) refine the abstract lock.
use jamiga_jamvm.Base.{
  ℕ, ◌+◌, ◌^◌, ◌≡◌, ◌≢◌, refl, ◌∙◌, true, false, arith, ◌==◌, Bool-cases, inl, inr, ◌⊎◌,
}
use jamiga_jamvm.Lock.Word.{thin_locked, is_fat, tid_and_shape, tid_of, count_of, has_room}
use jamiga_jamvm.Lock.Monitor.{monitor_lock}
use jamiga_jamvm.Lock.Object.{
  Object, with_mon, find_monitor, Outcome, acquired, inflate, set_count, add_entering,
  drop_entering, enter_monitor, lock_overflow, object_lock,
}
use jamiga_jamvm.Lock.Object.Spec.{holder, depth, is_available, IsThread, IsValid}
use jamiga_jamvm.Lock.Object.Inv.{
  Locks, inflate_lem, lock_loop-Locks, lock_loop_fat, enter_again, enter_free, enter_blocks,
}

-- What is the same for two objects that differ in the `entering` counter at most.
pub record SameLock (o o' : Object) : Type 0 where
  pub lock : o'.lock ≡ o.lock
  pub flc : o'.flc ≡ o.flc
  pub addr : o'.addr ≡ o.addr
  pub mutex : o'.w.mon.mutex ≡ o.w.mon.mutex
  pub owner : o'.w.mon.owner ≡ o.w.mon.owner
  pub count : o'.w.mon.count ≡ o.w.mon.count
  pub in_wait : o'.w.mon.in_wait ≡ o.w.mon.in_wait
  pub wait_set : o'.w.mon.wait_set ≡ o.w.mon.wait_set

pub find_monitor-SameLock : (o : Object) → SameLock o (find_monitor o)
unfolding find_monitor
find_monitor-SameLock o = ground arith

pub SameLock-IsValid : (o o' : Object) → SameLock o o' → IsValid o → IsValid o'
SameLock-IsValid o o' s v = record {
  aligned = ground arith;
  waiters = rw (s.wait_set, s.in_wait) v.waiters;
  mode = ground arith;
}

SameLock-Locks :
    (self : ℕ) (o o₁ : Object) (out : Outcome) (o' : Object)
    → SameLock o o₁
    → Locks self o₁ out o'
    → Locks self o out o'
SameLock-Locks self o o₁ out o' s l = record {
  valid = l.valid;
  outcome = l.outcome ∙ ground arith;
  holder' = l.holder' ∙ ground arith;
  depth' = l.depth' ∙ ground arith;
}

dropped-SameLock : (o : Object) → SameLock o (drop_entering (add_entering o))
dropped-SameLock o = ground arith

SameLock-trans : (o o₁ o₂ : Object) → SameLock o o₁ → SameLock o₁ o₂ → SameLock o o₂
SameLock-trans o o₁ o₂ s s' = ground arith

acquired-Locks :
    (self : ℕ) (o o' : Object)
    → IsValid o'
    → is_available self o ≡ true
    → holder o' ≡ self
    → depth o' ≡ depth o + 1
    → Locks self o acquired o'
acquired-Locks self o o' v a h d = record {
  valid = v;
  outcome = ground arith;
  holder' = rw a h;
  depth' = rw a d;
}

-- objectLock's slow path, for a thread that is counted in `entering`.
enter_monitor-Locks :
    (self : ℕ) (o : Object)
    → IsThread self
    → IsValid o
    → (is_fat o.lock ≡ true) ⊎ (holder o ≢ self)
    → let o₁ = add_entering o in Locks self o (enter_monitor self o₁).0 (enter_monitor self o₁).1
enter_monitor-Locks self o t v way = elim (Bool-cases (o.w.mon.owner == self)) [
  | inl e ↦
      let m = (add_entering o).w.mon in
      let o' = drop_entering (with_mon (add_entering o) (record m { count = m.count + 1 })) in
      let f : is_fat o.lock ≡ true = ground arith in
      rw (enter_again self (add_entering o) (ground arith), lock_loop_fat self o' f)
        (acquired-Locks self o o'
          (record { aligned = v.aligned; waiters = v.waiters; mode = inr (ground arith) })
          (ground arith) (ground arith) (ground arith))
  | inr n ↦ elim (Bool-cases (o.w.mon.mutex == 0)) [
    | inl z ↦
        let o₂ = drop_entering (add_entering o) in
        let s = dropped-SameLock o in
        rw (enter_free self (add_entering o) (ground arith) (ground arith)) (
          SameLock-Locks self o o₂ _ _ s
            (lock_loop-Locks self o₂ t (SameLock-IsValid o o₂ s v) (ground arith) (ground arith)))
    | inr z ↦ rw (enter_blocks self (add_entering o) (ground arith) (ground arith)) (record {
      valid = record { aligned = v.aligned; waiters = v.waiters; mode = ground arith };
      outcome = ground arith;
      holder' = ground arith;
      depth' = ground arith;
    })
  ]
]

pub set_count-IsValid :
    (self n : ℕ) (o : Object)
    → IsThread self
    → IsValid o
    → is_fat o.lock ≡ true
    → holder o ≡ self
    → IsValid (set_count n o) × (holder (set_count n o) ≡ self) × (depth (set_count n o) ≡ n + 1)
set_count-IsValid self n o t v f h = (
  record { aligned = v.aligned; waiters = v.waiters; mode = inr (ground arith) },
  ground arith,
  ground arith,
)

overflow_takes :
    (self : ℕ) (o : Object)
    → o.w.mon.owner ≢ self
    → o.w.mon.mutex ≡ 0
    → let m = o.w.mon in
      lock_overflow self o ≡ (
        acquired,
        set_count (2 ^ 8) (inflate self (with_mon o (record m { mutex = self; owner = self }))),
      )
unfolding lock_overflow monitor_lock
overflow_takes self o n z = ground arith

-- The recursion count of the thin word is exhausted: the lock is inflated.
lock_overflow-Locks :
    (self : ℕ) (o : Object)
    → IsThread self
    → IsValid o
    → is_fat o.lock ≡ false
    → tid_of o.lock ≡ self
    → count_of o.lock ≡ 255
    → Locks self o (lock_overflow self o).0 (lock_overflow self o).1
lock_overflow-Locks self o t v f h c =
    let m = o.w.mon in
    let o₁ = with_mon o (record m { mutex = self; owner = self }) in
    let i = inflate_lem self o₁ t v.aligned refl refl in
    let c' = set_count-IsValid self (2 ^ 8) (inflate self o₁) t i.0 i.3 i.1 in
    rw (overflow_takes self o (ground arith) (ground arith)) (
      acquired-Locks self o (set_count (2 ^ 8) (inflate self o₁)) c'.0 (ground arith) c'.1
        (c'.2 ∙ ground arith))

-- objectLock: a thread gets the lock, once more, exactly where nobody or the thread itself holds
-- it; otherwise the holder and the depth stay. The invariant is kept.
pub object_lock-Locks :
    (self : ℕ) (o : Object)
    → IsThread self
    → IsValid o
    → Locks self o (object_lock self o).0 (object_lock self o).1
unfolding object_lock
object_lock-Locks self o t v = elim (Bool-cases (o.lock == 0)) [
  | inl z ↦ rw z (
      acquired-Locks self o (record o { lock = thin_locked self })
        (record { aligned = v.aligned; waiters = v.waiters; mode = inl (ground arith) })
        (ground arith) (ground arith) (ground arith))
  | inr z ↦ elim (Bool-cases (tid_and_shape o.lock == thin_locked self)) [
    | inl mine ↦ elim (Bool-cases (has_room o.lock)) [
      | inl room ↦
          rw (z, mine, room)
            (acquired-Locks self o (record o { lock = o.lock + 2 })
              (record { aligned = v.aligned; waiters = v.waiters; mode = inl (ground arith) })
              (ground arith) (ground arith) (ground arith))
      | inr full ↦
          let s = find_monitor-SameLock o in
          rw (z, mine, full)
            (SameLock-Locks self o (find_monitor o) _ _ s (
              lock_overflow-Locks self (find_monitor o) t (SameLock-IsValid o (find_monitor o) s v)
                (ground arith) (ground arith) (ground arith)))
    ]
    | inr other ↦
        let s = find_monitor-SameLock o in
        rw (z, other)
          (SameLock-Locks self o (find_monitor o) _ _ s (
            enter_monitor-Locks self (find_monitor o) t (SameLock-IsValid o (find_monitor o) s v)
              (elim (Bool-cases (is_fat o.lock)) [
                | inl f ↦ inl (ground arith)
                | inr f ↦ inr (λ h. ground arith)
              ])))
  ]
]
