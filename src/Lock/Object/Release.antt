-- ===== src/Lock/Object/Release.antt =====
-- How objectUnlock of src/lock.c gives up a thin lock that others wait for, and a fat one.
use jamiga_jamvm.Base.{
  ℕ, ◌+◌, ◌-◌, ◌≤◌, ◌<◌, ◌≡◌, ◌≢◌, refl, ap, ◌∙◌, true, false, arith, ◌==◌, if◌then◌else◌, List, [],
  ◌∷◌, length, Bool-cases, inl, inr, ◌⊎◌,
}
use jamiga_jamvm.Lock.Word.{is_fat}
use jamiga_jamvm.Lock.Monitor.{
  Monitor, un_used, monitor_try_lock, monitor_unlock, monitor_notify, signal_next,
}
use jamiga_jamvm.Lock.Monitor.Queue.{signal_next_lem, tail_of}
use jamiga_jamvm.Lock.Object.{
  Object, with_mon, Outcome, released, notify_contender, is_idle, unlock_fat,
}
use jamiga_jamvm.Lock.Object.Spec.{holder, depth, IsThread, IsValid}

pub length-tail_of : (ts : List ℕ) → length (tail_of ts) ≤ length ts
length-tail_of [] = omega arith
length-tail_of (t ∷ ts) = omega arith

length-0 : (ts : List ℕ) → length ts ≤ 0 → ts ≡ []
length-0 [] h = refl
length-0 (t ∷ ts) h = ground arith

-- A call that undoes one lock of the holder.
pub record Unlocks (self : ℕ) (o : Object) (out : Outcome) (o' : Object) : Type 0 where
  pub valid : IsValid o'
  pub outcome : out ≡ released
  pub depth' : depth o' + 1 ≡ depth o
  pub holder' : holder o' ≡ (if depth o == 1 then 0 else self)

-- The monitor of a thin lock is free: it is taken, its first waiter is signalled, and it is free again.
notify_contender_eq :
    (self : ℕ) (o : Object)
    → 0 < self
    → o.w.mon.owner ≡ 0
    → o.w.mon.mutex ≡ 0
    → o.w.mon.count ≡ 0
    → let m = o.w.mon in
      let o' = with_mon o (record m { mutex = self; owner = self }) in
      let w' = (signal_next o'.w).1 in
      notify_contender self o
      ≡ (released, record o { w = record w' { mon = monitor_unlock self w'.mon } })
unfolding notify_contender monitor_try_lock monitor_notify
notify_contender_eq self o p e m c = ground arith

-- The last monitorUnlock.
monitor_unlock_last :
    (self : ℕ) (m : Monitor)
    → m.owner ≡ self
    → m.count ≡ 0
    → monitor_unlock self m ≡ record m { mutex = 0; owner = 0 }
unfolding monitor_unlock
monitor_unlock_last self m e c = ground arith

pub notify_contender_lem :
    (self : ℕ) (o : Object)
    → 0 < self
    → IsValid o
    → o.lock ≡ 0
    → (o.w.mon.wait_set ≡ []) ⊎ (o.flc ≡ true)
    → o.w.mon.owner ≡ 0
    → o.w.mon.mutex ≡ 0
    → o.w.mon.count ≡ 0
    → let (out, o') = notify_contender self o in
      (out ≡ released) × IsValid o' × (o'.lock ≡ 0) × (o'.w.mon.wait_set ≡ tail_of o.w.mon.wait_set)
notify_contender_lem self o p v z w e m c =
    let mon = o.w.mon in
    let o₁ = with_mon o (record mon { mutex = self; owner = self }) in
    let s = (signal_next_lem o₁.w).1 in
    let l = length-tail_of o.w.mon.wait_set in
    let u = monitor_unlock_last self (signal_next o₁.w).1.mon s.owner (s.count ∙ c) in
    rw (notify_contender_eq self o p e m c, u)
      (
        refl,
        record {
          aligned = v.aligned;
          waiters = rw (s.queue, s.in_wait) (omega arith);
          mode = inl (record {
            shape = ground arith;
            tid = ground arith;
            free = inl z;
            mutex = refl;
            owner = refl;
            count = ground arith;
            contended = elim w [ inl n ↦ inl (s.queue ∙ ap tail_of n) | inr f ↦ inr f ];
          });
        },
        z,
        s.queue,
      )

-- monitorUnlock of a recursive lock.
monitor_unlock_nested :
    (self : ℕ) (m : Monitor)
    → m.owner ≡ self
    → m.count ≢ 0
    → monitor_unlock self m ≡ record m { count = m.count - 1 }
unfolding monitor_unlock
monitor_unlock_nested self m e c = ground arith

-- The last unlock of a fat lock deflates it where no thread waits for it.
unlock_fat_idle :
    (self : ℕ) (o : Object)
    → o.w.mon.owner ≡ self
    → is_idle o.w.mon ≡ true
    → let m = o.w.mon in
      unlock_fat self o
      ≡ with_mon (record o { lock = 0 }) (record m { mutex = 0; owner = 0; entering = un_used })
unfolding unlock_fat
unlock_fat_idle self o e i =
    let m = o.w.mon in
    let u = monitor_unlock_last self (record m { entering = un_used }) e (ground arith) in rw (i, u)

unlock_fat_last :
    (self : ℕ) (o : Object)
    → o.w.mon.owner ≡ self
    → is_idle o.w.mon ≡ false
    → o.w.mon.count ≡ 0
    → let m = o.w.mon in unlock_fat self o ≡ with_mon o (record m { mutex = 0; owner = 0 })
unfolding unlock_fat
unlock_fat_last self o e i c = rw (i, monitor_unlock_last self o.w.mon e c)

unlock_fat_nested :
    (self : ℕ) (o : Object)
    → o.w.mon.owner ≡ self
    → o.w.mon.count ≢ 0
    → let m = o.w.mon in unlock_fat self o ≡ with_mon o (record m { count = m.count - 1 })
unfolding unlock_fat
unlock_fat_nested self o e c =
    let i : is_idle o.w.mon ≡ false = ground arith in rw (i, monitor_unlock_nested self o.w.mon e c)

-- One objectUnlock of a fat lock by its owner.
pub unlock_fat_lem :
    (self : ℕ) (o : Object)
    → IsThread self
    → IsValid o
    → is_fat o.lock ≡ true
    → o.w.mon.owner ≡ self
    → Unlocks self o released (unlock_fat self o)
unlock_fat_lem self o t v f h = elim (Bool-cases (o.w.mon.count == 0)) [
  | inl c ↦ elim (Bool-cases (is_idle o.w.mon)) [
    | inl i ↦
        let none_waits : length o.w.mon.wait_set ≤ 0 = ground (arith, v.waiters) in
        rw (unlock_fat_idle self o h i) (record {
          valid = record {
            aligned = v.aligned;
            waiters = v.waiters;
            mode = inl (record {
              shape = refl;
              tid = omega arith;
              free = inl refl;
              mutex = refl;
              owner = refl;
              count = ground arith;
              contended = inl (length-0 o.w.mon.wait_set none_waits);
            });
          };
          outcome = refl;
          depth' = ground arith;
          holder' = ground arith;
        })
    | inr n ↦ rw (unlock_fat_last self o h n (ground arith)) (record {
      valid = record { aligned = v.aligned; waiters = v.waiters; mode = inr (ground arith) };
      outcome = refl;
      depth' = ground arith;
      holder' = ground arith;
    })
  ]
  | inr c ↦ rw (unlock_fat_nested self o h (ground arith)) (record {
    valid = record { aligned = v.aligned; waiters = v.waiters; mode = inr (ground arith) };
    outcome = refl;
    depth' = ground arith;
    holder' = ground arith;
  })
]
