-- ===== src/Lock/Monitor/PassOn.antt =====
-- The end of a wait in src/lock.c: a notification that its thread does not use is passed on.
use jamiga_jamvm.Base.{
  ℕ, ◌-◌, ◌<◌, ◌≡◌, ◌≢◌, refl, ap, subst, ◌∙◌, true, false, arith, ltb, List, [], ◌∷◌, Option, none,
  some,
}
use jamiga_jamvm.Lock.Monitor.{
  Waiting, update, is_member, wait_set_unlink, monitor_notify, monitor_unlock, Wakeup, notified,
  interrupting, timeout, pass_on, pass_on_from, settle, end_wait,
}
use jamiga_jamvm.Lock.Monitor.Queue.{signal_next_lem, head_of, tail_of, signalled, signal_next-cons}
use jamiga_jamvm.Base.{All}

pass_on_from_saved :
    (ts : List ℕ) (self : ℕ) (w : Waiting) → (pass_on_from ts self w).1.saved ≡ w.saved
unfolding pass_on_from
pass_on_from_saved [] self w = refl
pass_on_from_saved (t ∷ ts) self w = ground (arith, (signal_next_lem w).1)

pass_on_saved : (self : ℕ) (w : Waiting) → (pass_on self w).1.saved ≡ w.saved
unfolding pass_on
pass_on_saved self w = pass_on_from_saved w.mon.wait_set self w

pub settle_saved :
    (reason : Wakeup) (self : ℕ) (w : Waiting) → (settle reason self w).1.saved ≡ w.saved
unfolding settle wait_set_unlink
settle_saved notified self w = refl
settle_saved interrupting self w = ground (arith, pass_on_saved self w)
settle_saved timeout self w = ground (arith, pass_on_saved self w)

-- The threads of the wait set have tickets below the next one.
abbrev pub IsTicketed : Waiting → Type 0
IsTicketed w = All (λ t. w.wait_id t < w.mon.wait_count) w.mon.wait_set

signalled_settle :
    (reason : Wakeup) (a : ℕ) (ts : List ℕ) (w : Waiting)
    → reason ≢ notified
    → is_member a ts ≡ false
    → w.mon.wait_set ≡ ts
    → settle reason a w ≡ pass_on_from ts a w
unfolding settle pass_on
signalled_settle notified a ts w r n e = absurd (r refl)
signalled_settle interrupting a ts w r n e = rw (e, n) refl
signalled_settle timeout a ts w r n e = rw (e, n) refl

pass_on_from_ticketed :
    (ts : List ℕ) (a : ℕ) (w : Waiting)
    → w.mon.wait_set ≡ ts
    → All (λ t. w.wait_id t < w.notify_id a) ts
    → ((pass_on_from ts a w).0 ≡ head_of ts) × ((pass_on_from ts a w).1.mon.wait_set ≡ tail_of ts)
unfolding pass_on_from
pass_on_from_ticketed [] a w e h = (refl, e)
pass_on_from_ticketed (t ∷ ts) a w e h =
    let b : ltb (w.wait_id t) (w.notify_id a) ≡ true = ground (arith, h.0) in
    rw (b, signal_next-cons t ts w e) (refl, refl)

pass_on_from_late :
    (t : ℕ) (ts : List ℕ) (a : ℕ) (w : Waiting)
    → ltb (w.wait_id t) (w.notify_id a) ≡ false
    → pass_on_from (t ∷ ts) a w ≡ (none, w)
unfolding pass_on_from
pass_on_from_late t ts a w h = rw h

-- The owner's notify and its unlock.
abbrev pub notify_and_unlock : ℕ → Waiting → Waiting
notify_and_unlock n w =
    let w' = (monitor_notify n w).2 in record w' { mon = monitor_unlock n w'.mon }

notify_and_unlock_lem :
    (n t : ℕ) (ts : List ℕ) (w : Waiting)
    → w.mon.owner ≡ n
    → w.mon.count ≡ 0
    → w.mon.wait_set ≡ t ∷ ts
    → let w₁ = signalled t ts w in
      let m = w₁.mon in
      notify_and_unlock n w ≡ record w₁ { mon = record m { mutex = 0; owner = 0 } }
unfolding monitor_notify monitor_unlock
notify_and_unlock_lem n t ts w o c e = ground (arith, signal_next-cons t ts w e)

-- The tickets of `ts` are still below the number of the notification of `a`.
ticketed_at :
    (a b n : ℕ) (f g : ℕ → ℕ) (ts : List ℕ)
    → is_member a ts ≡ false
    → All (λ t. f t < n) ts
    → All (λ t. f t < update g a n a) ts
ticketed_at a b n f g ts m h = let e : update g a n a ≡ n = ground arith in rw e h

end_wait_settles :
    (reason : Wakeup) (a : ℕ) (w : Waiting)
    → w.mon.mutex ≡ 0
    → (r : Option ℕ × Waiting) × (end_wait reason a w ≡ some r)
      × (r.0 ≡ (settle reason a (record w { mon = record w.mon { mutex = a } })).0)
      × (r.1.mon.wait_set
          ≡ (settle reason a (record w { mon = record w.mon { mutex = a } })).1.mon.wait_set)
unfolding end_wait
end_wait_settles reason a w z =
    let (p, w') = settle reason a (record w { mon = record w.mon { mutex = a } }) in
    (
      (
        p,
        record w' {
          mon = record w'.mon { count = w'.saved a; owner = a; in_wait = w'.mon.in_wait - 1 };
        },
      ),
      ground arith,
      refl,
      refl,
    )

-- No notification is lost: the first waiter `a` is notified, and its wait ends for another reason, by an
-- interrupt or a timeout. The thread that has then waited longest is notified in its place.
pub end_wait_passes :
    (reason : Wakeup) (n a : ℕ) (ts : List ℕ) (w : Waiting)
    → reason ≢ notified
    → w.mon.owner ≡ n
    → w.mon.count ≡ 0
    → w.mon.wait_set ≡ a ∷ ts
    → is_member a ts ≡ false
    → IsTicketed w
    → (r : Option ℕ × Waiting) × (end_wait reason a (notify_and_unlock n w) ≡ some r)
      × (r.0 ≡ head_of ts)
      × (r.1.mon.wait_set ≡ tail_of ts)
end_wait_passes reason n a ts w r o c e m h =
    let w₁ = signalled a ts w in
    let w₂ = record w₁ { mon = record w₁.mon { mutex = 0; owner = 0 } } in
    let w₃ = record w₁ { mon = record w₁.mon { mutex = a; owner = 0 } } in
    let below : All (λ t. w.wait_id t < w.mon.wait_count) (a ∷ ts) =
      subst (All (λ t. w.wait_id t < w.mon.wait_count)) e h in
    let p =
      pass_on_from_ticketed ts a w₃ refl
        (ticketed_at a a w.mon.wait_count w.wait_id w.notify_id ts m below.1) in
    let s = signalled_settle reason a ts w₃ r m refl in
    let (r', ended, who, queue) = end_wait_settles reason a w₂ refl in
    (
      r',
      ap (end_wait reason a) (notify_and_unlock_lem n a ts w o c e) ∙ ended,
      who ∙ ap (λ x. x.0) s ∙ p.0,
      queue ∙ ap (λ x. x.1.mon.wait_set) s ∙ p.1,
    )
