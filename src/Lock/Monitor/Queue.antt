-- ===== src/Lock/Monitor/Queue.antt =====
-- The wait set of a monitor in src/lock.c: first in, first out, and no notification is lost.
use jamiga_jamvm.Base.{ℕ, ◌≡◌, refl, ap, true, arith, List, [], ◌∷◌, Option, none, some}
use jamiga_jamvm.Lock.Monitor.{
  Waiting, update, signal_from, signal_next, signal_all, monitor_notify_all,
}

-- What signalling leaves alone: all of the monitor but its wait set, and the waiters' data.
pub record Signalled (ts : List ℕ) (w w' : Waiting) : Type 0 where
  pub queue : w'.mon.wait_set ≡ ts
  pub mutex : w'.mon.mutex ≡ w.mon.mutex
  pub owner : w'.mon.owner ≡ w.mon.owner
  pub count : w'.mon.count ≡ w.mon.count
  pub in_wait : w'.mon.in_wait ≡ w.mon.in_wait
  pub entering : w'.mon.entering ≡ w.mon.entering
  pub saved : w'.saved ≡ w.saved

-- The thread `t` is taken from the wait set, which becomes `ts`.
abbrev pub signalled : ℕ → List ℕ → Waiting → Waiting
signalled t ts w = record w {
  mon = record w.mon { wait_set = ts };
  notify_id = update w.notify_id t w.mon.wait_count;
}

pub signal_next-cons :
    (t : ℕ) (ts : List ℕ) (w : Waiting)
    → w.mon.wait_set ≡ t ∷ ts
    → signal_next w ≡ (some t, signalled t ts w)
unfolding signal_next
signal_next-cons t ts w e = rw (e, signal_from)

signal_all-cons :
    (t : ℕ) (ts : List ℕ) (w : Waiting)
    → w.mon.wait_set ≡ t ∷ ts
    → signal_all (t ∷ ts) w
      ≡ (t ∷ (signal_all ts (signalled t ts w)).0, (signal_all ts (signalled t ts w)).1)
unfolding signal_all
signal_all-cons t ts w e = ground (arith, signal_next-cons t ts w)

pub signal_all_lem :
    (ts : List ℕ) (w : Waiting)
    → w.mon.wait_set ≡ ts
    → ((signal_all ts w).0 ≡ ts) × Signalled [] w (signal_all ts w).1
unfolding signal_all
signal_all_lem [] w e = (refl, ground arith)
signal_all_lem (t ∷ ts) w e =
    let (same, rest) = signal_all_lem ts (signalled t ts w) refl in
    rw (signal_all-cons t ts w e) (
      ap (λ l. t ∷ l) same,
      record {
        queue = rest.queue;
        mutex = rest.mutex;
        owner = rest.owner;
        count = rest.count;
        in_wait = rest.in_wait;
        entering = rest.entering;
        saved = rest.saved;
      },
    )

-- A thread that owns the monitor wakes all the threads of the wait set, in order.
pub monitor_notify_all_lem :
    (self : ℕ) (w : Waiting)
    → w.mon.owner ≡ self
    → let (owns, woken, w') = monitor_notify_all self w in
      (owns ≡ true) × (woken ≡ w.mon.wait_set) × Signalled [] w w'
unfolding monitor_notify_all
monitor_notify_all_lem self w e = ground (arith, signal_all_lem w.mon.wait_set w)

abbrev pub tail_of : List ℕ → List ℕ
tail_of [] = []
tail_of (t ∷ ts) = ts

abbrev pub head_of : List ℕ → Option ℕ
head_of [] = none
head_of (t ∷ ts) = some t

signal_from_lem :
    (ts : List ℕ) (w : Waiting)
    → w.mon.wait_set ≡ ts
    → ((signal_from ts w).0 ≡ head_of ts) × Signalled (tail_of ts) w (signal_from ts w).1
unfolding signal_from
signal_from_lem [] w e = (refl, ground arith)
signal_from_lem (t ∷ ts) w e = (refl, ground arith)

-- The thread that has waited longest is signalled.
pub signal_next_lem :
    (w : Waiting)
    → ((signal_next w).0 ≡ head_of w.mon.wait_set)
      × Signalled (tail_of w.mon.wait_set) w (signal_next w).1
unfolding signal_next
signal_next_lem w = signal_from_lem w.mon.wait_set w refl
