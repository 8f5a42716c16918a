-- ===== src/Class/Once.antt =====
-- The calls of initClass of src/class.c by several threads, over all orders of their steps.
use jamiga_jamvm.Base.{
  ℕ, suc, ◌+◌, ◌≡◌, refl, sym, ap, ap₂, ◌∙◌, Bool, true, false, Bool-cases, inl, inr, List, [], ◌∷◌,
  map, ◌==◌, ◌&&◌, if◌then◌else◌, arith,
}
use jamiga_jamvm.Class.Init.{
  ClassState, loaded, linked, bad, initing, inited, Call, entering, waiting, running, System,
  set_calls, begin_call, decide, enter, wake, finish, begins, Reached, start, call, enter_step,
  finish_step,
}

abbrev pub runs : List Call → ℕ
runs [] = 0
runs (running ∷ cs) = suc (runs cs)
runs (c ∷ cs) = runs cs

abbrev pub waits : List Call → ℕ
waits [] = 0
waits (waiting ∷ cs) = suc (waits cs)
waits (c ∷ cs) = waits cs

abbrev pub is_initing : ClassState → Bool
is_initing initing = true
is_initing st = false

-- How often the initialisation has begun, by the state.
abbrev pub begun : ClassState → ℕ
begun loaded = 0
begun linked = 0
begun st = 1

-- While the class is being initialised the thread of initing_tid runs the initialisation in one call, and
-- otherwise no thread does; and no call waits then.
abbrev pub Valid : ClassState → ℕ → (ℕ → List Call) → Type 0
Valid st tid calls =
    (t : ℕ)
    → (runs (calls t) ≡ (if is_initing st && t == tid then 1 else 0))
      × (is_initing st ≡ false → waits (calls t) ≡ 0)

abbrev pub IsValid : System → Type 0
IsValid s = Valid s.state s.initing_tid s.calls

runs-wake : (cs : List Call) → runs (map wake cs) ≡ runs cs
runs-wake [] = refl
runs-wake (entering ∷ cs) = runs-wake cs
runs-wake (waiting ∷ cs) = runs-wake cs
runs-wake (running ∷ cs) = ap suc (runs-wake cs)

waits-wake : (cs : List Call) → waits (map wake cs) ≡ 0
waits-wake [] = refl
waits-wake (entering ∷ cs) = waits-wake cs
waits-wake (waiting ∷ cs) = waits-wake cs
waits-wake (running ∷ cs) = waits-wake cs

set_calls_lem :
    (f : List Call → ℕ) (self : ℕ) (cs : List Call) (calls : ℕ → List Call)
    → f cs ≡ f (calls self)
    → (t : ℕ) → f (set_calls self cs calls t) ≡ f (calls t)
set_calls_lem f self cs calls q t = elim (Bool-cases (t == self)) [
  | inl z ↦ let e : t ≡ self = ground (arith, z) in rw z (q ∙ ap (λ u. f (calls u)) (sym e))
  | inr n ↦ rw n refl
]

-- Calls that are replaced by some with the same counts.
same-Valid :
    (st st' : ClassState) (tid : ℕ) (calls : ℕ → List Call) (self : ℕ) (cs : List Call)
    → is_initing st' ≡ is_initing st
    → runs cs ≡ runs (calls self)
    → (is_initing st ≡ false → waits cs ≡ waits (calls self))
    → Valid st tid calls
    → Valid st' tid (set_calls self cs calls)
same-Valid st st' tid calls self cs e r w v t = (
  set_calls_lem runs self cs calls r t ∙ (v t).0 ∙ ap (λ b. if b && t == tid then 1 else 0) (sym e),
  λ n. set_calls_lem waits self cs calls (w (sym e ∙ n)) t ∙ (v t).1 (sym e ∙ n),
)

call-Valid :
    (st : ClassState) (tid : ℕ) (calls : ℕ → List Call) (self : ℕ)
    → Valid st tid calls
    → IsValid (begin_call self (record { state = st; initing_tid = tid; calls = calls }))
call-Valid loaded tid calls self v =
    same-Valid loaded linked tid calls self (entering ∷ calls self) refl refl (λ _. refl) v
call-Valid linked tid calls self v =
    same-Valid linked linked tid calls self (entering ∷ calls self) refl refl (λ _. refl) v
call-Valid bad tid calls self v =
    same-Valid bad bad tid calls self (entering ∷ calls self) refl refl (λ _. refl) v
call-Valid initing tid calls self v =
    same-Valid initing initing tid calls self (entering ∷ calls self) refl refl (λ _. refl) v
call-Valid inited tid calls self v = v

module _ (calls : ℕ → List Call) (self : ℕ) (cs : List Call) (e : calls self ≡ entering ∷ cs) where
  -- The call that returns.
  pop-Valid :
      (st : ClassState) (tid : ℕ) → Valid st tid calls → Valid st tid (set_calls self cs calls)
  pop-Valid st tid v =
      same-Valid st st tid calls self cs refl (sym (ap runs e)) (λ _. sym (ap waits e)) v

  initialise-Valid :
      (st : ClassState) (tid : ℕ)
      → is_initing st ≡ false
      → Valid st tid calls
      → Valid initing self (set_calls self (running ∷ cs) calls)
  initialise-Valid st tid n v t =
      let quiet : (u : ℕ) → runs (calls u) ≡ 0 =
        λ (u : ℕ). (v u).0 ∙ ap (λ b. if b && u == tid then 1 else 0) n in
      let below : runs cs ≡ 0 = sym (ap runs e) ∙ quiet self in
      (
        elim (Bool-cases (t == self)) [ inl z ↦ rw z (ap suc below) | inr d ↦ rw d (quiet t) ],
        λ q. absurd (ground (arith, q)),
      )

  enter-Valid :
      (st : ClassState) (tid : ℕ)
      → Valid st tid calls
      → IsValid (enter self cs (record { state = st; initing_tid = tid; calls = calls }))
  enter-Valid loaded tid v = initialise-Valid loaded tid refl v
  enter-Valid linked tid v = initialise-Valid linked tid refl v
  enter-Valid bad tid v = pop-Valid bad tid v
  enter-Valid inited tid v = pop-Valid inited tid v
  enter-Valid initing tid v = elim (Bool-cases (tid == self)) [
    | inl z ↦ rw z (pop-Valid initing tid v)
    | inr n ↦ rw n (
        same-Valid initing initing tid calls self (waiting ∷ cs) refl (sym (ap runs e))
          (λ q. absurd (ground (arith, q))) v)
  ]

module _ (st : ClassState) (tid : ℕ) (calls : ℕ → List Call) (self : ℕ) (cs : List Call)
    (e : calls self ≡ running ∷ cs) (v : Valid st tid calls) where
  -- Only the thread of initing_tid ends the initialisation.
  finisher : (is_initing st ≡ true) × (self ≡ tid) × (runs cs ≡ 0)
  finisher =
      let q : suc (runs cs) ≡ (if is_initing st && self == tid then 1 else 0) =
        sym (ap runs e) ∙ (v self).0 in
      (ground (arith, q), ground (arith, q), ground (arith, q))

  all_quiet : (t : ℕ) → runs (map wake (set_calls self cs calls t)) ≡ 0
  all_quiet t =
      let (i, same, below) = finisher in
      runs-wake (set_calls self cs calls t) ∙ elim (Bool-cases (t == self)) [
        | inl z ↦ rw z below
        | inr d ↦
            let other : (t == tid) ≡ false = ground (arith, d, same) in
            rw d ((v t).0 ∙ ap₂ (λ a b. if a && b then 1 else 0) i other)
      ]

  finish-Valid :
      (failed : Bool)
      → IsValid (finish failed self cs (record { state = st; initing_tid = tid; calls = calls }))
  finish-Valid true t = (all_quiet t, λ _. waits-wake (set_calls self cs calls t))
  finish-Valid false t = (all_quiet t, λ _. waits-wake (set_calls self cs calls t))

-- However the calls of initClass by the threads interleave, the initialisation is run in one call of one
-- thread, that of initing_tid, while the class is CLASS_INITING, and in none otherwise; and a call waits
-- only while it is run.
pub Reached-IsValid : {n : ℕ} {s : System} → Reached n s → IsValid s
Reached-IsValid start = λ (t : ℕ). (refl, λ _. refl)
Reached-IsValid (call {n} {s} self c r) =
    call-Valid s.state s.initing_tid s.calls self (Reached-IsValid r)
Reached-IsValid (enter_step {n} {s} self cs e r) =
    enter-Valid s.calls self cs e s.state s.initing_tid (Reached-IsValid r)
Reached-IsValid (finish_step {n} {s} failed self cs e r) =
    finish-Valid s.state s.initing_tid s.calls self cs e (Reached-IsValid r) failed

call-begun :
    (st : ClassState) (tid : ℕ) (calls : ℕ → List Call) (self : ℕ)
    → begun (begin_call self (record { state = st; initing_tid = tid; calls = calls })).state
      ≡ begun st
call-begun loaded tid calls self = refl
call-begun linked tid calls self = refl
call-begun bad tid calls self = refl
call-begun initing tid calls self = refl
call-begun inited tid calls self = refl

enter-begun :
    (st : ClassState) (tid : ℕ) (calls : ℕ → List Call) (self : ℕ) (cs : List Call)
    → begins (decide st tid self) + begun st
      ≡ begun (enter self cs (record { state = st; initing_tid = tid; calls = calls })).state
enter-begun loaded tid calls self cs = refl
enter-begun linked tid calls self cs = refl
enter-begun bad tid calls self cs = refl
enter-begun inited tid calls self cs = refl
enter-begun initing tid calls self cs = elim (Bool-cases (tid == self)) [
  | inl z ↦ rw z refl
  | inr n ↦ rw n refl
]

begun-initing : (st : ClassState) → is_initing st ≡ true → begun st ≡ 1
begun-initing initing i = refl
begun-initing loaded i = absurd (ground (arith, i))
begun-initing linked i = absurd (ground (arith, i))
begun-initing bad i = absurd (ground (arith, i))
begun-initing inited i = absurd (ground (arith, i))

finish-begun : (failed : Bool) → begun (if failed then bad else inited) ≡ 1
finish-begun true = refl
finish-begun false = refl

-- Whatever the threads do, the initialisation of the class has been begun once where the class is
-- CLASS_INITING, CLASS_INITED or CLASS_BAD, and not at all where it is loaded or linked.
pub Reached-begun : {n : ℕ} {s : System} → Reached n s → n ≡ begun s.state
Reached-begun start = refl
Reached-begun (call {n} {s} self c r) =
    Reached-begun r ∙ sym (call-begun s.state s.initing_tid s.calls self)
Reached-begun (enter_step {n} {s} self cs e r) =
    ap (λ k. begins (decide s.state s.initing_tid self) + k) (Reached-begun r)
    ∙ enter-begun s.state s.initing_tid s.calls self cs
Reached-begun (finish_step {n} {s} failed self cs e r) =
    let (i, same, below) = finisher s.state s.initing_tid s.calls self cs e (Reached-IsValid r) in
    Reached-begun r ∙ begun-initing s.state i ∙ sym (finish-begun failed)
