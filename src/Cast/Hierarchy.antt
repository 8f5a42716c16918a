-- ===== src/Cast/Hierarchy.antt =====
-- The walks of src/cast.c decide the subclass and the interface relation of an acyclic hierarchy.
use jamiga_jamvm.Base.{
  ℕ, zero, suc, ◌<◌, ◌≡◌, ◌≢◌, ◌↔◌, ◌⊎◌, inl, inr, refl, sym, subst, Bool, true, false, arith, ◌==◌,
  ◌||◌, List, [], ◌∷◌, Bool-cases,
}
use jamiga_jamvm.Cast.Classes.{ClassBlock, any_interface, implements, is_sub_class_of}

-- `test` is `class` or a subclass of it.
pub data IsSubclass (class_cb : ℕ → ClassBlock) (class : ℕ) : ℕ → Type 0 where
  same : IsSubclass class_cb class class
  inherits :
      (test : ℕ)
      → test ≢ 0
      → IsSubclass class_cb class (class_cb test).super
      → IsSubclass class_cb class test

-- `i` is one of the interfaces.
pub data IsListed (i : ℕ) : List ℕ → Type 0 where
  here : (is : List ℕ) → IsListed i (i ∷ is)
  there : (j : ℕ) (is : List ℕ) → IsListed i is → IsListed i (j ∷ is)

-- `test` implements the interface `class`: it declares it, or an interface that it declares extends it,
-- or its superclass implements it.
pub data Implements (class_cb : ℕ → ClassBlock) (class : ℕ) : ℕ → Type 0 where
  declares : (test : ℕ) → IsListed class (class_cb test).interfaces → Implements class_cb class test
  extends :
      (test i : ℕ)
      → IsListed i (class_cb test).interfaces
      → Implements class_cb class i
      → Implements class_cb class test
  inherits :
      (test : ℕ)
      → (class_cb test).super ≢ 0
      → Implements class_cb class (class_cb test).super
      → Implements class_cb class test

-- The rank of a class is above those of its superclass and its interfaces.
pub record IsRanked (class_cb : ℕ → ClassBlock) (rank : ℕ → ℕ) : Type 0 where
  pub super : (c : ℕ) → (class_cb c).super ≢ 0 → rank (class_cb c).super < rank c
  pub listed : (c i : ℕ) → IsListed i (class_cb c).interfaces → rank i < rank c

any_interface_sound :
    (via : ℕ → Bool) (class : ℕ) (is : List ℕ)
    → any_interface via class is ≡ true
    → (i : ℕ) × IsListed i is × ((class ≡ i) ⊎ (via i ≡ true))
any_interface_sound via class [] h = ground (arith, h)
any_interface_sound via class (i ∷ is) h = elim (Bool-cases (class == i)) [
  | inl q ↦ (i, here is, inl (ground arith))
  | inr q ↦ elim (Bool-cases (via i)) [
    | inl v ↦ (i, here is, inr v)
    | inr v ↦
        let (j, l, w) = any_interface_sound via class is (ground (arith, h, q, v)) in
        (j, there i is l, w)
  ]
]

any_interface_complete :
    (via : ℕ → Bool) (class i : ℕ) (is : List ℕ)
    → IsListed i is
    → (class == i || via i) ≡ true
    → any_interface via class is ≡ true
any_interface_complete via class i [] l h = elim l [ ]
any_interface_complete via class i (_ ∷ _) (here is) h = rw h refl
any_interface_complete via class i (_ ∷ _) (there j is l) h =
    let rest = any_interface_complete via class i is l h in ground (arith, rest)

module _ (class_cb : ℕ → ClassBlock) (class : ℕ) where
  sub_class_sound :
      (fuel test : ℕ)
      → is_sub_class_of class_cb fuel class test ≡ true
      → IsSubclass class_cb class test
  unfolding is_sub_class_of
  sub_class_sound zero test h = ground (arith, h)
  sub_class_sound (suc fuel) test h = elim (Bool-cases (test == 0)) [
    | inl z ↦ ground (arith, h, z)
    | inr z ↦ elim (Bool-cases (test == class)) [
      | inl q ↦ let e : class ≡ test = ground arith in subst (IsSubclass class_cb class) e same
      | inr q ↦
          inherits test (ground arith)
            (sub_class_sound fuel (class_cb test).super (ground (arith, h, z, q)))
    ]
  ]

  null_is_none : (test : ℕ) → class ≢ 0 → test ≡ 0 → IsSubclass class_cb class test → ⊥
  null_is_none _ n z same = n z
  null_is_none _ n z (inherits test m s) = m z

  module _ (rank : ℕ → ℕ) (r : IsRanked class_cb rank) where
    sub_class_complete :
        (fuel test : ℕ)
        → class ≢ 0
        → rank test < fuel
        → IsSubclass class_cb class test
        → is_sub_class_of class_cb fuel class test ≡ true
    unfolding is_sub_class_of
    sub_class_complete zero test n f s = absurd (omega (arith, f))
    sub_class_complete (suc fuel) _ n f same =
        let a : (class == 0) ≡ false = ground (arith, n) in
        let b : (class == class) ≡ true = ground arith in rw (a, b) refl
    sub_class_complete (suc fuel) _ n f (inherits test m s) =
        let a : (test == 0) ≡ false = ground (arith, m) in
        let up = (class_cb test).super in
        let rest : is_sub_class_of class_cb fuel class up ≡ true = elim (Bool-cases (up == 0)) [
          | inl z ↦ absurd (null_is_none up n (ground arith) s)
          | inr z ↦
              let lower = r.super test (ground arith) in
              sub_class_complete fuel up n (omega (arith, lower, f)) s
        ] in
        rw (a, rest) (ground arith)

    -- isSubClassOf decides the subclass relation; the rank of the class bounds the rounds.
    pub is_sub_class_of-IsSubclass :
        (fuel test : ℕ)
        → class ≢ 0
        → rank test < fuel
        → (is_sub_class_of class_cb fuel class test ≡ true) ↔ IsSubclass class_cb class test
    is_sub_class_of-IsSubclass fuel test n f =
        (sub_class_sound fuel test, sub_class_complete fuel test n f)

  implements_sound :
      (fuel test : ℕ) → implements class_cb fuel class test ≡ true → Implements class_cb class test
  unfolding implements
  implements_sound zero test h = ground (arith, h)
  implements_sound (suc fuel) test h =
      let via = implements class_cb fuel class in
      let cb = class_cb test in
      elim (Bool-cases (any_interface via class cb.interfaces)) [
        | inl a ↦
            let (i, l, w) = any_interface_sound via class cb.interfaces a in
            elim w [
              | inl e ↦ declares test (subst (λ x. IsListed x cb.interfaces) (sym e) l)
              | inr v ↦ extends test i l (implements_sound fuel i v)
            ]
        | inr a ↦ elim (Bool-cases (cb.super == 0)) [
          | inl z ↦ ground (arith, h, a, z)
          | inr z ↦
              inherits test (ground arith)
                (implements_sound fuel cb.super (ground (arith, h, a, z)))
        ]
      ]

  module _ (rank : ℕ → ℕ) (r : IsRanked class_cb rank) where
    implements_complete :
        (fuel test : ℕ)
        → rank test < fuel
        → Implements class_cb class test
        → implements class_cb fuel class test ≡ true
    unfolding implements
    implements_complete zero test f s = absurd (omega (arith, f))
    implements_complete (suc fuel) _ f (declares test l) =
        let via = implements class_cb fuel class in
        let a =
          any_interface_complete via class class (class_cb test).interfaces l (ground arith) in
        rw a refl
    implements_complete (suc fuel) _ f (extends test i l s) =
        let via = implements class_cb fuel class in
        let lower = r.listed test i l in
        let v = implements_complete fuel i (omega (arith, lower, f)) s in
        let a =
          any_interface_complete via class i (class_cb test).interfaces l (ground (arith, v)) in
        rw a refl
    implements_complete (suc fuel) _ f (inherits test m s) =
        let via = implements class_cb fuel class in
        let up = (class_cb test).super in
        let lower = r.super test m in
        let v = implements_complete fuel up (omega (arith, lower, f)) s in
        let z : (up == 0) ≡ false = ground (arith, m) in rw (z, v) (ground arith)

    -- implements decides whether a class implements an interface.
    pub implements-Implements :
        (fuel test : ℕ)
        → rank test < fuel
        → (implements class_cb fuel class test ≡ true) ↔ Implements class_cb class test
    implements-Implements fuel test f =
        (implements_sound fuel test, implements_complete fuel test f)
