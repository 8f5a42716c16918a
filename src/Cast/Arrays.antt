-- ===== src/Cast/Arrays.antt =====
-- arrayStoreCheck of src/cast.c is isInstanceOf for the component class of the array.
use jamiga_jamvm.Base.{
  ℕ, zero, suc, ◌+◌, ◌<◌, ◌≡◌, inl, inr, refl, sym, ap, subst, ◌∙◌, true, false, arith, ltb, ◌==◌,
  if◌then◌else◌, List, Bool-cases,
}
use jamiga_jamvm.Cast.Classes.{ClassBlock, is_interface, is_array, implements, is_sub_class_of}
use jamiga_jamvm.Cast.Instance.{
  is_inst_of_array0, is_inst_of_array, is_instance_of, array_store_check,
}

module _ (class_cb : ℕ → ClassBlock) where
  -- What createArray and linkClass see to: all array classes have the same superclass and interfaces and
  -- are no interfaces, elements are no arrays, and no class has an array class above it.
  pub record HasArrays (object : ℕ) (interfaces : List ℕ) : Type 0 where
    pub super : (a : ℕ) → is_array (class_cb a) ≡ true → (class_cb a).super ≡ object
    pub listed : (a : ℕ) → is_array (class_cb a) ≡ true → (class_cb a).interfaces ≡ interfaces
    pub concrete : (a : ℕ) → is_array (class_cb a) ≡ true → is_interface (class_cb a) ≡ false
    pub element :
        (a : ℕ)
        → is_array (class_cb a) ≡ true
        → is_array (class_cb (class_cb a).element_class) ≡ false
    pub positive : (a : ℕ) → is_array (class_cb a) ≡ true → 0 < (class_cb a).dim
    pub above : (c : ℕ) → is_array (class_cb (class_cb c).super) ≡ false

  -- The array class `array` has the component class `component`.
  pub record IsArrayOf (array component : ℕ) : Type 0 where
    pub array_class : is_array (class_cb array) ≡ true
    pub element :
        (class_cb array).element_class
        ≡ (if is_array (class_cb component) then (class_cb component).element_class else component)
    pub dim :
        (class_cb array).dim
        ≡ (if is_array (class_cb component) then (class_cb component).dim + 1 else 1)

  -- An array class is no other class.
  differ :
      (a b : ℕ) → is_array (class_cb a) ≡ false → is_array (class_cb b) ≡ true → (a == b) ≡ false
  differ a b p q = elim (Bool-cases (a == b)) [
    | inl e ↦
        let same : a ≡ b = ground arith in
        let both = sym p ∙ ap (λ x. is_array (class_cb x)) same ∙ q in ground (arith, both)
    | inr e ↦ e
  ]

  module _ (object : ℕ) (interfaces : List ℕ) (h : HasArrays object interfaces) where
    -- All array classes implement the same interfaces.
    implements-alike :
        (fuel class a b : ℕ)
        → is_array (class_cb a) ≡ true
        → is_array (class_cb b) ≡ true
        → implements class_cb fuel class a ≡ implements class_cb fuel class b
    unfolding implements
    implements-alike zero class a b p q = refl
    implements-alike (suc f) class a b p q =
        rw (h.listed a p, h.listed b q, h.super a p, h.super b q) refl

    not_sub_class :
        (f class test : ℕ)
        → is_array (class_cb class) ≡ true
        → is_array (class_cb test) ≡ false
        → is_sub_class_of class_cb f class test ≡ false
    unfolding is_sub_class_of
    not_sub_class zero class test p q = refl
    not_sub_class (suc f) class test p q =
        let rest = not_sub_class f class (class_cb test).super p (h.above test) in
        elim (Bool-cases (test == class)) [
          | inl e ↦
              let same : test ≡ class = ground arith in
              ground (arith, ap (λ x. is_array (class_cb x)) same, p, q)
          | inr e ↦ rw (e, rest) (ground arith)
        ]

    -- isInstanceOf and isInstOfArray0 call each other at most so often.
    pub is_instance_of_settles :
        (fuel k m class test : ℕ)
        → is_instance_of class_cb fuel (suc (suc (suc (suc k)))) class test
          ≡ is_instance_of class_cb fuel (suc (suc (suc (suc m)))) class test
    unfolding is_inst_of_array0 is_inst_of_array is_instance_of
    is_instance_of_settles fuel k m class test = elim (Bool-cases (is_array (class_cb test))) [
      | inl t ↦ let u = h.element test t in rw (t, u) refl
      | inr t ↦ rw t refl
    ]

    module _ (fuel k array component test : ℕ) (a : IsArrayOf array component) where
      -- The component is no array, and neither is the class of the object.
      flat_flat :
          is_array (class_cb component) ≡ false
          → is_array (class_cb test) ≡ false
          → array_store_check class_cb fuel (suc (suc k)) array test
            ≡ is_instance_of class_cb fuel (suc (suc (suc (suc k)))) component test
      unfolding array_store_check is_inst_of_array0 is_instance_of
      flat_flat c t =
          let e : (class_cb array).element_class ≡ component = a.element ∙ rw c refl in
          let d : (class_cb array).dim ≡ 1 = a.dim ∙ rw c refl in rw (t, d, e) refl

      flat_array :
          is_array (class_cb component) ≡ false
          → is_array (class_cb test) ≡ true
          → array_store_check class_cb fuel (suc (suc k)) array test
            ≡ is_instance_of class_cb fuel (suc (suc (suc (suc k)))) component test
      unfolding array_store_check is_inst_of_array0 is_inst_of_array is_instance_of
      flat_array c t =
          let e : (class_cb array).element_class ≡ component = a.element ∙ rw c refl in
          let d : (class_cb array).dim ≡ 1 = a.dim ∙ rw c refl in
          let s = h.super array a.array_class ∙ sym (h.super test t) in
          let i = implements-alike fuel component array test a.array_class t in
          let p = h.positive test t in
          let n : (component == test) ≡ false = differ component test c t in
          let n1 : ((class_cb test).dim + 1 == 1) ≡ false = ground (arith, p) in
          let n2 : ltb 1 ((class_cb test).dim + 1) ≡ true = ground (arith, p) in
          rw (t, d, e, n1, n2, n, c, i, s) refl

      deep_flat :
          is_array (class_cb component) ≡ true
          → is_array (class_cb test) ≡ false
          → array_store_check class_cb fuel (suc (suc k)) array test
            ≡ is_instance_of class_cb fuel (suc (suc (suc (suc k)))) component test
      unfolding array_store_check is_inst_of_array0 is_instance_of
      deep_flat c t =
          let d : (class_cb array).dim ≡ (class_cb component).dim + 1 = a.dim ∙ rw c refl in
          let p = h.positive component c in
          let n1 : (1 == (class_cb component).dim + 1) ≡ false = ground (arith, p) in
          let n2 : ltb ((class_cb component).dim + 1) 1 ≡ false = ground (arith, p) in
          let n : (component == test) ≡ false =
            let m = differ test component t c in ground (arith, m) in
          let i = h.concrete component c in
          let u = not_sub_class fuel component test c t in rw (t, d, n1, n2, n, i, u) refl

      -- The object has the component class itself.
      own_component :
          is_array (class_cb component) ≡ true
          → array_store_check class_cb fuel (suc (suc k)) array component
            ≡ is_instance_of class_cb fuel (suc (suc (suc (suc k)))) component component
      unfolding array_store_check is_inst_of_array0 is_instance_of
      own_component c =
          let elem = (class_cb component).element_class in
          let e : (class_cb array).element_class ≡ elem = a.element ∙ rw c refl in
          let d : (class_cb array).dim ≡ (class_cb component).dim + 1 = a.dim ∙ rw c refl in
          let q : ((class_cb component).dim + 1 == (class_cb component).dim + 1) ≡ true =
            ground arith in
          let r : (elem == elem) ≡ true = ground arith in
          let w : (component == component) ≡ true = ground arith in rw (c, d, q, e, r, w) refl

      deep_array :
          is_array (class_cb component) ≡ true
          → is_array (class_cb test) ≡ true
          → array_store_check class_cb fuel (suc (suc k)) array test
            ≡ is_instance_of class_cb fuel (suc (suc (suc (suc k)))) component test
      unfolding array_store_check is_inst_of_array0 is_inst_of_array is_instance_of
      deep_array c t =
          let e : (class_cb array).element_class ≡ (class_cb component).element_class =
            a.element ∙ rw c refl in
          let d : (class_cb array).dim ≡ (class_cb component).dim + 1 = a.dim ∙ rw c refl in
          let s = h.super array a.array_class ∙ sym (h.super component c) in
          let i =
            implements-alike fuel (class_cb component).element_class array component a.array_class
              c in
          let n = h.concrete component c in
          let q1 : ((class_cb test).dim + 1 == (class_cb component).dim + 1)
              ≡ ((class_cb test).dim == (class_cb component).dim) =
            ground arith in
          let q2 : ltb ((class_cb component).dim + 1) ((class_cb test).dim + 1)
              ≡ ltb (class_cb component).dim (class_cb test).dim =
            ground arith in
          elim (Bool-cases (component == test)) [
            | inl same ↦
                let eq : component ≡ test = ground arith in
                subst
                  (λ x.
                    array_store_check class_cb fuel (suc (suc k)) array x
                    ≡ is_instance_of class_cb fuel (suc (suc (suc (suc k)))) component x)
                  eq (own_component c)
            | inr other ↦ rw (t, d, e, q1, q2, n, other, c, s, i) refl
          ]

      -- An object of class `test` may be stored into the array exactly where isInstanceOf holds for the
      -- array's component class.
      pub array_store_check-is_instance_of :
          array_store_check class_cb fuel (suc (suc k)) array test
          ≡ is_instance_of class_cb fuel (suc (suc (suc (suc k)))) component test
      array_store_check-is_instance_of = elim (Bool-cases (is_array (class_cb component))) [
        | inl c ↦ elim (Bool-cases (is_array (class_cb test))) [
          | inl t ↦ deep_array c t
          | inr t ↦ deep_flat c t
        ]
        | inr c ↦ elim (Bool-cases (is_array (class_cb test))) [
          | inl t ↦ flat_array c t
          | inr t ↦ flat_flat c t
        ]
      ]
