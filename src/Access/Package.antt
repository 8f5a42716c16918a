-- ===== src/Access/Package.antt =====
-- Runtime packages of src/access.c in terms of package names.
use jamiga_jamvm.Base.{
  ℕ, ◌≡◌, ◌≢◌, ◌↔◌, inl, inr, refl, sym, ap, ap₂, subst, ◌∙◌, true, false, arith, ◌==◌,
  if◌then◌else◌, List, [], ◌∷◌, Bool-cases,
}
use jamiga_jamvm.Access.Check.{
  ClassBlock, has_slash, is_same_package, named_class, is_same_runtime_package,
}

-- A name up to its last slash.
abbrev pub package_of : List ℕ → List ℕ
package_of [] = []
package_of (c ∷ p) = if has_slash (c ∷ p) then c ∷ package_of p else []

package_of-nil : (p : List ℕ) → has_slash p ≡ false → package_of p ≡ []
package_of-nil [] h = refl
package_of-nil (c ∷ p) h = rw h refl

same_sound :
    (p q : List ℕ)
    → is_same_package p q ≡ true
    → (package_of p ≡ package_of q) × (has_slash p ≡ has_slash q)
same_sound [] q h =
    let n : has_slash q ≡ false = ground (arith, h) in (sym (package_of-nil q n), sym n)
same_sound (c ∷ p) [] h =
    let n : has_slash (c ∷ p) ≡ false = ground (arith, h) in (package_of-nil (c ∷ p) n, n)
same_sound (c ∷ p) (d ∷ q) h = elim (Bool-cases (c == d)) [
  | inl e ↦
      let (packages, slashes) = same_sound p q (ground (arith, h, e)) in
      let same : c ≡ d = ground arith in
      let slashes' = ap (λ b. if c == 0x2f then true else b) slashes in
      subst
        (λ x. (package_of (c ∷ p) ≡ package_of (x ∷ q)) × (has_slash (c ∷ p) ≡ has_slash (x ∷ q)))
        same (ap₂ (λ b l. if b then c ∷ l else []) slashes' packages, slashes')
  | inr e ↦
      let n : has_slash (c ∷ p) ≡ false = ground (arith, h, e) in
      let m : has_slash (d ∷ q) ≡ false = ground (arith, h, e) in
      (package_of-nil (c ∷ p) n ∙ sym (package_of-nil (d ∷ q) m), n ∙ sym m)
]

package_slash : (p : List ℕ) → package_of p ≡ [] → has_slash p ≡ false
package_slash [] h = refl
package_slash (c ∷ p) h = elim (Bool-cases (has_slash (c ∷ p))) [
  | inl s ↦ ground (arith, h, s)
  | inr s ↦ s
]

no_slash_after : (c : ℕ) (p : List ℕ) → has_slash (c ∷ p) ≡ false → has_slash p ≡ false
no_slash_after c p h = ground (arith, h)

abbrev rest_of : List ℕ → List ℕ
rest_of [] = []
rest_of (c ∷ p) = p

cons_not_nil : (c : ℕ) (p : List ℕ) → c ∷ p ≡ [] → ⊥
cons_not_nil c p h = ground (arith, h)

package_cons :
    (c : ℕ) (p : List ℕ) → has_slash (c ∷ p) ≡ true → package_of (c ∷ p) ≡ c ∷ package_of p
package_cons c p s = rw s refl

package_tails :
    (c : ℕ) (p q : List ℕ) → package_of (c ∷ p) ≡ package_of (c ∷ q) → package_of p ≡ package_of q
package_tails c p q h = elim (Bool-cases (has_slash (c ∷ p))) [
  | inl s ↦ elim (Bool-cases (has_slash (c ∷ q))) [
    | inl t ↦ ap rest_of (sym (package_cons c p s) ∙ h ∙ package_cons c q t)
    | inr t ↦
        absurd
          (cons_not_nil c (package_of p) (sym (package_cons c p s) ∙ h ∙ package_of-nil (c ∷ q) t))
  ]
  | inr s ↦
      let t = package_slash (c ∷ q) (sym h ∙ package_of-nil (c ∷ p) s) in
      package_of-nil p (no_slash_after c p s) ∙ sym (package_of-nil q (no_slash_after c q t))
]

package_heads :
    (c d : ℕ) (p q : List ℕ)
    → package_of (c ∷ p) ≡ package_of (d ∷ q)
    → has_slash (c ∷ p) ≡ true
    → c ≡ d
package_heads c d p q h s = elim (Bool-cases (has_slash (d ∷ q))) [
  | inl t ↦ let e = sym (package_cons c p s) ∙ h ∙ package_cons d q t in ground (arith, e)
  | inr t ↦
      absurd
        (cons_not_nil c (package_of p) (sym (package_cons c p s) ∙ h ∙ package_of-nil (d ∷ q) t))
]

same_complete : (p q : List ℕ) → package_of p ≡ package_of q → is_same_package p q ≡ true
same_complete [] q h = let n = package_slash q (sym h) in rw n refl
same_complete (c ∷ p) [] h = let n = package_slash (c ∷ p) h in rw n refl
same_complete (c ∷ p) (d ∷ q) h = elim (Bool-cases (c == d)) [
  | inl e ↦
      let same : d ≡ c = ground arith in
      let tails = package_tails c p q (h ∙ ap (λ x. package_of (x ∷ q)) same) in
      rw e (same_complete p q tails)
  | inr e ↦ elim (Bool-cases (has_slash (c ∷ p))) [
    | inl s ↦ let heads = package_heads c d p q h s in ground (arith, e, heads)
    | inr s ↦ let t = package_slash (d ∷ q) (sym h ∙ package_of-nil (c ∷ p) s) in rw (e, s, t) refl
  ]
]

same_of : (a b : ℕ) → (a == b) ≡ true → a ≡ b
same_of a b h = ground (arith, h)

-- Two different classes of one loader are in the same runtime package exactly where the names that stand for
-- them, those of the elements of array classes, have the same package; classes of different loaders never
-- are.
pub is_same_runtime_package_lem :
    (class_cb : ℕ → ClassBlock) (a b : ℕ)
    → a ≢ b
    → (is_same_runtime_package class_cb a b ≡ true)
      ↔ ((class_cb a).class_loader ≡ (class_cb b).class_loader)
        × (package_of (class_cb (named_class class_cb a)).name
            ≡ package_of (class_cb (named_class class_cb b)).name)
unfolding is_same_runtime_package
is_same_runtime_package_lem class_cb a b n =
    let na = named_class class_cb a in
    let nb = named_class class_cb b in
    let p = (class_cb na).name in
    let q = (class_cb nb).name in
    let differ : (a == b) ≡ false = ground (arith, n) in
    elim (Bool-cases ((class_cb a).class_loader == (class_cb b).class_loader)) [
      | inr l ↦ rw (differ, l) (λ h. ground (arith, h), λ h. ground (arith, l, h.0))
      | inl l ↦ elim (Bool-cases (na == nb)) [
        | inl e ↦
            let names = ap (λ x. package_of (class_cb x).name) (same_of na nb e) in
            rw (differ, l, e) (λ h. (ground arith, names), λ h. refl)
        | inr e ↦
            rw (differ, l, e)
              (λ h. (ground arith, (same_sound p q h).0), λ h. same_complete p q h.1)
      ]
    ]
