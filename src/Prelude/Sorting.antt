-- ===== src/Prelude/Sorting.antt =====
-- Sorting by a Boolean test, as Go's `slices.Sort` and `slices.SortFunc` do where equal elements are
-- the same: the result is then determined, and insertion gives it.
use mathlib.Core.Path.{◌≡◌, refl, sym, subst, ap, ap₂, ◌∙◌}
use mathlib.Core.Logic.{inl, inr}
use mathlib.Core.Bool.{Bool, true, false}
use mathlib.Core.List.{Permᴰ, List, [], ◌∷◌, map}
use bluebottle.Prelude.Tests.{if◌then◌else◌, Bool-cases}

module _ {ℓ} {A : Type ℓ} (leq : A → A → Bool) where
  unfoldable pub insert : A → List A → List A
  insert x [] = x ∷ []
  insert x (y ∷ ys) = let rest = insert x ys in if leq x y then x ∷ y ∷ ys else y ∷ rest

  unfoldable pub sort : List A → List A
  unfolding insert
  sort [] = []
  sort (x ∷ xs) = insert x (sort xs)

  -- The test is that of a linear order.
  pub record IsLinear : Type ℓ where
    pub total : (x y : A) → leq x y ≡ false → leq y x ≡ true
    pub antisym : (x y : A) → leq x y ≡ true → leq y x ≡ true → x ≡ y
    pub trans : (x y z : A) → leq x y ≡ true → leq y z ≡ true → leq x z ≡ true

  insert-nil : (x : A) → insert x [] ≡ x ∷ []
  unfolding insert
  insert-nil x = refl

  insert-here : (x y : A) (l : List A) → leq x y ≡ true → insert x (y ∷ l) ≡ x ∷ y ∷ l
  unfolding insert
  insert-here x y l h = rw (h) refl

  insert-later : (x y : A) (l : List A) → leq x y ≡ false → insert x (y ∷ l) ≡ y ∷ insert x l
  unfolding insert
  insert-later x y l h = rw (h) refl

  module _ (o : IsLinear) where
    leq_refl : (x : A) → leq x x ≡ true
    leq_refl x = elim (Bool-cases (leq x x)) [ inl e ↦ e | inr e ↦ o.total x x e ]

    insert-ordered :
        (x y : A) (l : List A)
        → leq x y ≡ true
        → leq y x ≡ false
        → insert x (insert y l) ≡ insert y (insert x l)
    insert-ordered x y [] h k =
        ap (insert x) (insert-nil y)
        ∙ insert-here x y [] h
        ∙ sym
            (ap (insert y) (insert-nil x) ∙ insert-later y x [] k ∙ ap (λ t. x ∷ t) (insert-nil y))
    insert-ordered x y (z ∷ l) h k =
        let rest = insert-ordered x y l h k in
        elim (Bool-cases (leq y z)) [
          | inl yz ↦
              let xz = o.trans x y z h yz in
              ap (insert x) (insert-here y z l yz)
              ∙ insert-here x y (z ∷ l) h
              ∙ sym (
                  ap (insert y) (insert-here x z l xz)
                  ∙ insert-later y x (z ∷ l) k
                  ∙ ap (λ t. x ∷ t) (insert-here y z l yz))
          | inr zy ↦ elim (Bool-cases (leq x z)) [
            | inl xz ↦
                ap (insert x) (insert-later y z l zy)
                ∙ insert-here x z (insert y l) xz
                ∙ sym (
                    ap (insert y) (insert-here x z l xz)
                    ∙ insert-later y x (z ∷ l) k
                    ∙ ap (λ t. x ∷ t) (insert-later y z l zy))
            | inr zx ↦
                ap (insert x) (insert-later y z l zy)
                ∙ insert-later x z (insert y l) zx
                ∙ ap (λ t. z ∷ t) rest
                ∙ sym (ap (insert y) (insert-later x z l zx) ∙ insert-later y z (insert x l) zy)
          ]
        ]

    insert-swap : (x y : A) (l : List A) → insert x (insert y l) ≡ insert y (insert x l)
    insert-swap x y l = elim (Bool-cases (leq x y)) [
      | inr n ↦ sym (insert-ordered y x l (o.total x y n) n)
      | inl h ↦ elim (Bool-cases (leq y x)) [
        | inr k ↦ insert-ordered x y l h k
        | inl k ↦
            let e = o.antisym x y h k in
            ap (λ t. insert t (insert y l)) e ∙ ap (λ t. insert y (insert t l)) (sym e)
      ]
    ]

    -- Sorting does not see the order of its argument.
    pub sort-perm : {xs ys : List A} → Permᴰ xs ys → sort xs ≡ sort ys
    unfolding sort
    sort-perm Permᴰ.nil = refl
    sort-perm (Permᴰ.cons {a} {l₁ = xs} {l₂ = ys} e r) = ap₂ insert e (sort-perm r)
    sort-perm (Permᴰ.swap {a} {b} {l} e e') =
        insert-swap a b (sort l) ∙ ap₂ (λ x y. insert x (insert y (sort l))) e' e
    sort-perm (Permᴰ.trans r s) = sort-perm r ∙ sort-perm s

    abbrev pub Least : A → List A → Type 0
    Least x [] = Unit
    Least x (y ∷ l) = leq x y ≡ true

    abbrev pub IsSorted : List A → Type 0
    IsSorted [] = Unit
    IsSorted (x ∷ l) = Least x l × IsSorted l

    Least-insert : (z x : A) (l : List A) → leq z x ≡ true → Least z l → Least z (insert x l)
    Least-insert z x [] h k = subst (Least z) (sym (insert-nil x)) h
    Least-insert z x (y ∷ l) h k = elim (Bool-cases (leq x y)) [
      | inl e ↦ subst (Least z) (sym (insert-here x y l e)) h
      | inr e ↦ subst (Least z) (sym (insert-later x y l e)) k
    ]

    insert-IsSorted : (x : A) (l : List A) → IsSorted l → IsSorted (insert x l)
    insert-IsSorted x [] s = subst IsSorted (sym (insert-nil x)) (tt, tt)
    insert-IsSorted x (y ∷ l) (k, s) =
        let rest = insert-IsSorted x l s in
        elim (Bool-cases (leq x y)) [
          | inl e ↦ subst IsSorted (sym (insert-here x y l e)) (e, (k, s))
          | inr e ↦
              subst IsSorted (sym (insert-later x y l e))
                (Least-insert y x l (o.total x y e) k, rest)
        ]

    pub sort-IsSorted : (l : List A) → IsSorted (sort l)
    unfolding sort
    sort-IsSorted [] = tt
    sort-IsSorted (x ∷ l) = insert-IsSorted x (sort l) (sort-IsSorted l)

    insert-Least : (x : A) (l : List A) → Least x l → insert x l ≡ x ∷ l
    insert-Least x [] h = insert-nil x
    insert-Least x (y ∷ l) h = insert-here x y l h

    -- A map that keeps the order goes through sorting.
    module _ (f : A → A) (mono : (x y : A) → leq x y ≡ true → leq (f x) (f y) ≡ true) where
      Least-map : (x : A) (l : List A) → Least x l → Least (f x) (map f l)
      Least-map x [] h = tt
      Least-map x (y ∷ l) h = mono x y h

      map-insert : (x : A) (l : List A) → IsSorted l → map f (insert x l) ≡ insert (f x) (map f l)
      map-insert x [] s = ap (map f) (insert-nil x) ∙ sym (insert-nil (f x))
      map-insert x (y ∷ l) (k, s) =
          let rest = map-insert x l s in
          elim (Bool-cases (leq x y)) [
            | inl e ↦
                ap (map f) (insert-here x y l e)
                ∙ sym (insert-here (f x) (f y) (map f l) (mono x y e))
            | inr e ↦
                ap (map f) (insert-later x y l e)
                ∙ ap (λ t. f y ∷ t) rest
                ∙ elim (Bool-cases (leq (f x) (f y))) [
                  | inr n ↦ sym (insert-later (f x) (f y) (map f l) n)
                  | inl p ↦
                      let q = o.antisym (f x) (f y) p (mono y x (o.total x y e)) in
                      ap (λ t. f y ∷ insert t (map f l)) q
                      ∙ ap (λ t. f y ∷ t) (insert-Least (f y) (map f l) (Least-map y l k))
                      ∙ ap (λ t. t ∷ f y ∷ map f l) (sym q)
                      ∙ sym (insert-here (f x) (f y) (map f l) p)
                ]
          ]

      pub map-sort : (l : List A) → map f (sort l) ≡ sort (map f l)
      unfolding sort
      map-sort [] = refl
      map-sort (x ∷ l) = map-insert x (sort l) (sort-IsSorted l) ∙ ap (insert (f x)) (map-sort l)
