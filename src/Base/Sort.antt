-- ===== src/Base/Sort.antt =====
-- Python's `sorted(xs, key=…)` on number keys: stable, and determined by the keys where these differ.
use mathlib.Core.List.Permᴰ
use mathlib.Core.List.{Permᴰ}
use tradeschool.Base.{
  ℕ, ◌≤◌, ◌<◌, ◌≡◌, refl, sym, ap, subst, ◌∙◌, ◌≢◌, List, [], ◌∷◌, arith, leb, if◌then◌else◌, Bool,
  ◌+◌, count_if, Bool-cases, inl, inr, All, All-map_left,
}

module _ {ℓ} {A : Type ℓ} (key : A → ℕ) where
  -- Before the first element whose key is not smaller: equal keys keep their order.
  pub insert_by : A → List A → List A
  insert_by a [] = a ∷ []
  insert_by a (x ∷ xs) = if leb (key a) (key x) then a ∷ x ∷ xs else x ∷ insert_by a xs

  unfoldable pub sort_by : List A → List A
  unfolding insert_by
  sort_by [] = []
  sort_by (x ∷ xs) = insert_by x (sort_by xs)

  abbrev pub IsSorted : List A → Type 0
  IsSorted [] = Unit
  IsSorted (x ∷ xs) = All (λ y. key x ≤ key y) xs × IsSorted xs

  -- No two elements have the same key.
  abbrev pub DistinctKeys : List A → Type 0
  DistinctKeys [] = Unit
  DistinctKeys (x ∷ xs) = All (λ y. key x ≢ key y) xs × DistinctKeys xs

  -- The keys grow along the list.
  abbrev pub IsAscending : List A → Type 0
  IsAscending [] = Unit
  IsAscending (x ∷ xs) = All (λ y. key x < key y) xs × IsAscending xs

  insert_by-perm : (a : A) (xs : List A) → Permᴰ (insert_by a xs) (a ∷ xs)
  unfolding insert_by
  insert_by-perm a [] = Permᴰ.cons refl Permᴰ.nil
  insert_by-perm a (x ∷ xs) = elim (Bool-cases (leb (key a) (key x))) [
    | inl e ↦ rw e (Permᴰ.refl (a ∷ x ∷ xs))
    | inr e ↦ rw e (Permᴰ.trans (Permᴰ.cons refl (insert_by-perm a xs)) (Permᴰ.swap refl refl))
  ]

  -- Sorting loses and adds nothing.
  pub sort_by-perm : (xs : List A) → Permᴰ (sort_by xs) xs
  unfolding sort_by
  sort_by-perm [] = Permᴰ.nil
  sort_by-perm (x ∷ xs) =
      Permᴰ.trans (insert_by-perm x (sort_by xs)) (Permᴰ.cons refl (sort_by-perm xs))

  insert_by-All : (P : A → Type 0) (a : A) (xs : List A) → P a → All P xs → All P (insert_by a xs)
  unfolding insert_by
  insert_by-All P a [] p h = (p, tt)
  insert_by-All P a (x ∷ xs) p h = elim (Bool-cases (leb (key a) (key x))) [
    | inl e ↦ rw e (p, h)
    | inr e ↦ rw e (h.0, insert_by-All P a xs p h.1)
  ]

  insert_by-IsSorted : (a : A) (xs : List A) → IsSorted xs → IsSorted (insert_by a xs)
  unfolding insert_by
  insert_by-IsSorted a [] h = (tt, tt)
  insert_by-IsSorted a (x ∷ xs) h = elim (Bool-cases (leb (key a) (key x))) [
    | inl e ↦
        let le : key a ≤ key x = ground arith in
        rw e (
          (le, All-map_left (λ y. key x ≤ key y) (λ y. key a ≤ key y) xs (λ y k. omega arith) h.0),
          h,
        )
    | inr e ↦
        rw e
          (insert_by-All (λ y. key x ≤ key y) a xs (ground arith) h.0, insert_by-IsSorted a xs h.1)
  ]

  pub sort_by-All : (P : A → Type 0) (xs : List A) → All P xs → All P (sort_by xs)
  unfolding sort_by
  sort_by-All P [] h = tt
  sort_by-All P (x ∷ xs) h = insert_by-All P x (sort_by xs) h.0 (sort_by-All P xs h.1)

  pub sort_by-IsSorted : (xs : List A) → IsSorted (sort_by xs)
  unfolding sort_by
  sort_by-IsSorted [] = tt
  sort_by-IsSorted (x ∷ xs) = insert_by-IsSorted x (sort_by xs) (sort_by-IsSorted xs)

  insert_by_comm :
      (a b : A) (xs : List A)
      → key a ≢ key b
      → insert_by a (insert_by b xs) ≡ insert_by b (insert_by a xs)
  unfolding insert_by
  insert_by_comm a b [] h = ground arith
  insert_by_comm a b (x ∷ xs) h = ground (arith, insert_by_comm a b xs h)

  insert_by-ascending :
      (a : A) (xs : List A) → All (λ y. key a < key y) xs → insert_by a xs ≡ a ∷ xs
  unfolding insert_by
  insert_by-ascending a [] h = refl
  insert_by-ascending a (x ∷ xs) h = ground (arith, h.0)

  -- What is in order stays as it is.
  pub sort_by-ascending : (xs : List A) → IsAscending xs → sort_by xs ≡ xs
  unfolding sort_by
  sort_by-ascending [] h = refl
  sort_by-ascending (x ∷ xs) h =
      ap (insert_by x) (sort_by-ascending xs h.1) ∙ insert_by-ascending x xs h.0

  perm-All : (P : A → Type 0) {xs ys : List A} → Permᴰ xs ys → All P xs → All P ys
  perm-All P Permᴰ.nil h = tt
  perm-All P (Permᴰ.cons e p) h = (subst P e h.0, perm-All P p h.1)
  perm-All P (Permᴰ.swap e f) h = (subst P f h.1.0, (subst P e h.0, h.1.1))
  perm-All P (Permᴰ.trans p q) h = perm-All P q (perm-All P p h)

  pub perm-DistinctKeys : {xs ys : List A} → Permᴰ xs ys → DistinctKeys xs → DistinctKeys ys
  perm-DistinctKeys Permᴰ.nil h = tt
  perm-DistinctKeys (Permᴰ.cons {a} {b} {l₁} {l₂} e p) h = (
    perm-All (λ y. key b ≢ key y) p (subst (λ c. All (λ y. key c ≢ key y) l₁) e h.0),
    perm-DistinctKeys p h.1,
  )
  perm-DistinctKeys (Permᴰ.swap {a} {b} {a'} {b'} {l} e f) h = (
    (
      (λ k. h.0.0 (ap key e ∙ sym k ∙ ap key (sym f))),
      subst (λ c. All (λ y. key c ≢ key y) l) f h.1.0,
    ),
    (subst (λ c. All (λ y. key c ≢ key y) l) e h.0.1, h.1.1),
  )
  perm-DistinctKeys (Permᴰ.trans p q) h = perm-DistinctKeys q (perm-DistinctKeys p h)

  -- With distinct keys the result does not depend on the order of what is sorted.
  pub sort_by-eq_of_perm :
      {xs ys : List A} → Permᴰ xs ys → DistinctKeys xs → sort_by xs ≡ sort_by ys
  unfolding sort_by
  sort_by-eq_of_perm Permᴰ.nil h = refl
  sort_by-eq_of_perm (Permᴰ.cons e p) h = cc (sort_by-eq_of_perm p h.1)
  sort_by-eq_of_perm (Permᴰ.swap {a} {b} {a'} {b'} {l} e f) h =
      insert_by_comm a b (sort_by l) h.0.0 ∙ cc
  sort_by-eq_of_perm (Permᴰ.trans p q) h =
      sort_by-eq_of_perm p h ∙ sort_by-eq_of_perm q (perm-DistinctKeys p h)

-- What is counted in a list is counted in the sorted list.
module _ {ℓ} {A : Type ℓ} (key : A → ℕ) (test : A → Bool) where
  count_if-insert_by :
      (a : A) (xs : List A)
      → count_if test (insert_by key a xs) ≡ (if test a then 1 else 0) + count_if test xs
  unfolding insert_by
  count_if-insert_by a [] = refl
  count_if-insert_by a (x ∷ xs) = ground (arith, count_if-insert_by a xs)

  pub count_if-sort_by : (xs : List A) → count_if test (sort_by key xs) ≡ count_if test xs
  unfolding sort_by
  count_if-sort_by [] = refl
  count_if-sort_by (x ∷ xs) =
      omega (arith, count_if-insert_by x (sort_by key xs), count_if-sort_by xs)
