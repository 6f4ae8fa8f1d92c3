-- ===== src/Base/Counts.antt =====
-- Counts of the rows that pass a test, for "at most one row", and what the first that is found satisfies.
use Prim.Native.Nat.{◌≤◌}
use mathlib.Core.Path.{◌≡◌, refl, subst}
use mathlib.Core.Logic.{inl, inr}
use mathlib.Core.Bool.{Bool, true, false, not}
use mathlib.Core.Option.{none, some}
use mathlib.Core.List.{List, [], ◌∷◌, ◌++◌, map}
use native.Mathlib.Omega.{arith}
use tradeschool.Base.Tests.{Bool-cases}
use tradeschool.Base.Lists.{All, All-map_left, find, select, count_if}

module _ {ℓ} {A : Type ℓ} where
  pub count_if-implies :
      (test other : A → Bool) (xs : List A)
      → All (λ x. test x ≡ true → other x ≡ true) xs
      → count_if test xs ≤ count_if other xs
  count_if-implies test other [] h = omega arith
  count_if-implies test other (x ∷ xs) h = ground (arith, h.0, count_if-implies test other xs h.1)

  pub count_if-map_narrow :
      (test : A → Bool) (f : A → A) (xs : List A)
      → All (λ x. test (f x) ≡ true → test x ≡ true) xs
      → count_if test (map f xs) ≤ count_if test xs
  count_if-map_narrow test f [] h = omega arith
  count_if-map_narrow test f (x ∷ xs) h = ground (arith, h.0, count_if-map_narrow test f xs h.1)

  pub count_if-map_eq :
      (test : A → Bool) (f : A → A) (xs : List A)
      → ((x : A) → test (f x) ≡ test x)
      → count_if test (map f xs) ≡ count_if test xs
  count_if-map_eq test f [] h = refl
  count_if-map_eq test f (x ∷ xs) h = ground (arith, h x, count_if-map_eq test f xs h)

  pub count_if-map_into :
      (test other : A → Bool) (f : A → A) (xs : List A)
      → All (λ x. test (f x) ≡ true → other x ≡ true) xs
      → count_if test (map f xs) ≤ count_if other xs
  count_if-map_into test other f [] h = omega arith
  count_if-map_into test other f (x ∷ xs) h =
      ground (arith, h.0, count_if-map_into test other f xs h.1)

  pub count_if_none :
      (test : A → Bool) (xs : List A) → All (λ x. test x ≡ false) xs → count_if test xs ≡ 0
  count_if_none test [] h = refl
  count_if_none test (x ∷ xs) h = ground (arith, h.0, count_if_none test xs h.1)

  pub count_if-zero :
      (test : A → Bool) (xs : List A) → count_if test xs ≡ 0 → All (λ x. test x ≡ false) xs
  count_if-zero test [] h = tt
  count_if-zero test (x ∷ xs) h = (ground (arith, h), count_if-zero test xs (ground (arith, h)))

  pub count_if-select_le :
      (test keep : A → Bool) (xs : List A) → count_if test (select keep xs) ≤ count_if test xs
  count_if-select_le test keep [] = omega arith
  count_if-select_le test keep (x ∷ xs) = ground (arith, count_if-select_le test keep xs)

  pub count_if-select_none :
      (test : A → Bool) (xs : List A) → count_if test (select (λ x. not (test x)) xs) ≡ 0
  count_if-select_none test [] = refl
  count_if-select_none test (x ∷ xs) = ground (arith, count_if-select_none test xs)

  -- Where at most one row passes, the row that is found is that one.
  pub find_only :
      (test : A → Bool) (xs : List A) (a : A)
      → count_if test xs ≤ 1
      → find test xs ≡ some a
      → All (λ x. test x ≡ true → x ≡ a) xs
  find_only test [] a h e = tt
  find_only test (x ∷ xs) a h e = elim (Bool-cases (test x)) [
    | inl t ↦ (
      (λ _. ground (arith, e, t)),
      All-map_left (λ y. test y ≡ false) (λ y. test y ≡ true → y ≡ a) xs (λ y n p. cc)
          (count_if-zero test xs (ground (arith, h, t))),
    )
    | inr t ↦ ((λ p. cc), find_only test xs a (ground (arith, h, t)) (ground (arith, e, t)))
  ]

pub find_All {ℓ} :
    {A : Type ℓ} (P : A → Type 0) (test : A → Bool) (xs : List A) (a : A)
    → All P xs
    → find test xs ≡ some a
    → P a
find_All P test [] a h e = cc
find_All P test (x ∷ xs) a h e = elim (Bool-cases (test x)) [
  | inl t ↦ subst P (cc) h.0
  | inr t ↦ find_All P test xs a h.1 (ground (arith, t))
]

pub All-select {ℓ} :
    {A : Type ℓ} (P : A → Type 0) (keep : A → Bool) (xs : List A)
    → All P (select keep xs)
    → All (λ x. keep x ≡ true → P x) xs
All-select P keep [] h = tt
All-select P keep (x ∷ xs) h = elim (Bool-cases (keep x)) [
  | inl e ↦
      let h' : P x × All P (select keep xs) = ground (arith, h, e) in
      ((λ k. h'.0), All-select P keep xs h'.1)
  | inr e ↦ ((λ k. cc), All-select P keep xs (rw e at h))
]

pub All-select_self {ℓ} :
    {A : Type ℓ} (keep : A → Bool) (xs : List A) → All (λ x. keep x ≡ true) (select keep xs)
All-select_self keep [] = tt
All-select_self keep (x ∷ xs) = ground (arith, All-select_self keep xs)

pub find-append {ℓ} :
    {A : Type ℓ} (test : A → Bool) (xs ys : List A)
    → find test (xs ++ ys) ≡ (elim (find test xs) [ none ↦ find test ys | some a ↦ some a ])
find-append test [] ys = refl
find-append test (x ∷ xs) ys = ground (arith, find-append test xs ys)

-- Where the first row that passes a test is the only one of its mark, it is the first of that mark.
pub find_marked {ℓ} :
    {A : Type ℓ} (test mark : A → Bool) (xs : List A) (a : A)
    → find test xs ≡ some a
    → mark a ≡ true
    → count_if mark xs ≤ 1
    → find mark xs ≡ some a
find_marked test mark [] a h m c = cc
find_marked test mark (x ∷ xs) a h m c = elim (Bool-cases (test x)) [
  | inl t ↦ ground (arith, h, t, m)
  | inr t ↦ elim (Bool-cases (mark x)) [
    | inl e ↦ absurd (
        ground (
          arith,
          m,
          find_All (λ y. mark y ≡ false) test xs a (count_if-zero mark xs (ground (arith, c, e)))
              (ground (arith, h, t)),
        ))
    | inr e ↦ rw e (find_marked test mark xs a (ground (arith, h, t)) m (ground (arith, c, e)))
  ]
]
