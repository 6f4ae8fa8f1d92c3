-- ===== src/Base/Lists.antt =====
-- Lists as the program uses them: comprehensions, scans for the first match, and predicates.
use Prim.Native.Nat.{ℕ, zero, suc, ◌+◌, ◌≤◌}
use Prim.Native.String.{String}
use mathlib.Core.Path.{◌≡◌, refl, sym, ap}
use mathlib.Core.Bool.{Bool, true, false, ◌&&◌, ◌||◌}
use mathlib.Core.Option.{Option, none, some}
use mathlib.Core.List.{List, [], ◌∷◌, ◌++◌, map, append_assoc}
use native.Mathlib.Omega.{arith}
use mathlib.Core.Logic.{inl, inr}
use tradeschool.Base.Tests.{Bool-cases, if◌then◌else◌, str_eq}

module _ {ℓ} {A : Type ℓ} where
  abbrev pub length : List A → ℕ
  length [] = 0
  length (x ∷ xs) = suc (length xs)

  abbrev pub get_elem? : List A → ℕ → Option A
  get_elem? [] i = none
  get_elem? (x ∷ xs) zero = some x
  get_elem? (x ∷ xs) (suc i) = get_elem? xs i

  -- `[x for x in xs if keep(x)]`
  abbrev pub select : (A → Bool) → List A → List A
  select keep [] = []
  select keep (x ∷ xs) = if keep x then x ∷ select keep xs else select keep xs

  -- `next((x for x in xs if test(x)), None)`
  abbrev pub find : (A → Bool) → List A → Option A
  find test [] = none
  find test (x ∷ xs) = if test x then some x else find test xs

  -- `any(test(x) for x in xs)`
  abbrev pub any : (A → Bool) → List A → Bool
  any test [] = false
  any test (x ∷ xs) = test x || any test xs

  -- `all(test(x) for x in xs)`
  abbrev pub all : (A → Bool) → List A → Bool
  all test [] = true
  all test (x ∷ xs) = test x && all test xs

  -- `sum(1 for x in xs if test(x))`
  abbrev pub count_if : (A → Bool) → List A → ℕ
  count_if test [] = 0
  count_if test (x ∷ xs) = (if test x then 1 else 0) + count_if test xs

  abbrev pub All {κ} : (A → Type κ) → List A → Type κ
  All P [] = Unit
  All P (x ∷ xs) = P x × All P xs

  abbrev pub sum_by : (A → ℕ) → List A → ℕ
  sum_by f [] = 0
  sum_by f (x ∷ xs) = f x + sum_by f xs

  pub length-append : (xs ys : List A) → length (xs ++ ys) ≡ length xs + length ys
  length-append [] ys = omega arith
  length-append (x ∷ xs) ys = omega (arith, length-append xs ys)

  pub select-append :
      (keep : A → Bool) (xs ys : List A) → select keep (xs ++ ys) ≡ select keep xs ++ select keep ys
  select-append keep [] ys = refl
  select-append keep (x ∷ xs) ys = ground (arith, select-append keep xs ys)

  pub all-append :
      (test : A → Bool) (xs ys : List A) → all test (xs ++ ys) ≡ (all test xs && all test ys)
  all-append test [] ys = refl
  all-append test (x ∷ xs) ys = ground (arith, all-append test xs ys)

  pub All-append {κ} : (P : A → Type κ) (xs ys : List A) → All P xs → All P ys → All P (xs ++ ys)
  All-append P [] ys h k = k
  All-append P (x ∷ xs) ys h k = (h.0, All-append P xs ys h.1 k)

  pub All-map_left {κ μ} :
      (P : A → Type κ) (Q : A → Type μ) (xs : List A) → ((x : A) → P x → Q x) → All P xs → All Q xs
  All-map_left P Q [] f h = tt
  All-map_left P Q (x ∷ xs) f h = (f x h.0, All-map_left P Q xs f h.1)

  pub count_if-le : (test : A → Bool) (xs : List A) → count_if test xs ≤ length xs
  count_if-le test [] = omega arith
  count_if-le test (x ∷ xs) = ground (arith, count_if-le test xs)

  pub find_holds : (test : A → Bool) (xs : List A) (a : A) → find test xs ≡ some a → test a ≡ true
  find_holds test [] a h = cc
  find_holds test (x ∷ xs) a h = ground (arith, find_holds test xs a)

  pub find-none-All :
      (test : A → Bool) (xs : List A) → find test xs ≡ none → All (λ x. test x ≡ false) xs
  find-none-All test [] h = tt
  find-none-All test (x ∷ xs) h = ground (arith, find-none-All test xs)

  pub select-none :
      (keep : A → Bool) (xs : List A) → All (λ x. keep x ≡ false) xs → select keep xs ≡ []
  select-none keep [] h = refl
  select-none keep (x ∷ xs) h = rw h.0 (select-none keep xs h.1)

  pub select_same :
      (keep : A → Bool) (xs : List A) → All (λ x. keep x ≡ true) xs → select keep xs ≡ xs
  select_same keep [] h = refl
  select_same keep (x ∷ xs) h = rw h.0 (ap (◌∷◌ x) (select_same keep xs h.1))

module _ {ℓ κ} {A : Type ℓ} {B : Type κ} where
  -- `[y for x in xs for y in f(x)]`
  abbrev pub flat_map : (A → List B) → List A → List B
  flat_map f [] = []
  flat_map f (x ∷ xs) = f x ++ flat_map f xs

  pub flat_map-append :
      (f : A → List B) (xs ys : List A) → flat_map f (xs ++ ys) ≡ flat_map f xs ++ flat_map f ys
  flat_map-append f [] ys = refl
  flat_map-append f (x ∷ xs) ys =
      rw (flat_map-append f xs ys) (sym (append_assoc (f x) (flat_map f xs) (flat_map f ys)))

  pub length-map : (f : A → B) (xs : List A) → length (map f xs) ≡ length xs
  length-map f [] = refl
  length-map f (x ∷ xs) = ap suc (length-map f xs)

  pub All-of_map {μ} :
      (P : B → Type μ) (f : A → B) (xs : List A) → All (λ x. P (f x)) xs → All P (map f xs)
  All-of_map P f [] h = tt
  All-of_map P f (x ∷ xs) h = (h.0, All-of_map P f xs h.1)

-- `x in xs`, on texts.
unfoldable pub contains : String → List String → Bool
contains s [] = false
contains s (x ∷ xs) = str_eq s x || contains s xs

-- No text stands twice.
abbrev pub Distinct : List String → Type 0
Distinct [] = Unit
Distinct (x ∷ xs) = (contains x xs ≡ false) × Distinct xs

pub contains-cons :
    (s x : String) (xs : List String) → contains s (x ∷ xs) ≡ (str_eq s x || contains s xs)
unfolding contains
contains-cons s x xs = refl

pub contains-nil : (s : String) → contains s [] ≡ false
unfolding contains
contains-nil s = refl

pub contains-append :
    (s : String) (xs ys : List String) → contains s (xs ++ ys) ≡ (contains s xs || contains s ys)
unfolding contains
contains-append s [] ys = refl
contains-append s (x ∷ xs) ys = ground (arith, contains-append s xs ys)

-- `enumerate(xs, start=n)`
abbrev pub enumerate {ℓ} : {A : Type ℓ} → ℕ → List A → List (ℕ × A)
enumerate n [] = []
enumerate n (x ∷ xs) = (n, x) ∷ enumerate (suc n) xs

-- What is there, of a list of optional values.
abbrev pub present {ℓ} : {A : Type ℓ} → List (Option A) → List A
present [] = []
present (none ∷ xs) = present xs
present (some a ∷ xs) = a ∷ present xs

module _ {ℓ} {A : Type ℓ} where
  pub count_if-append :
      (test : A → Bool) (xs ys : List A)
      → count_if test (xs ++ ys) ≡ count_if test xs + count_if test ys
  count_if-append test [] ys = omega arith
  count_if-append test (x ∷ xs) ys = omega (arith, count_if-append test xs ys)

  -- A change of rows after which no more rows pass a test than before.
  pub count_if-map_le :
      (test : A → Bool) (f : A → A) (xs : List A)
      → ((x : A) → test (f x) ≡ true → test x ≡ true)
      → count_if test (map f xs) ≤ count_if test xs
  count_if-map_le test f [] h = omega arith
  count_if-map_le test f (x ∷ xs) h = ground (arith, h x, count_if-map_le test f xs h)

  pub count_if-map_none :
      (test : A → Bool) (f : A → A) (xs : List A)
      → ((x : A) → test (f x) ≡ false)
      → count_if test (map f xs) ≡ 0
  count_if-map_none test f [] h = refl
  count_if-map_none test f (x ∷ xs) h = ground (arith, h x, count_if-map_none test f xs h)

  -- Rows outside a selection may change, and stay outside: the selection is the same.
  pub select-map_same :
      (keep : A → Bool) (f : A → A) (xs : List A)
      → All (λ x. (keep (f x) ≡ keep x) × (keep x ≡ true → f x ≡ x)) xs
      → select keep (map f xs) ≡ select keep xs
  select-map_same keep f [] h = refl
  select-map_same keep f (x ∷ xs) h = elim (Bool-cases (keep x)) [
    | inl e ↦ rw (h.0.1 e, e) (ap (◌∷◌ x) (select-map_same keep f xs h.1))
    | inr e ↦ rw (h.0.0, e) (select-map_same keep f xs h.1)
  ]

  pub All-intro {κ} : (P : A → Type κ) (xs : List A) → ((x : A) → P x) → All P xs
  All-intro P [] h = tt
  All-intro P (x ∷ xs) h = (h x, All-intro P xs h)

  pub find-map_ne :
      (test : A → Bool) (f : A → A) (xs : List A)
      → ((x : A) → test (f x) ≡ test x)
      → find test (map f xs) ≡ (elim (find test xs) [ none ↦ none | some a ↦ some (f a) ])
  find-map_ne test f [] h = refl
  find-map_ne test f (x ∷ xs) h = ground (arith, h x, find-map_ne test f xs h)
