-- ===== src/Exams/Order.antt =====
-- backend/src/tradeschool/exams/service.py: the frozen order of the questions of an exam.
use tradeschool.Base.{
  ℕ, suc, ◌≤◌, ◌<◌, String, ◌≡◌, ◌≢◌, refl, ap, ◌∙◌, sym, subst, true, false, some, List, [], ◌∷◌,
  map, arith, length, or_else, All, All-intro, Distinct, contains, str_eq_iff, str_eq_self,
  enumerate,
}
use tradeschool.Base.Dict.{Dict, lookup, insert_all, keys, lookup-insert_all_nil}
use tradeschool.Base.Sort.{
  sort_by, IsAscending, DistinctKeys, sort_by-eq_of_perm, sort_by-ascending,
}
use tradeschool.Content.Registry.{CourseRegistry}
use tradeschool.Exercises.Generator.{Platform}
use tradeschool.Store.{Attempt, ExamSession}
use tradeschool.Exams.{frozen_order}
use tradeschool.Exams.View.{sort_key}
use mathlib.Core.List.{Permᴰ}

abbrev places : ℕ → List String → Dict ℕ
places n ks = map (λ (i, key). (key, i)) (enumerate n ks)

keys-places : (n : ℕ) (ks : List String) → keys (places n ks) ≡ ks
keys-places n [] = refl
keys-places n (k ∷ ks) = ap (◌∷◌ k) (keys-places (suc n) ks)

abbrev place : ℕ → List String → ℕ → String → ℕ
place n ks last k = or_else (lookup k (places n ks)) last

place-le :
    (n : ℕ) (ks : List String) (last : ℕ) (k : String)
    → contains k ks ≡ true
    → n ≤ place n ks last k
unfolding contains lookup
place-le n [] last k h = cc
place-le n (j ∷ ks) last k h = ground (arith, place-le (suc n) ks last k)

abbrev pub key_of : Attempt → String
key_of a = a.exercise_id

All-contains :
    (ks : List String) (qs : List Attempt)
    → ((k : String) → contains k (map key_of qs) ≡ true → contains k ks ≡ true)
    → All (λ a. contains (key_of a) ks ≡ true) qs
unfolding contains
All-contains ks [] h = tt
All-contains ks (q ∷ qs) h = (
  h (key_of q) (ground (arith, str_eq_self (key_of q))),
  All-contains ks qs (λ k c. h k (ground arith)),
)

module _ {A : Type 0} where
  smaller :
      (m n : ℕ) (f g : A → ℕ) (ys : List A)
      → m ≡ n
      → All (λ x. f x ≡ g x) ys
      → All (λ y. n < g y) ys
      → All (λ y. m < f y) ys
  smaller m n f g [] e h k = tt
  smaller m n f g (y ∷ ys) e h k = (omega (arith, e, h.0, k.0), smaller m n f g ys e h.1 k.1)

  IsAscending-same :
      (f g : A → ℕ) (xs : List A) → All (λ x. f x ≡ g x) xs → IsAscending g xs → IsAscending f xs
  IsAscending-same f g [] h k = tt
  IsAscending-same f g (x ∷ xs) h k =
      (smaller (f x) (g x) f g xs h.0 h.1 k.0, IsAscending-same f g xs h.1 k.1)

-- Behind a first key, the others are one place further.
module _ (n last : ℕ) (k : String) (ks : List String) (out : contains k ks ≡ false) where
  later_same :
      (qs : List Attempt)
      → All (λ a. contains (key_of a) ks ≡ true) qs
      → All (λ a. place n (k ∷ ks) last (key_of a) ≡ place (suc n) ks last (key_of a)) qs
  unfolding lookup
  later_same [] c = tt
  later_same (q ∷ qs) c = (ground (arith, str_eq_iff (key_of q) k), later_same qs c.1)

  later_less :
      (qs : List Attempt)
      → All (λ a. contains (key_of a) ks ≡ true) qs
      → All (λ a. place n (k ∷ ks) last k < place n (k ∷ ks) last (key_of a)) qs
  unfolding lookup
  later_less [] c = tt
  later_less (q ∷ qs) c = (
    ground (arith, str_eq_iff (key_of q) k, str_eq_self k, place-le (suc n) ks last (key_of q) c.0),
    later_less qs c.1,
  )

unequal :
    {A : Type 0} (n : ℕ) (f : A → ℕ) (xs : List A) → All (λ y. n < f y) xs → All (λ y. n ≢ f y) xs
unequal n f [] h = tt
unequal n f (x ∷ xs) h = ((λ e. omega (arith, h.0)), unequal n f xs h.1)

IsAscending-DistinctKeys :
    {A : Type 0} (f : A → ℕ) (xs : List A) → IsAscending f xs → DistinctKeys f xs
IsAscending-DistinctKeys f [] h = tt
IsAscending-DistinctKeys f (x ∷ xs) h = (unequal (f x) f xs h.0, IsAscending-DistinctKeys f xs h.1)

place-IsAscending :
    (n last : ℕ) (qs : List Attempt)
    → Distinct (map key_of qs)
    → IsAscending (λ a. place n (map key_of qs) last (key_of a)) qs
place-IsAscending n last [] h = tt
place-IsAscending n last (q ∷ qs) h =
    let ks = map key_of qs in
    let inside = All-contains ks qs (λ k c. c) in
    (
      later_less n last (key_of q) ks h.0 qs inside,
      IsAscending-same _ (λ a. place (suc n) ks last (key_of a)) qs
          (later_same n last (key_of q) ks h.0 qs inside) (place-IsAscending (suc n) last qs h.1),
    )

module _ {Config : Type 0} (platform : Platform Config) (registry : CourseRegistry Config) where
  sort_key-place :
      (exam : ExamSession) (q : Attempt) (qs : List Attempt) (a : Attempt)
      → exam.rules.question_order ≡ some (map key_of (q ∷ qs))
      → Distinct (map key_of (q ∷ qs))
      → sort_key platform registry exam a ≡ (
          let frozen = insert_all (places 0 (map key_of (q ∷ qs))) [] in
          place 0 (map key_of (q ∷ qs)) (length frozen) (key_of a))
  unfolding sort_key frozen_order
  sort_key-place exam q qs a h d = rw h (
      ap (λ r. or_else r (length (insert_all (places 0 (map key_of (q ∷ qs))) [])))
        (lookup-insert_all_nil (key_of a) (places 0 (map key_of (q ∷ qs)))
          (subst Distinct (sym (keys-places 0 (map key_of (q ∷ qs)))) d)))

  -- An exam shows its questions in the order that was frozen when it was assembled, if their keys
  -- differ, whatever the manifest says today and in whatever order the rows are read.
  pub sort_by-question_order :
      (exam : ExamSession) (qs attempts : List Attempt)
      → exam.rules.question_order ≡ some (map key_of qs)
      → Distinct (map key_of qs)
      → Permᴰ qs attempts
      → sort_by (sort_key platform registry exam) attempts ≡ qs
  sort_by-question_order exam [] attempts h d p =
      sym (sort_by-eq_of_perm (sort_key platform registry exam) p tt) ∙ sort_by-ascending _ [] tt
  sort_by-question_order exam (q ∷ qs) attempts h d p =
      let f = sort_key platform registry exam in
      let up : IsAscending f (q ∷ qs) =
        IsAscending-same f _ (q ∷ qs) (All-intro _ (q ∷ qs) (λ a. sort_key-place exam q qs a h d))
          (place-IsAscending 0 _ (q ∷ qs) d) in
      sym (sort_by-eq_of_perm f p (IsAscending-DistinctKeys f (q ∷ qs) up))
      ∙ sort_by-ascending f (q ∷ qs) up
