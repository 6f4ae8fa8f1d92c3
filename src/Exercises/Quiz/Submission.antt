-- ===== src/Exercises/Quiz/Submission.antt =====
-- backend/src/tradeschool/exercises/quiz.py and reveal.py: the texts and dictionaries of a solution, through
-- JSON and back.
use tradeschool.Base.{
  ℕ, String, ◌≡◌, refl, ap, sym, ◌∙◌, subst, Bool, true, false, ◌||◌, some, List, [], ◌∷◌, map, all,
  contains, contains-cons, str_eq, str_eq_self, str_eq_iff, arith, ok, bind_inverse, ok_injective,
  Distinct,
}
use tradeschool.Base.Dict.{Dict, lookup, insert_all, keys}
use tradeschool.Base.Json.{Json, Object}
use tradeschool.Exercises.Quiz.{QuizVariant}
use tradeschool.Exercises.Quiz.Dicts.{insert_all-Distinct}
use tradeschool.Exercises.Quiz.Instance.{to_items, to_fields}
use tradeschool.Exercises.Quiz.Grade.{
  insert_text, sorted_set, same_set, same_texts, texts_of, text_pairs, correct_map, same_answer,
}
use tradeschool.Exercises.Reveal.{submission_for}

-- Texts, through the JSON of an answer.
pub texts_of-json_texts :
    (xs : List String) → texts_of (to_items (map (λ s. Json.str s) xs)) ≡ some xs
texts_of-json_texts [] = refl
texts_of-json_texts (x ∷ xs) = rw (texts_of-json_texts xs) refl

pub same_texts_self : (xs : List String) → same_texts xs xs ≡ true
same_texts_self [] = refl
same_texts_self (x ∷ xs) = rw (str_eq_self x, same_texts_self xs) refl

contains-insert_text :
    (s x : String) (xs : List String)
    → contains s (insert_text x xs) ≡ (str_eq s x || contains s xs)
unfolding insert_text
contains-insert_text s x [] = contains-cons s x []
contains-insert_text s x (y ∷ ys) = ground (
  arith,
  contains-insert_text s x ys,
  contains-cons s y (insert_text x ys),
  contains-cons s x (y ∷ ys),
  contains-cons s y ys,
)

contains-sorted_set : (s : String) (xs : List String) → contains s (sorted_set xs) ≡ contains s xs
unfolding sorted_set
contains-sorted_set s [] = refl
contains-sorted_set s (x ∷ xs) = ground (
  arith,
  contains-sorted_set s xs,
  contains-insert_text s x (sorted_set xs),
  contains-cons s x xs,
  str_eq_iff s x,
)

all_contained_in :
    (xs ys : List String)
    → ((s : String) → contains s xs ≡ true → contains s ys ≡ true)
    → all (λ x. contains x ys) xs ≡ true
all_contained_in [] ys h = refl
all_contained_in (x ∷ xs) ys h =
    rw (h x (ground (arith, contains-cons x x xs, str_eq_self x)))
      (all_contained_in xs ys (λ s c. h s (ground (arith, contains-cons s x xs))))

-- The sorted set is the set.
pub same_set-sorted_set : (xs : List String) → same_set (sorted_set xs) xs ≡ true
same_set-sorted_set xs =
    rw (all_contained_in (sorted_set xs) xs (λ s c. sym (contains-sorted_set s xs) ∙ c))
      (all_contained_in xs (sorted_set xs) (λ s c. contains-sorted_set s xs ∙ c))

pub same_answer_self : (b : Bool) → same_answer b (some b) ≡ true
same_answer_self true = refl
same_answer_self false = refl

pub lookup_first : (k : String) (j : Json) (o : Object) → lookup k ((k, j) ∷ o) ≡ some j
unfolding lookup
lookup_first k j o = rw (str_eq_self k) refl

-- The submission that each kind's solution names.
pub submission_of_option :
    (a b : Json)
    → submission_for (Json.obj (to_fields (("optionId", a) ∷ ("text", b) ∷ [])))
      ≡ ok (("optionId", a) ∷ [])
unfolding submission_for lookup str_eq
submission_of_option a b = refl

pub submission_of_options :
    (a b : Json)
    → submission_for (Json.obj (to_fields (("optionIds", a) ∷ ("texts", b) ∷ [])))
      ≡ ok (("optionIds", a) ∷ [])
unfolding submission_for lookup str_eq
submission_of_options a b = refl

pub submission_of_value :
    (a : Json) → submission_for (Json.obj (to_fields (("value", a) ∷ []))) ≡ ok (("value", a) ∷ [])
unfolding submission_for lookup str_eq
submission_of_value a = refl

pub submission_of_order :
    (a b : Json)
    → submission_for (Json.obj (to_fields (("order", a) ∷ ("texts", b) ∷ [])))
      ≡ ok (("order", a) ∷ [])
unfolding submission_for lookup str_eq
submission_of_order a b = refl

pub submission_of_pairs :
    (a b : Json)
    → submission_for (Json.obj (to_fields (("pairs", a) ∷ ("readable", b) ∷ [])))
      ≡ ok (("pairs", a) ∷ [])
unfolding submission_for lookup str_eq
submission_of_pairs a b = refl

pub text_pairs-json_pairs :
    (render : Json → String) (d : Dict String)
    → text_pairs render (to_fields (map (λ (k, v). (k, Json.str v)) d)) ≡ d
text_pairs-json_pairs render [] = refl
text_pairs-json_pairs render ((k, v) ∷ d) = ap (◌∷◌ (k, v)) (text_pairs-json_pairs render d)

pub correct_map-Distinct :
    (draw : ℕ → ℕ → ℕ) (render : Json → String) (v : QuizVariant) (seed : ℕ) (d : Dict String)
    → correct_map draw render v seed ≡ ok d
    → Distinct (keys d)
correct_map-Distinct draw render v seed d h =
    let (entries, made, _) = bind_inverse (λ entries. ok (insert_all entries [])) _ h in
    subst (λ d. Distinct (keys d)) (ok_injective made) (insert_all-Distinct entries [] tt)
