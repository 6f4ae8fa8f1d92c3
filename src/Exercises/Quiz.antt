-- ===== src/Exercises/Quiz.antt =====
-- backend/src/tradeschool/exercises/quiz.py: the variants of a quiz and their validation.
pub mod Instance
pub mod Grade
pub mod Dicts
pub mod Submission
pub mod Kinds
pub mod Solution
pub mod Hidden
use tradeschool.Base.{
  ℕ, zero, suc, ◌+◌, ◌==◌, ltb, leb, String, Bool, true, false, not, ◌&&◌, ◌||◌, Option, none, some,
  List, [], ◌∷◌, map, length, contains, count_if, if◌then◌else◌, is_some, Result, ok, err,
  value_error, ◌>>=◌, ◌>>◌, raise_if,
}
use tradeschool.Base.Sort.{sort_by}
use tradeschool.Content.Schema.{LocalizedText}
use tradeschool.Exercises.Random.{choice}

pub data QuizKind : Type 0 where
  single_choice true_false multi_select ordering matching : QuizKind

pub record QuizOption : Type 0 where
  pub id : String
  pub text : LocalizedText
  pub correct : Bool

-- A position below 1 is never accepted, so a natural number holds it.
pub record OrderItem : Type 0 where
  pub id : String
  pub text : LocalizedText
  pub position : ℕ

pub record MatchPair : Type 0 where
  pub id : String
  pub left : LocalizedText
  pub right : LocalizedText

pub record QuizVariant : Type 0 where
  pub id : String
  pub kind : QuizKind
  pub prompt : LocalizedText
  pub explanation : Option LocalizedText
  pub options : List QuizOption
  pub answer : Option Bool
  pub items : List OrderItem
  pub pairs : List MatchPair

-- `QuizConfig`
pub record QuizConfig : Type 0 where
  pub variants : List QuizVariant

-- `len(set(ids)) == len(ids)`
abbrev pub all_different : List String → Bool
all_different [] = true
all_different (x ∷ xs) = not (contains x xs) && all_different xs

-- `range(n, n + count)`
abbrev pub range_from : ℕ → (count : ℕ) → List ℕ
range_from n zero = []
range_from n (suc count) = n ∷ range_from (suc n) count

abbrev pub same_numbers : List ℕ → List ℕ → Bool
same_numbers [] [] = true
same_numbers (x ∷ xs) (y ∷ ys) = x == y && same_numbers xs ys
same_numbers [] (y ∷ ys) = false
same_numbers (x ∷ xs) [] = false

abbrev pub is_empty : {A : Type 0} → List A → Bool
is_empty [] = true
is_empty (x ∷ xs) = false

-- The fields of the kinds.
pub data Field : Type 0 where
  options_field answer_field items_field pairs_field : Field

abbrev pub field_eq : Field → Field → Bool
field_eq options_field options_field = true
field_eq answer_field answer_field = true
field_eq items_field items_field = true
field_eq pairs_field pairs_field = true
field_eq _ _ = false

-- `_forbid`: no other field than that of the kind is set.
abbrev pub forbid : QuizVariant → Field → Result (Unit {0})
forbid v exclude = do
  raise_if (not (is_empty v.options) && not (field_eq options_field exclude)) value_error
  raise_if (is_some v.answer && not (field_eq answer_field exclude)) value_error
  raise_if (not (is_empty v.items) && not (field_eq items_field exclude)) value_error
  raise_if (not (is_empty v.pairs) && not (field_eq pairs_field exclude)) value_error
  ok tt

abbrev pub correct_count : QuizVariant → ℕ
correct_count v = count_if (λ o. o.correct) v.options

-- The checks on the fields of the kind.
abbrev pub check_options : QuizVariant → Result (Unit {0})
check_options v = do
  raise_if (ltb (length v.options) 2) value_error
  raise_if (not (all_different (map (λ o. o.id) v.options))) value_error
  ok tt

abbrev pub check_kind : QuizVariant → QuizKind → Result (Unit {0})
check_kind v single_choice = do
  check_options v
  raise_if (not (correct_count v == 1)) value_error
  forbid v options_field
check_kind v multi_select = do
  check_options v
  raise_if (not (leb 1 (correct_count v) && ltb (correct_count v) (length v.options))) value_error
  forbid v options_field
check_kind v true_false = do raise_if (not (is_some v.answer)) value_error; forbid v answer_field
check_kind v ordering = do
  raise_if (ltb (length v.items) 3) value_error
  raise_if
      (not (
        same_numbers (sort_by (λ n. n) (map (λ i. i.position) v.items))
          (range_from 1 (length v.items))))
      value_error
  raise_if (not (all_different (map (λ i. i.id) v.items))) value_error
  forbid v items_field
check_kind v matching = do
  raise_if (ltb (length v.pairs) 3) value_error
  raise_if (not (all_different (map (λ p. p.id) v.pairs))) value_error
  forbid v pairs_field

-- `QuizVariant._check`
unfoldable pub check_variant : QuizVariant → Result QuizVariant
check_variant v = do check_kind v v.kind; ok v

-- `QuizConfig._check`
unfoldable pub check_config : QuizConfig → Result QuizConfig
check_config config = do
  raise_if (is_empty config.variants) value_error
  raise_if (not (all_different (map (λ v. v.id) config.variants))) value_error
  ok config

-- `QuizGenerator.variant`, for the numbers behind a seed.
unfoldable pub variant : (draw : ℕ → ℕ → ℕ) → QuizConfig → (seed : ℕ) → Result QuizVariant
variant draw config seed = choice (draw seed) config.variants
