-- ===== src/Exercises/Quiz/Grade.antt =====
-- backend/src/tradeschool/exercises/quiz.py, `grade`: an answer against the variant that the seed selects.
use tradeschool.Base.{
  ℕ, ◌==◌, String, Bool, true, false, not, ◌&&◌, Option, none, some, List, [], ◌∷◌, map, reverse,
  all, find, select, contains, length, enumerate, if◌then◌else◌, str_eq, opt_str_eq, or_raise,
  Result, ok, err, Failure, invalid_answer, key_error, ◌>>=◌, traverse,
}
use tradeschool.Base.Dict.{Dict, lookup, insert_all}
use tradeschool.Base.Json.{Json, Items, Fields, Object}
use tradeschool.Base.Sort.{sort_by}
use tradeschool.Content.Schema.{LocalizedText, get_text}
use tradeschool.Exercises.Generator.{GradeResult, Generator}
use tradeschool.Exercises.Quiz.{
  QuizKind, QuizOption, OrderItem, MatchPair, QuizVariant, QuizConfig, range_from, variant,
}
use tradeschool.Exercises.Quiz.Instance.{to_items, to_fields, shuffled, slot_id, generate}
use Prim.Native.String.{compare}
use Prim.Native.Nat.{Ordering}

-- The order of texts, by the characters.
abbrev pub is_after : Ordering → Bool
is_after Ordering.gt = true
is_after _ = false

unfoldable pub insert_text : String → List String → List String
insert_text s [] = s ∷ []
insert_text s (x ∷ xs) =
    let rest = insert_text s xs in if is_after (compare s x) then x ∷ rest else s ∷ x ∷ xs

-- `sorted(set(texts))`
unfoldable pub sorted_set : List String → List String
unfolding insert_text
sorted_set [] = []
sorted_set (x ∷ xs) = let rest = sorted_set xs in if contains x xs then rest else insert_text x rest

-- Equality of sets, of lists, and of dictionaries.
abbrev pub same_set : List String → List String → Bool
same_set xs ys = all (λ x. contains x ys) xs && all (λ y. contains y xs) ys

abbrev pub same_texts : List String → List String → Bool
same_texts [] [] = true
same_texts (x ∷ xs) (y ∷ ys) = str_eq x y && same_texts xs ys
same_texts [] (y ∷ ys) = false
same_texts (x ∷ xs) [] = false

abbrev pub is_within : Dict String → Dict String → Bool
is_within d e = all (λ (k, v). opt_str_eq (lookup k e) (some v)) d

abbrev pub same_dict : Dict String → Dict String → Bool
same_dict d e = is_within d e && is_within e d

-- A list of texts, where every element is one.
abbrev pub texts_of : Items → Option (List String)
texts_of Items.nil = some []
texts_of (Items.cons (Json.str s) rest) = elim (texts_of rest) [
  | none ↦ none
  | some ts ↦ some (s ∷ ts)
]
texts_of (Items.cons _ rest) = none

-- What `answer.get(key)` must be.
abbrev pub text_answer : Option Json → Result String
text_answer (some (Json.str s)) = ok s
text_answer _ = err invalid_answer

abbrev pub bool_answer : Option Json → Result Bool
bool_answer (some (Json.bool b)) = ok b
bool_answer _ = err invalid_answer

abbrev pub texts_answer : Option Json → Result (List String)
texts_answer (some (Json.arr js)) = or_raise (texts_of js) invalid_answer
texts_answer _ = err invalid_answer

abbrev pub pairs_answer : Option Json → Result Fields
pairs_answer (some (Json.obj f)) = ok f
pairs_answer _ = err invalid_answer

abbrev pub json_texts : List String → Json
json_texts xs = Json.arr (to_items (map (λ s. Json.str s) xs))

abbrev pub json_pairs : Dict String → Json
json_pairs d = Json.obj (to_fields (map (λ (k, v). (k, Json.str v)) d))

abbrev pub same_answer : Bool → Option Bool → Bool
same_answer value none = false
same_answer true (some b) = b
same_answer false (some b) = not b

abbrev pub json_answer : Option Bool → Json
json_answer none = Json.null
json_answer (some b) = Json.bool b

abbrev pub graded : Bool → Object → Option String → GradeResult
graded correct answer explanation = record {
  correct = correct;
  correct_answer = Json.obj (to_fields answer);
  solution_steps = [];
  explanation = explanation;
}

abbrev pub explanation_of : Option LocalizedText → (locale : String) → Result (Option String)
explanation_of none locale = ok none
explanation_of (some t) locale = do s ← get_text t locale; ok (some s)

-- The slot of a pair, in a shuffled column: `{pair_idx: slot for slot, pair_idx in enumerate(order)}`.
abbrev pub slot_of : String → List ℕ → ℕ → Result String
slot_of side order i = do
  (slot, _) ← or_raise (find (λ (slot, k). k == i) (reverse (enumerate 0 order))) key_error
  ok (slot_id side slot)

-- `str` of a value; `render` is that of all values but texts.
abbrev pub json_text : (render : Json → String) → Json → String
json_text render (Json.str s) = s
json_text render j = render j

-- `{str(k): str(val) for k, val in pairs.items()}`
abbrev pub text_pairs : (render : Json → String) → Fields → List (String × String)
text_pairs render Fields.end = []
text_pairs render (Fields.field k j rest) = (k, json_text render j) ∷ text_pairs render rest

module _ (draw : ℕ → ℕ → ℕ) (render : Json → String) where
  abbrev pub correct_options : QuizVariant → List QuizOption
  correct_options v = select (λ o. o.correct) v.options

  abbrev pub correct_ids : QuizVariant → List String
  correct_ids v = map (λ o. o.id) (correct_options v)

  abbrev pub correct_order : QuizVariant → List String
  correct_order v = map (λ i. i.id) (sort_by (λ i. i.position) v.items)

  -- `{i.id: text}` for the items.
  abbrev pub item_texts : QuizVariant → (locale : String) → Result (Dict String)
  item_texts v locale = do
    entries ← traverse (λ (i : OrderItem). do t ← get_text i.text locale; ok (i.id, t)) v.items
    ok (insert_all entries [])

  -- `correct_map`
  abbrev pub correct_map : QuizVariant → (seed : ℕ) → Result (Dict String)
  correct_map v seed = do
    let n = length v.pairs
    entries ←
        traverse
          (λ i. do
            l ← slot_of "l" (shuffled draw n seed 1) i
            r ← slot_of "r" (shuffled draw n seed 2) i
            ok (l, r))
          (range_from 0 n)
    ok (insert_all entries [])

  abbrev pub readable_pair : (locale : String) → MatchPair → Result Json
  readable_pair locale p = do
    l ← get_text p.left locale
    r ← get_text p.right locale
    ok (Json.obj (to_fields (("left", Json.str l) ∷ ("right", Json.str r) ∷ [])))

  -- What a kind grades, and the solution.
  abbrev pub grade_kind :
      QuizVariant
      → (seed : ℕ) (answer : Object) (locale : String) (explanation : Option String) → QuizKind
      → Result GradeResult
  grade_kind v seed answer locale explanation QuizKind.single_choice = do
    selected ← text_answer (lookup "optionId" answer)
    o ← or_raise (find (λ o. o.correct) v.options) (Failure.other "StopIteration")
    text ← get_text o.text locale
    ok (
        graded (str_eq selected o.id) (("optionId", Json.str o.id) ∷ ("text", Json.str text) ∷ [])
          explanation)
  grade_kind v seed answer locale explanation QuizKind.multi_select = do
    selected ← texts_answer (lookup "optionIds" answer)
    texts ← traverse (λ (o : QuizOption). get_text o.text locale) (correct_options v)
    ok (
        graded (same_set selected (correct_ids v))
          (("optionIds", json_texts (sorted_set (correct_ids v)))
            ∷ ("texts", json_texts texts)
            ∷ [])
          explanation)
  grade_kind v seed answer locale explanation QuizKind.true_false = do
    value ← bool_answer (lookup "value" answer)
    ok (graded (same_answer value v.answer) (("value", json_answer v.answer) ∷ []) explanation)
  grade_kind v seed answer locale explanation QuizKind.ordering = do
    order ← texts_answer (lookup "order" answer)
    by_id ← item_texts v locale
    texts ← traverse (λ id. or_raise (lookup id by_id) key_error) (correct_order v)
    ok (
        graded (same_texts order (correct_order v))
          (("order", json_texts (correct_order v)) ∷ ("texts", json_texts texts) ∷ []) explanation)
  grade_kind v seed answer locale explanation QuizKind.matching = do
    pairs ← pairs_answer (lookup "pairs" answer)
    solution ← correct_map v seed
    readable ← traverse (readable_pair locale) v.pairs
    ok (
        graded (same_dict (insert_all (text_pairs render pairs) []) solution)
          (("pairs", json_pairs solution) ∷ ("readable", Json.arr (to_items readable)) ∷ [])
          explanation)

  -- `QuizGenerator.grade`
  unfoldable pub grade :
      QuizConfig → (seed : ℕ) (answer : Object) (locale : String) → Result GradeResult
  unfolding variant sorted_set
  grade config seed answer locale = do
    v ← variant draw config seed
    explanation ← explanation_of v.explanation locale
    grade_kind v seed answer locale explanation v.kind

  -- `QuizGenerator`
  abbrev pub quiz_generator : Generator QuizConfig
  quiz_generator = record { generate = generate draw; grade = grade }
