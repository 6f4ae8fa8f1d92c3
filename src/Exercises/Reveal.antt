-- ===== src/Exercises/Reveal.antt =====
-- backend/src/tradeschool/exercises/reveal.py: the solution of an instance, checked by grading it back.
use tradeschool.Base.{
  ℕ, String, Bool, false, not, Option, none, some, List, [], ◌∷◌, map, if◌then◌else◌, str_eq,
  Result, ok, err, reveal_error, ◌>>=◌, ◌>>◌, raise_if,
}
use tradeschool.Base.Dict.{lookup, has_key, insert_all}
use tradeschool.Base.Json.{Json, Items, Fields, Object}
use tradeschool.Exercises.Generator.{GradeResult, Generator}
use tradeschool.Exercises.Quiz.Instance.{to_fields}
use tradeschool.Exercises.Quiz.Grade.{json_text, json_texts}

abbrev pub of_fields : Fields → Object
of_fields Fields.end = []
of_fields (Fields.field k j rest) = (k, j) ∷ of_fields rest

-- `str(o.get("id", ""))`
abbrev pub id_of : (render : Json → String) → Fields → String
id_of render f = elim (lookup "id" (of_fields f)) [ none ↦ "" | some j ↦ json_text render j ]

-- `_first_option_id`
abbrev pub first_option_id : (render : Json → String) → Object → String → String
first_option_id render payload key = elim (lookup key payload) [
  | some (Json.arr (Items.cons (Json.obj f) _)) ↦ id_of render f
  | _ ↦ ""
]

abbrev pub ids_of : (render : Json → String) → Items → List String
ids_of render Items.nil = []
ids_of render (Items.cons (Json.obj f) rest) = id_of render f ∷ ids_of render rest
ids_of render (Items.cons _ rest) = ids_of render rest

-- `_ids`
abbrev pub ids : (render : Json → String) → Object → String → List String
ids render payload key = elim (lookup key payload) [
  | some (Json.arr js) ↦ ids_of render js
  | _ ↦ []
]

abbrev pub zip : List String → List String → List (String × String)
zip [] ys = []
zip (x ∷ xs) [] = []
zip (x ∷ xs) (y ∷ ys) = (x, y) ∷ zip xs ys

abbrev pub has_kind : Object → String → Bool
has_kind payload kind = elim (lookup "kind" payload) [
  | some (Json.str k) ↦ str_eq k kind
  | _ ↦ false
]

-- `str(choices[0])`, or `none` where there is no choice.
abbrev pub first_choice : (render : Json → String) → Option Json → String
first_choice render (some (Json.arr (Items.cons j _))) = json_text render j
first_choice render _ = "none"

-- `dummy_answer`
unfoldable pub dummy_answer : (render : Json → String) → Object → Object
dummy_answer render payload =
    let first = Json.str (first_choice render (lookup "choices" payload)) in
    let pairs = insert_all (zip (ids render payload "lefts") (ids render payload "rights")) [] in
    if has_key "choices" payload
    then ("divergence", first) ∷ ("label", first) ∷ []
    else if has_kind payload "true_false"
    then ("value", Json.bool false) ∷ []
    else if has_kind payload "multi_select"
    then ("optionIds", json_texts (first_option_id render payload "options" ∷ [])) ∷ []
    else if has_kind payload "ordering"
    then ("order", json_texts (ids render payload "items")) ∷ []
    else if has_kind payload "matching"
    then ("pairs", Json.obj (to_fields (map (λ (k, v). (k, Json.str v)) pairs))) ∷ []
    else if has_key "options" payload
    then ("optionId", Json.str (first_option_id render payload "options")) ∷ []
    else ("value", Json.bool false) ∷ []

-- The loop of `submission_for`.
abbrev pub first_key : List String → Object → Result Object
first_key [] o = err reveal_error
first_key (k ∷ ks) o = elim (lookup k o) [ some j ↦ ok ((k, j) ∷ []) | none ↦ first_key ks o ]

abbrev pub answer_keys : List String
answer_keys = "optionId" ∷ "optionIds" ∷ "order" ∷ "pairs" ∷ "divergence" ∷ "label" ∷ "value" ∷ []

-- `submission_for`
unfoldable pub submission_for : Json → Result Object
submission_for (Json.obj f) = first_key answer_keys (of_fields f)
submission_for _ = err reveal_error

pub record Revealed : Type 0 where
  pub submission : Object
  pub result : GradeResult

module _ {Config : Type 0} (render : Json → String) (generator : Generator Config) where
  unfoldable pub reveal : Config → (seed : ℕ) (locale : String) (payload : Object) → Result Revealed
  unfolding dummy_answer submission_for
  reveal config seed locale payload = do
    first ← generator.grade config seed (dummy_answer render payload) locale
    submission ← submission_for first.correct_answer
    verified ← generator.grade config seed submission locale
    raise_if (not verified.correct) reveal_error
    ok (record { submission = submission; result = verified })

-- `revealed_mapping`
pub revealed_mapping : GradeResult → Result Object
revealed_mapping result = elim result.correct_answer [
  | Json.obj f ↦ ok (of_fields f)
  | _ ↦ err reveal_error
]
