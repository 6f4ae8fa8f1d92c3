-- ===== src/Reports/Answers.antt =====
-- backend/src/tradeschool/reports/answers.py: a quiz answer in the texts that the learner saw. `render`
-- is Python's `str` of a value that is no text; a missing key raises.
use Prim.Native.String.{◌++◌ as ◌<>◌}
use tradeschool.Base.{
  String, true, Option, none, some, List, [], ◌∷◌, if◌then◌else◌, or_else, str_eq, Result, ok, err,
  Failure, key_error, ◌>>=◌, or_raise,
}
use tradeschool.Base.Dict.{Dict, lookup, insert, has_key}
use tradeschool.Base.Json.{Json, Items, Fields, Object}
use tradeschool.Exercises.Quiz.Instance.{to_fields}
use tradeschool.Exercises.Quiz.Grade.{json_text}
use tradeschool.Exercises.Reveal.{of_fields}

-- `sep.join(texts)`
abbrev pub join : String → List String → String
join sep [] = ""
join sep (s ∷ []) = s
join sep (s ∷ t ∷ rest) = s <> sep <> join sep (t ∷ rest)

abbrev pub yes_no : String → String × String
yes_no locale = if str_eq locale "es" then ("Verdadero", "Falso") else ("True", "False")

-- `_NO_ANSWER[locale]`
abbrev pub no_answer : String → Option String
no_answer locale =
    if str_eq locale "en"
    then some "(no answer)"
    else if str_eq locale "es"
    then some "(sin respuesta)"
    else none

module _ (render : Json → String) where
  abbrev pub texts_of : Items → Dict String → Result (Dict String)
  texts_of Items.nil d = ok d
  texts_of (Items.cons (Json.obj f) rest) d = do
    id ← or_raise (lookup "id" (of_fields f)) key_error
    text ← or_raise (lookup "text" (of_fields f)) key_error
    texts_of rest (insert (json_text render id) (json_text render text) d)
  texts_of (Items.cons _ rest) d = texts_of rest d

  -- `_texts`
  pub texts : Option Json → Result (Dict String)
  texts (some (Json.arr js)) = texts_of js []
  texts _ = ok []

  -- `_boolean`
  pub boolean : Json → String → String
  boolean (Json.bool true) locale = (yes_no locale).0
  boolean _ locale = (yes_no locale).1

  -- `texts.get(str(i), str(i))`, for each of a list.
  abbrev pub shown : Dict String → Items → List String
  shown d Items.nil = []
  shown d (Items.cons j rest) =
      or_else (lookup (json_text render j) d) (json_text render j) ∷ shown d rest

  abbrev pub shown_pairs : Dict String → Dict String → Object → List String
  shown_pairs lefts rights [] = []
  shown_pairs lefts rights ((left, right) ∷ rest) =
      (or_else (lookup left lefts) left
        <> " = "
        <> or_else (lookup (json_text render right) rights) (json_text render right))
      ∷ shown_pairs lefts rights rest

  -- The cases after the options, in their order.
  abbrev pub describe_pairs : Object → Object → Result String
  describe_pairs payload answer = elim (lookup "pairs" answer) [
    | some (Json.obj f) ↦ do
      lefts ← texts (lookup "lefts" payload)
      rights ← texts (lookup "rights" payload)
      ok (join "; " (shown_pairs lefts rights (of_fields f)))
    | _ ↦ ok (render (Json.obj (to_fields answer)))
  ]

  abbrev pub describe_order : Object → Object → Result String
  describe_order payload answer = elim (lookup "order" answer) [
    | some (Json.arr js) ↦ do
      items ← texts (lookup "items" payload)
      ok (join " → " (shown items js))
    | _ ↦ describe_pairs payload answer
  ]

  abbrev pub describe_value : Object → Object → String → Result String
  describe_value payload answer locale = elim (lookup "value" answer) [
    | some j ↦ ok (boolean j locale)
    | none ↦ describe_order payload answer
  ]

  abbrev pub describe_options : Dict String → Object → Object → String → Result String
  describe_options options payload answer locale = elim (lookup "optionIds" answer) [
    | some (Json.arr js) ↦
        let chosen = join "; " (shown options js) in
        if str_eq chosen "" then or_raise (no_answer locale) key_error else ok chosen
    | _ ↦ describe_value payload answer locale
  ]

  abbrev pub describe_option : Dict String → Object → Object → String → Result String
  describe_option options payload answer locale = elim (lookup "optionId" answer) [
    | some j ↦ ok (or_else (lookup (json_text render j) options) (json_text render j))
    | none ↦ describe_options options payload answer locale
  ]

  -- `describe_given`
  unfoldable pub describe_given : Object → Option Object → String → Result String
  unfolding texts boolean
  describe_given payload none locale = ok (or_else (no_answer locale) "(no answer)")
  describe_given payload (some []) locale = ok (or_else (no_answer locale) "(no answer)")
  describe_given payload (some (entry ∷ rest)) locale = do
    options ← texts (lookup "options" payload)
    describe_option options payload (entry ∷ rest) locale

  abbrev pub plain : Items → List String
  plain Items.nil = []
  plain (Items.cons j rest) = json_text render j ∷ plain rest

  -- `p['left']` of each pair, which is an object.
  abbrev pub readable : Items → Result (List String)
  readable Items.nil = ok []
  readable (Items.cons (Json.obj f) rest) = do
    left ← or_raise (lookup "left" (of_fields f)) key_error
    right ← or_raise (lookup "right" (of_fields f)) key_error
    texts ← readable rest
    ok ((json_text render left <> " = " <> json_text render right) ∷ texts)
  readable (Items.cons _ rest) = err (Failure.other "TypeError")

  abbrev pub correct_value : Fields → Object → String → String
  correct_value f o locale = elim (lookup "value" o) [
    | some j ↦ boolean j locale
    | none ↦ render (Json.obj f)
  ]

  abbrev pub correct_texts : Fields → Object → String → String
  correct_texts f o locale = elim (lookup "texts" o) [
    | some (Json.arr js) ↦ join (if has_key "order" o then " → " else "; ") (plain js)
    | _ ↦ correct_value f o locale
  ]

  abbrev pub correct_readable : Fields → Object → String → Result String
  correct_readable f o locale = elim (lookup "readable" o) [
    | some (Json.arr js) ↦ do texts ← readable js; ok (join "; " texts)
    | _ ↦ ok (correct_texts f o locale)
  ]

  -- `describe_correct`
  unfoldable pub describe_correct : Json → String → Result String
  unfolding boolean
  describe_correct (Json.obj f) locale = elim (lookup "text" (of_fields f)) [
    | some j ↦ ok (json_text render j)
    | none ↦ correct_readable f (of_fields f) locale
  ]
  describe_correct j locale = ok (json_text render j)
