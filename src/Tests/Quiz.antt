-- ===== src/Tests/Quiz.antt =====
-- A matching quiz and an ordering quiz, with a simple sequence of numbers for a seed.
use tradeschool.Base.{
  ℕ, ◌+◌, ◌≡◌, refl, none, some, String, [], ◌∷◌, true, false, All, ok, err, Result, contains,
  str_eq,
}
use tradeschool.Base.Dict.{lookup, insert, insert_all}
use tradeschool.Base.Json.{Json, Object}
use tradeschool.Base.Sort.{sort_by}
use tradeschool.Content.Schema.{get_text}
use tradeschool.Exercises.Generator.{GradeResult}
use tradeschool.Exercises.Random.{shuffle_down}
use tradeschool.Exercises.Quiz.{QuizKind, QuizVariant, QuizConfig, check_variant}
use tradeschool.Exercises.Quiz.Instance.{shuffled, generate, slot_id}
use tradeschool.Exercises.Quiz.Grade.{grade, quiz_generator}
use tradeschool.Exercises.Quiz.Solution.{reveal-quiz_generator}
use tradeschool.Exercises.Quiz.Hidden.{Solution, other_variant, generate-other_variant}
use tradeschool.Exercises.Reveal.{dummy_answer, submission_for, reveal}
use tradeschool.Tests.Sample.{text}

abbrev draw : ℕ → ℕ → ℕ
draw seed i = seed + i

abbrev render : Json → String
render j = "?"

abbrev choice_variant : QuizVariant
choice_variant = record {
  id = "v1";
  kind = QuizKind.multi_select;
  prompt = text "Which two?";
  explanation = none;
  options =
      record { id = "b"; text = text "B"; correct = true }
      ∷ record { id = "a"; text = text "A"; correct = true }
      ∷ record { id = "c"; text = text "C"; correct = false }
      ∷ [];
  answer = none;
  items = [];
  pairs = [];
}

abbrev matching_variant : QuizVariant
matching_variant = record {
  id = "v2";
  kind = QuizKind.matching;
  prompt = text "Match";
  explanation = some (text "So");
  options = [];
  answer = none;
  items = [];
  pairs =
      record { id = "p1"; left = text "1"; right = text "one" }
      ∷ record { id = "p2"; left = text "2"; right = text "two" }
      ∷ record { id = "p3"; left = text "3"; right = text "three" }
      ∷ [];
}

abbrev config : QuizConfig
config = record { variants = choice_variant ∷ matching_variant ∷ [] }

abbrev value_of : {A : Type 0} → Result A → A → A
value_of (ok a) d = a
value_of (err e) d = d

abbrev no_result : GradeResult
no_result = record {
  correct = false;
  correct_answer = Json.null;
  solution_steps = [];
  explanation = none;
}

abbrev payload : Object
payload = ("kind", Json.str "matching") ∷ []

abbrev first : GradeResult
first = value_of (grade draw render config 3 (dummy_answer render payload) "en") no_result

valid : All (λ v. check_variant v ≡ ok v) config.variants
unfolding check_variant str_eq contains
valid = (refl, (refl, tt))

grades : grade draw render config 3 (dummy_answer render payload) "en" ≡ ok first
unfolding grade dummy_answer str_eq contains lookup insert insert_all get_text shuffled shuffle_down
    sort_by
grades = refl

reveal-quiz_generator_example :
    (s : Object) × (submission_for first.correct_answer ≡ ok s)
    × (reveal render (quiz_generator draw render) config 3 "en" payload
        ≡ ok (record { submission = s; result = record first { correct = true } }))
reveal-quiz_generator_example =
    reveal-quiz_generator draw render config 3 "en" payload first valid grades

abbrev all_wrong : Solution
all_wrong = record {
  is_correct = λ id. false;
  position_of = λ id. 7;
  claim = some true;
  explained = none;
}

generate-other_variant_example :
    generate draw
      (record {
        variants =
            other_variant all_wrong choice_variant ∷ other_variant all_wrong matching_variant ∷ [];
      })
      2
      "en"
    ≡ generate draw config 2 "en"
generate-other_variant_example = generate-other_variant all_wrong draw "en" config 2

two_digits : slot_id "l" 12 ≡ "l12"
two_digits = refl
