-- ===== src/Tests/Sample.antt =====
-- A course with two modules in one block, a generator that accepts any answer with an `optionId`, and a
-- few rows.
use tradeschool.Base.{◌*◌, ◌/◌, String, none, some, List, [], ◌∷◌, is_some, ok, str_eq, contains}
use tradeschool.Base.Dict.{Dict, lookup, insert}
use tradeschool.Base.Json.{Json, Object}
use tradeschool.Content.Schema.{
  ExerciseType, LocalizedText, Exercise, Lesson, CourseModule, CourseStatus, Course, Manifest,
}
use tradeschool.Content.Registry.{CourseRegistry, build}
use tradeschool.Attempts.{open_attempt, submit_answer, review_attempt}
use tradeschool.Exercises.Generator.{Generator, Platform}
use tradeschool.Store.{Db}

abbrev pub text : String → LocalizedText
text s = record { en = some s; es = some s }

abbrev pub exercise : String → String → Exercise
exercise id key = record { id = id; key = key; type = ExerciseType.quiz }

abbrev pub lesson : String → List Exercise → Lesson
lesson id exercises = record {
  id = id;
  key = id;
  title = text id;
  summary = text id;
  exercises = exercises;
}

abbrev pub first_module : CourseModule
first_module = record {
  id = "m01";
  key = "k01";
  title = text "First";
  summary = text "first";
  assumes = [];
  lessons =
      lesson "m01-l1" (exercise "m01-ex-1" "k01-ex-1" ∷ exercise "m01-ex-2" "k01-ex-2" ∷ []) ∷ [];
}

abbrev pub second_module : CourseModule
second_module = record {
  id = "m02";
  key = "k02";
  title = text "Second";
  summary = text "second";
  assumes = "m01" ∷ [];
  lessons = lesson "m02-l1" (exercise "m02-ex-1" "k02-ex-1" ∷ []) ∷ [];
}

abbrev pub course : Course
course = record {
  id = "crypto";
  title = text "Course";
  subtitle = text "Short";
  description = text "About";
  languages = "en" ∷ "es" ∷ [];
  status = CourseStatus.published;
  exercise_types = ExerciseType.quiz ∷ [];
}

abbrev pub manifest : Manifest
manifest = record {
  course = course;
  blocks =
      record { id = "block-a"; title = text "A"; modules = first_module ∷ second_module ∷ [] } ∷ [];
}

abbrev pub configs : Dict (ExerciseType × Unit {0})
configs =
    ("m01-ex-1", (ExerciseType.quiz, tt))
    ∷ ("m01-ex-2", (ExerciseType.quiz, tt))
    ∷ ("m02-ex-1", (ExerciseType.quiz, tt))
    ∷ []

unfoldable pub registry : CourseRegistry (Unit {0})
registry = build manifest [] configs

abbrev pub generator : Generator (Unit {0})
generator = record {
  generate = λ config seed locale. ok (record { prompt = "Which?"; payload = [] });
  grade = λ config seed answer locale. ok (record {
    correct = is_some (lookup "optionId" answer);
    correct_answer = Json.str "a";
    solution_steps = [];
    explanation = none;
  });
}

abbrev pub platform : Platform (Unit {0})
platform = record { get_generator = λ type. generator; round_ratio = λ num den. num * 10_000 / den }

abbrev pub answer : Object
answer = ("optionId", Json.str "a") ∷ []

abbrev pub empty_db : Db
empty_db = record { attempts = []; exam_sessions = [] }

-- What the runs of the tests compute with.
unfoldable pub program : Unit {0}
unfolding registry build str_eq contains lookup insert open_attempt submit_answer review_attempt
program = tt
