-- ===== src/Tests/Exams.antt =====
-- Exams at the small course.
use tradeschool.Base.{
  ℕ, ◌≤◌, ◌≡◌, refl, ok, some, none, [], ◌∷◌, map, length, count_if, select, sum_by, Distinct, Bool,
  String, true, false, contains, str_eq,
}
use tradeschool.Base.Json.{Json}
use tradeschool.Base.Sort.{sort_by}
use tradeschool.Content.Schema.{ExerciseType, get_text}
use tradeschool.Content.Registry.{slug, block_title, module_title, playable_module_exercises}
use tradeschool.Store.{Attempt, AttemptState, Db, ExamResult, ExamSession, ExamStatus, in_session}
use tradeschool.Attempts.{submit_answer, resolved, resolve, display_id}
use tradeschool.Exercises.Generator.{GradeResult}
use tradeschool.Exams.View.{ExamView, build_view}
use tradeschool.Exams.Submit.{grade_exam, graded_correct}
use tradeschool.Exams.Handlers.{answer_question}
use tradeschool.Exams.Start.{Draws, assemble}
use tradeschool.Exams.Single.{is_open_of, assemble-once}
use tradeschool.Exams.{scope_modules}
use tradeschool.Exams.Answer.{IsAnswerable, answer_question_iff, answer_question-get_attempt}
use tradeschool.Store.{get_attempt, get_session}
use tradeschool.Base.{err, ◌↔◌, Result, List, ◌+◌}
use tradeschool.Exams.Closed.{grade_exam_once}
use tradeschool.Exams.Submit.{submit_exam}
use tradeschool.Base.{app}
use tradeschool.Exams.Feedback.{submit_answer-answer_question}
use tradeschool.Exams.Shown.{is_shown, build_view-question_order}
use tradeschool.Exams.Scores.{grade_exam-counts}
use tradeschool.Exams.Blocks.{grade_exam-blocks}
use tradeschool.Exams.Total.{grade_exam_total}
use tradeschool.Content.Schema.{text_languages}
use tradeschool.Tests.Content.{manifest-IsWellFormed}
use tradeschool.Tests.Sample.{registry, platform, answer, program, manifest, configs}
use tradeschool.Attempts
use tradeschool.Exams
use tradeschool.Exams.{attempts_of, canonical_place, canonical_order}
use tradeschool.Base.Dict.{insert_all}
use mathlib.Core.List.{Permᴰ}

abbrev question_row : ℕ → String → Attempt
question_row id key = record {
  id = id;
  user_id = 7;
  course_id = "crypto";
  exercise_id = key;
  seed = 12;
  instance_snapshot = record { type = ExerciseType.quiz; prompt = "Which?"; payload = [] };
  given_answer = none;
  is_correct = none;
  state = AttemptState.open_state;
  exam_session_id = some 50;
  created_at = 5;
  answered_at = none;
}

abbrev first_question : Attempt
first_question = record (question_row 1 "k01-ex-1") { given_answer = some answer }

abbrev second_question : Attempt
second_question = question_row 2 "k02-ex-1"

abbrev exam : ExamSession
exam = record {
  id = 50;
  user_id = 7;
  course_id = "crypto";
  created_at = 5;
  finished_at = none;
  rules = record {
    scope = "global";
    block_id = none;
    status = ExamStatus.open_exam;
    result = none;
    question_order = some ("k01-ex-1" ∷ "k02-ex-1" ∷ []);
  };
}

abbrev exam_db : Db
exam_db = record { attempts = first_question ∷ second_question ∷ []; exam_sessions = exam ∷ [] }

abbrev right : GradeResult
right = record {
  correct = true;
  correct_answer = Json.str "a";
  solution_steps = [];
  explanation = none;
}

abbrev score : ExamResult
score = record {
  score = some 5_000;
  correct = 1;
  total = 2;
  blocks =
      record { block_id = "block-a"; title = "A"; correct = 1; total = 2; score = some 5_000 } ∷ [];
  modules =
      record {
        module_id = "k01";
        title = "First";
        block_id = "block-a";
        correct = true;
        unanswered = false;
      }
      ∷ record {
        module_id = "k02";
        title = "Second";
        block_id = "block-a";
        correct = false;
        unanswered = true;
      }
      ∷ [];
}

abbrev closed : Attempt → Bool → Attempt
closed a correct = record a {
  is_correct = some correct;
  state = AttemptState.answered;
  answered_at = some 9;
}

abbrev submitted_exam : ExamSession
submitted_exam = record exam {
  finished_at = some 9;
  rules = record (exam.rules) { status = ExamStatus.submitted; result = some score };
}

abbrev submitted_db : Db
submitted_db = record {
  attempts = closed first_question true ∷ closed second_question false ∷ [];
  exam_sessions = submitted_exam ∷ [];
}

grades :
    grade_exam platform registry "en" 9 exam_db 7 50 "crypto" ≡ ok (submitted_exam, submitted_db)
unfolding program grade_exam attempts_of canonical_place canonical_order Exams.load_owned sort_by
    insert_all get_text block_title module_title
grades = refl

grade_exam-counts_example :
    (result : ExamResult) × (get_session submitted_db 50 ≡ some submitted_exam)
    × (submitted_exam.rules.result ≡ some result)
    × (result.total ≡ length (select (in_session 50) exam_db.attempts))
    × (result.correct
        ≡ count_if
            (graded_correct platform registry "en" 9)
            (select (in_session 50) exam_db.attempts))
    × (result.correct ≤ result.total)
grade_exam-counts_example =
    grade_exam-counts platform registry "en" 9 exam_db submitted_db 7 50 "crypto" submitted_exam
      grades

grade_exam-blocks_example :
    (result : ExamResult) × (get_session submitted_db 50 ≡ some submitted_exam)
    × (submitted_exam.rules.result ≡ some result)
    × Distinct (map (λ b. b.block_id) result.blocks)
    × (sum_by (λ b. b.total) result.blocks ≡ result.total)
    × (sum_by (λ b. b.correct) result.blocks ≡ result.correct)
grade_exam-blocks_example =
    grade_exam-blocks platform registry "en" 9 exam_db submitted_db 7 50 "crypto" submitted_exam
      grades

owned : Attempts.load_owned registry exam_db 7 1 ≡ ok first_question
unfolding program Attempts.load_owned
owned = refl

mine : Exams.load_owned exam_db 7 50 (slug registry) ≡ ok exam
unfolding program Exams.load_owned
mine = refl

playable : resolve registry (display_id registry first_question) ≡ ok (ExerciseType.quiz, tt)
unfolding program resolve
playable = refl

graded : (platform.get_generator ExerciseType.quiz).grade tt 12 answer "en" ≡ ok right
unfolding program
graded = refl

distinct : Distinct ("k01-ex-1" ∷ "k02-ex-1" ∷ [])
unfolding contains str_eq
distinct = (refl, (refl, tt))

abbrev value_of : {A : Type 0} → Result A → A → A
value_of (ok a) d = a
value_of (err e) d = d

abbrev no_view : ExamView
no_view = record {
  id = 0;
  scope = "";
  block_id = none;
  block_title_of = none;
  status = ExamStatus.open_exam;
  created_at = 0;
  finished_at = none;
  questions = [];
  result = none;
}

abbrev shown_exam : ExamView
shown_exam =
    value_of (build_view platform registry exam (second_question ∷ first_question ∷ []) "en" false)
      no_view

shows :
    build_view platform registry exam (second_question ∷ first_question ∷ []) "en" false
    ≡ ok shown_exam
unfolding program build_view sort_by insert_all get_text block_title module_title Exams.frozen_order
shows = refl

-- The rows are read in the other order.
build_view-question_order_example :
    map (λ q. q.attempt_id) shown_exam.questions
    ≡ map
        (λ a. a.id)
        (select (is_shown platform registry "en" false) (first_question ∷ second_question ∷ []))
build_view-question_order_example =
    build_view-question_order platform registry "en" false exam
      (first_question ∷ second_question ∷ []) (second_question ∷ first_question ∷ []) shown_exam
      refl distinct (Permᴰ.swap refl refl) shows

submit_answer-answer_question_example :
    ((submit_answer platform registry exam_db 7 1 answer "en" 6).0
      ≡ ok (resolved first_question answer true 6, right))
    × ((answer_question
          (submit_answer platform registry exam_db 7 1 answer "en" 6).1
          7
          50
          (slug registry)
          1
          []).0
        ≡ ok tt)
submit_answer-answer_question_example =
    submit_answer-answer_question platform registry exam_db 7 1 answer "en" 6 first_question exam
      ExerciseType.quiz tt right [] owned refl refl mine refl playable graded

abbrev draws : Draws
draws = record {
  choice = λ i. i;
  seed = λ i. i + 20;
  attempt_id = λ i. i + 200;
  exam_id = 60;
  now = 8;
}

abbrev started : ExamSession × Db
started =
    value_of (assemble platform registry draws 7 "crypto" "en" exam_db "global" none)
      (exam, exam_db)

starts :
    assemble platform registry draws 7 "crypto" "en" exam_db "global" none
    ≡ ok (started.0, started.1)
unfolding program assemble scope_modules playable_module_exercises sort_by
starts = refl

assemble-once_example :
    count_if
      (is_open_of 7 "crypto" started.0.rules.scope started.0.rules.block_id)
      started.1.exam_sessions
    ≡ 1
assemble-once_example =
    assemble-once platform registry draws 7 "crypto" "en" exam_db "global" none ((λ e. refl), tt)
      started.0 started.1 starts

accepts : (answer_question exam_db 7 50 "crypto" 2 answer).0 ≡ ok tt
unfolding program answer_question Exams.load_owned
accepts = refl

answer_question_iff_example :
    ((answer_question exam_db 7 50 "crypto" 2 answer).0 ≡ ok tt)
    ↔ ((e : ExamSession) × (a : Attempt) × IsAnswerable exam_db 7 50 "crypto" 2 answer e a)
answer_question_iff_example = answer_question_iff exam_db 7 50 "crypto" 2 answer

answer_question-get_attempt_example :
    let db' = (answer_question exam_db 7 50 "crypto" 2 answer).1 in
    (get_attempt db' 2 ≡ some (record second_question { given_answer = some answer }))
    × (db'.exam_sessions ≡ exam_db.exam_sessions)
answer_question-get_attempt_example =
    answer_question-get_attempt exam_db 7 50 "crypto" 2 answer second_question 2 accepts refl

grade_exam_once_example :
    (submit_exam platform registry "es" 10 submitted_db 7 50 "crypto"
      ≡ (err (app "EXAM_NOT_OPEN" 409), submitted_db))
    × (answer_question submitted_db 7 50 "crypto" 1 []
        ≡ (err (app "EXAM_NOT_OPEN" 409), submitted_db))
grade_exam_once_example =
    grade_exam_once platform registry "en" 9 exam_db submitted_db 7 50 "crypto" submitted_exam
      grades "es" 10 1 []

-- The exam of two questions, one of them without an answer.
grade_exam_total_example :
    (exam' : ExamSession) × (db' : Db) × (grade_exam platform registry "en" 9 exam_db 7 50 "crypto"
      ≡ ok (exam', db'))
    × (get_session db' 50 ≡ some exam')
    × (exam'.rules.status ≡ ExamStatus.submitted)
    × (result : ExamResult) × (exam'.rules.result ≡ some result)
    × (result.total ≡ length (select (in_session 50) exam_db.attempts))
unfolding program Exams.load_owned contains text_languages
grade_exam_total_example =
    grade_exam_total platform manifest [] configs manifest-IsWellFormed "en" refl 9 exam_db 7 50
      "crypto" exam refl refl
