-- ===== src/Exams/View.antt =====
-- backend/src/tradeschool/exams/service.py, `_build_view`: an exam as the router shows it, with the
-- questions in the order that was frozen when the exam was assembled.
use tradeschool.Base.{
  ℕ, String, Bool, false, not, ◌&&◌, Option, none, some, List, length, if◌then◌else◌, or_else,
  or_text, is_some, enumerate, present, traverse, Result, ok, err, ◌>>=◌,
}
use mathlib.Core.Option
use tradeschool.Base.{str_eq}
use tradeschool.Base.Dict.{lookup}
use tradeschool.Base.Json.{Object}
use tradeschool.Base.Sort.{sort_by}
use tradeschool.Content.Schema.{ExerciseType}
use tradeschool.Content.Registry.{
  CourseRegistry, get_exercise_config, exercise_location, block_title, module_title,
}
use tradeschool.Exercises.Generator.{GeneratedInstance, GradeResult, Platform}
use tradeschool.Store.{Attempt, ExamStatus, ExamSession, ExamResult}
use tradeschool.Exams.{sentinel_answer, canonical_place, display_id, result_for_view, frozen_order}

pub record ExamQuestionView : Type 0 where
  pub index : ℕ
  pub attempt_id : ℕ
  pub module_id : String
  pub module_title_of : String
  pub block_id : String
  pub block_title_of : String
  pub exercise_id : String
  pub exercise_type : ExerciseType
  pub instance_of : GeneratedInstance
  pub given_answer : Option Object
  pub answered : Bool
  pub is_correct : Option Bool
  pub unanswered : Bool
  pub result : Option GradeResult

pub record ExamView : Type 0 where
  pub id : ℕ
  pub scope : String
  pub block_id : Option String
  pub block_title_of : Option String
  pub status : ExamStatus
  pub created_at : ℕ
  pub finished_at : Option ℕ
  pub questions : List ExamQuestionView
  pub result : Option ExamResult

module _ {Config : Type 0} (platform : Platform Config) (registry : CourseRegistry Config) where
  -- Where an attempt stands: by the frozen order, unlisted keys last, or else by today's manifest.
  unfoldable pub sort_key : ExamSession → Attempt → ℕ
  sort_key exam a = elim (frozen_order exam) [
    | none ↦ canonical_place registry a
    | some frozen ↦ or_else (lookup a.exercise_id frozen) (length frozen)
  ]

  -- The grading that a review shows: a stored answer that cannot be graded still reveals the solution.
  abbrev pub reveal_result : ExerciseType → Config → Attempt → Object → String → Result GradeResult
  reveal_result exercise_type cfg a payload locale =
      let grade = (platform.get_generator exercise_type).grade cfg a.seed in
      let sentinel = sentinel_answer exercise_type payload in
      elim (grade (or_else a.given_answer sentinel) locale) [
        | ok r ↦ ok r
        | err _ ↦ grade sentinel locale
      ]

  -- The part of a question that only a review fills in.
  abbrev pub revealed : Attempt → ExamQuestionView → GradeResult → ExamQuestionView
  revealed a q r = record q {
    is_correct = some (or_else a.is_correct false && q.answered);
    unanswered = not q.answered;
    result = some r;
  }

  -- The body of the loop: nothing for an exercise that is not playable any more.
  unfoldable pub question_view :
      (locale : String) (reveal : Bool) → ℕ × Attempt → Result (Option ExamQuestionView)
  question_view locale reveal (index, a) =
      let exercise_id = display_id registry a in
      let (b_id, m_id) = or_else (exercise_location registry exercise_id) ("", "") in
      elim (get_exercise_config registry exercise_id) [
        | none ↦ ok none
        | some (exercise_type, cfg) ↦ do
          instance_of ← (platform.get_generator exercise_type).generate cfg a.seed locale
          m_title ← module_title registry m_id locale
          b_title ← block_title registry b_id locale
          let q : ExamQuestionView = record {
            index = index;
            attempt_id = a.id;
            module_id = m_id;
            module_title_of = or_text m_title m_id;
            block_id = b_id;
            block_title_of = or_text b_title b_id;
            exercise_id = exercise_id;
            exercise_type = exercise_type;
            instance_of = instance_of;
            given_answer = a.given_answer;
            answered = is_some a.given_answer;
            is_correct = none;
            unanswered = false;
            result = none;
          }
          let shown = do
            r ← reveal_result exercise_type cfg a instance_of.payload locale
            ok (some (revealed a q r))
          if reveal then shown else ok (some q)
      ]

  unfoldable pub question_views :
      (locale : String) (reveal : Bool)
      → ExamSession
      → List Attempt
      → Result (List ExamQuestionView)
  question_views locale reveal exam attempts = do
    qs ← traverse (question_view locale reveal) (enumerate 0 (sort_by (sort_key exam) attempts))
    ok (present qs)

  -- The title of the block that the exam is about; the empty text names no block.
  abbrev pub scope_title : Option String → String → Result (Option String)
  scope_title none locale = ok none
  scope_title (some b) locale =
      let title = block_title registry b locale in if str_eq b "" then ok none else title

  -- `_build_view`
  unfoldable pub build_view :
      ExamSession → List Attempt → (locale : String) (reveal : Bool) → Result ExamView
  unfolding question_view question_views sort_key
  build_view exam attempts locale reveal = do
    questions ← question_views locale reveal exam attempts
    title ← scope_title exam.rules.block_id locale
    ok (record {
      id = exam.id;
      scope = exam.rules.scope;
      block_id = exam.rules.block_id;
      block_title_of = title;
      status = exam.rules.status;
      created_at = exam.created_at;
      finished_at = exam.finished_at;
      questions = questions;
      result = Option.map (result_for_view registry) exam.rules.result;
    })
