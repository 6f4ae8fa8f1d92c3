-- ===== src/Exams/Submit.antt =====
-- backend/src/tradeschool/exams/service.py, `submit_exam`: every question is graded, unanswered ones as
-- wrong, and the tallies by module and by block are stored in the session.
use tradeschool.Base.{
  ℕ, ◌+◌, ◌==◌, String, Bool, true, false, not, Option, none, some, List, [], ◌∷◌, ◌++◌, length,
  if◌then◌else◌, str_eq, or_else, or_text, is_some, traverse, Result, ok, err, app, key_error,
  ◌>>=◌, ◌>>◌, raise_if, or_raise,
}
use tradeschool.Base.Dict.{Dict, lookup, insert, has_key}
use tradeschool.Base.Sort.{sort_by}
use tradeschool.Content.Registry.{
  CourseRegistry, get_exercise_config, exercise_location, block_title, module_title, module_key,
}
use tradeschool.Exercises.Generator.{Platform}
use tradeschool.Store.{
  AttemptState, Attempt, ExamStatus, is_open_exam, ExamSession, ExamResult, ModuleScore, BlockScore,
  Db, put_attempt, put_session,
}
use tradeschool.Exams.{canonical_place, display_id, load_owned, attempts_of}
use tradeschool.Exams.View.{ExamView, build_view}

-- The variables of the loop; `attempts` is the table with the rows that were changed so far.
pub record Tally : Type 0 where
  pub attempts : List Attempt
  pub per_module : List ModuleScore
  pub block_order : List String
  pub block_titles : Dict String
  pub block_correct : Dict ℕ
  pub block_total : Dict ℕ
  pub correct_total : ℕ

abbrev pub empty_tally : List Attempt → Tally
empty_tally attempts = record {
  attempts = attempts;
  per_module = [];
  block_order = [];
  block_titles = [];
  block_correct = [];
  block_total = [];
  correct_total = 0;
}

-- `d[k] += n`, for a key that is there.
abbrev pub increase : String → ℕ → Dict ℕ → Result (Dict ℕ)
increase k n d = do old ← or_raise (lookup k d) key_error; ok (insert k (old + n) d)

abbrev pub one_if : Bool → ℕ
one_if true = 1
one_if false = 0

-- `_ratio`
abbrev pub ratio : {Config : Type 0} → Platform Config → ℕ → ℕ → Option ℕ
ratio platform num den = if den == 0 then none else some (platform.round_ratio num den)

module _ {Config : Type 0} (platform : Platform Config) (registry : CourseRegistry Config)
    (locale : String) (now : ℕ) where
  -- Whether an attempt counts as correct: only an answer that can be graded does.
  unfoldable pub graded_correct : Attempt → Bool
  graded_correct a = elim a.given_answer [
    | none ↦ false
    | some answer ↦ elim (get_exercise_config registry (display_id registry a)) [
      | none ↦ false
      | some (exercise_type, cfg) ↦
          elim ((platform.get_generator exercise_type).grade cfg a.seed answer locale) [
            | err _ ↦ false
            | ok graded ↦ graded.correct
          ]
    ]
  ]

  abbrev pub closed_attempt : Attempt → Attempt
  closed_attempt a = record a {
    is_correct = some (graded_correct a);
    state = AttemptState.answered;
    answered_at = some now;
  }

  -- A block that is met for the first time.
  abbrev pub enter_block : String → Tally → Result Tally
  enter_block b_id t =
      let entered = (do
        title ← block_title registry b_id locale
        ok (record t {
          block_order = t.block_order ++ b_id ∷ [];
          block_titles = insert b_id (or_text title b_id) t.block_titles;
          block_correct = insert b_id 0 t.block_correct;
          block_total = insert b_id 0 t.block_total;
        })) in
      if has_key b_id t.block_total then ok t else entered

  -- The key of a module for storage; the empty id of an unknown exercise stays.
  abbrev pub stored_module : String → Result String
  stored_module m_id = let key = module_key registry m_id in if str_eq m_id "" then ok m_id else key

  abbrev pub location_of : Attempt → String × String
  location_of a = or_else (exercise_location registry (display_id registry a)) ("", "")

  -- The entry of a question in the result.
  abbrev pub score_of : Attempt → Result ModuleScore
  score_of a = do
    let (b_id, m_id) = location_of a
    key ← stored_module m_id
    m_title ← module_title registry m_id locale
    ok (record {
      module_id = key;
      title = or_text m_title m_id;
      block_id = b_id;
      correct = graded_correct a;
      unanswered = not (is_some a.given_answer);
    })

  abbrev pub noted : Tally → Attempt → ModuleScore → Tally
  noted t a score = record t {
    attempts = put_attempt (closed_attempt a) t.attempts;
    per_module = t.per_module ++ score ∷ [];
  }

  -- The three sums, for a block that was entered.
  abbrev pub count_question : String → Bool → Tally → Result Tally
  count_question b_id is_correct t = do
    totals ← increase b_id 1 t.block_total
    corrects ← increase b_id (one_if is_correct) t.block_correct
    ok (record t {
      block_total = totals;
      block_correct = corrects;
      correct_total = t.correct_total + one_if is_correct;
    })

  -- The body of the loop.
  unfoldable pub tally_one : Tally → Attempt → Result Tally
  unfolding graded_correct
  tally_one t a = do
    score ← score_of a
    entered ← enter_block (location_of a).0 (noted t a score)
    count_question (location_of a).0 (graded_correct a) entered

  unfoldable pub tally_all : Tally → List Attempt → Result Tally
  unfolding tally_one
  tally_all t [] = ok t
  tally_all t (a ∷ rest) = do t' ← tally_one t a; tally_all t' rest

  unfoldable pub block_score : Tally → String → Result BlockScore
  block_score t b = do
    title ← or_raise (lookup b t.block_titles) key_error
    correct ← or_raise (lookup b t.block_correct) key_error
    total ← or_raise (lookup b t.block_total) key_error
    ok (record {
      block_id = b;
      title = title;
      correct = correct;
      total = total;
      score = ratio platform correct total;
    })

  unfoldable pub exam_result : Tally → Result ExamResult
  unfolding block_score
  exam_result t = do
    blocks ← traverse (block_score t) t.block_order
    ok (record {
      score = ratio platform t.correct_total (length t.per_module);
      correct = t.correct_total;
      total = length t.per_module;
      blocks = blocks;
      modules = t.per_module;
    })

  -- All that `submit_exam` does up to its commit.
  unfoldable pub grade_exam :
      Db → (user_id exam_id : ℕ) (course_id : String) → Result (ExamSession × Db)
  unfolding tally_all exam_result
  grade_exam db user_id exam_id course_id = do
    exam ← load_owned db user_id exam_id course_id
    raise_if (not (is_open_exam exam.rules.status)) (app "EXAM_NOT_OPEN" 409)
    t ←
        tally_all (empty_tally db.attempts)
          (sort_by (canonical_place registry) (attempts_of db exam_id))
    result ← exam_result t
    let exam' : ExamSession = record exam {
      finished_at = some now;
      rules = record (exam.rules) { status = ExamStatus.submitted; result = some result };
    }
    ok (exam', record { attempts = t.attempts; exam_sessions = put_session exam' db.exam_sessions })

  unfoldable pub submit_exam :
      Db → (user_id exam_id : ℕ) (course_id : String) → Result ExamView × Db
  unfolding grade_exam
  submit_exam db user_id exam_id course_id = elim (grade_exam db user_id exam_id course_id) [
    | err e ↦ (err e, db)
    | ok (exam, db') ↦
        (build_view platform registry exam (attempts_of db' exam_id) locale true, db')
  ]
