-- ===== src/Exams.antt =====
-- backend/src/tradeschool/exams/service.py, the helpers: sentinel answers, the modules of a scope, the
-- sessions and attempts of a user, the frozen order, and abandoning a session. The views and the
-- handlers are in the children View, Start, Submit and Handlers; the other children are about them.
pub mod View
pub mod Start
pub mod Submit
pub mod Handlers
pub mod Feedback
pub mod Order
pub mod Shown
pub mod Scores
pub mod Sums
pub mod Blocks
pub mod Single
pub mod Questions
pub mod Answer
pub mod Closed
pub mod Final
pub mod Kept
pub mod Graded
pub mod Steps
pub mod Filled
pub mod Total
use tradeschool.Base.{
  ℕ, ◌+◌, ◌==◌, String, Bool, true, false, not, ◌&&◌, ◌||◌, Option, none, some, List, [], ◌∷◌, ◌++◌,
  map, reverse, length, if◌then◌else◌, str_eq, or_else, or_text, opt_str_eq, select, find,
  enumerate, Result, ok, err, Failure, app, ◌>>=◌, ◌>>◌, raise_if, or_raise,
}
use tradeschool.Base.Dict.{Dict, lookup, insert_all}
use tradeschool.Base.Json.{Json, Object, Items, Fields}
use tradeschool.Base.Sort.{sort_by}
use tradeschool.Content.Schema.{ExerciseType, Block, CourseModule, iter_modules}
use tradeschool.Content.Registry.{
  CourseRegistry, exercise_id_for_key, exercise_location, module_id_for_key,
  playable_module_exercises,
}
use tradeschool.Store.{
  AttemptState, Attempt, ExamStatus, is_open_exam, ExamSession, ExamRules, ExamResult, ModuleScore,
  Db, get_session, put_session, in_session, is_submitted,
}

-- `payload.get("kind") == kind`
abbrev pub has_kind : Object → String → Bool
has_kind payload kind = elim (lookup "kind" payload) [
  | some (Json.str k) ↦ str_eq k kind
  | _ ↦ false
]

-- A wrong answer of the right shape, for a quiz by its kind.
abbrev pub sentinel_quiz : Object → Object
sentinel_quiz payload =
    if has_kind payload "multi_select"
    then ("optionIds", Json.arr Items.nil) ∷ []
    else if has_kind payload "true_false"
    then ("value", Json.bool false) ∷ []
    else if has_kind payload "ordering"
    then ("order", Json.arr Items.nil) ∷ []
    else if has_kind payload "matching"
    then ("pairs", Json.obj Fields.end) ∷ []
    else ("optionId", Json.str "") ∷ []

-- `_sentinel_answer`
pub sentinel_answer : ExerciseType → Object → Object
sentinel_answer ExerciseType.pattern_chart payload = ("label", Json.str "") ∷ []
sentinel_answer ExerciseType.synthetic_chart payload = ("divergence", Json.str "") ∷ []
sentinel_answer ExerciseType.fixture_chart payload = ("divergence", Json.str "") ∷ []
sentinel_answer ExerciseType.quiz payload = sentinel_quiz payload
sentinel_answer ExerciseType.calculation payload = ("optionId", Json.str "") ∷ []

module _ {Config : Type 0} (registry : CourseRegistry Config) where
  -- The loop of `_scope_modules`.
  unfoldable pub scope_modules_of :
      String → Option String → List (Block × CourseModule) → Result (List (String × String))
  scope_modules_of scope block_id [] = ok []
  scope_modules_of scope block_id ((b, m) ∷ rest) =
      let others = scope_modules_of scope block_id rest in
      if str_eq scope "block" && not (opt_str_eq (some b.id) block_id) then others else (do
        playable ← playable_module_exercises registry m.id
        more ← others
        ok (elim playable [ [] ↦ more | _ ∷ _ ↦ (b.id, m.id) ∷ more ]))

  -- `_scope_modules`: block and module, in canonical order, where something is playable.
  unfoldable pub scope_modules : String → Option String → Result (List (String × String))
  unfolding scope_modules_of
  scope_modules scope block_id = scope_modules_of scope block_id (iter_modules registry.manifest)

  -- `_canonical_order`
  unfoldable pub canonical_order : Dict ℕ
  canonical_order =
      insert_all (map (λ (i, (b, m)). (m.id, i)) (enumerate 0 (iter_modules registry.manifest))) []

  abbrev pub display_id : Attempt → String
  display_id a = or_text (exercise_id_for_key registry a.exercise_id) a.exercise_id

  -- The place of an attempt by today's manifest, and 10000 for what it does not list.
  unfoldable pub canonical_place : Attempt → ℕ
  canonical_place a = elim (exercise_location registry (display_id a)) [
    | none ↦ 10_000
    | some (b_id, m_id) ↦ or_else (lookup m_id canonical_order) 10_000
  ]

  -- `_result_for_view`: the stored keys of modules as display ids.
  pub result_for_view : ExamResult → ExamResult
  result_for_view result = record result {
    modules =
        map
          (λ (m : ModuleScore). record m {
            module_id = or_text (module_id_for_key registry m.module_id) m.module_id;
          })
          result.modules;
  }

-- `_load_owned`
unfoldable pub load_owned : Db → (user_id exam_id : ℕ) (course_id : String) → Result ExamSession
load_owned db user_id exam_id course_id = do
  exam ← or_raise (get_session db exam_id) (app "EXAM_NOT_FOUND" 404)
  raise_if (not (exam.user_id == user_id) || not (str_eq exam.course_id course_id))
      (app "EXAM_NOT_FOUND" 404)
  ok exam

abbrev pub is_unfinished : ℕ → String → ExamSession → Bool
is_unfinished user_id course_id s =
    s.user_id == user_id
    && str_eq s.course_id course_id
    && (elim s.finished_at [ none ↦ true | some _ ↦ false ])

-- `_open_sessions`, newest first.
unfoldable pub open_sessions : Db → (user_id : ℕ) (course_id : String) → List ExamSession
open_sessions db user_id course_id =
    select (λ s. is_open_exam s.rules.status)
      (reverse
        (sort_by (λ s. s.created_at) (select (is_unfinished user_id course_id) db.exam_sessions)))

-- `_attempts_of`, by id.
unfoldable pub attempts_of : Db → (exam_id : ℕ) → List Attempt
attempts_of db exam_id = sort_by (λ a. a.id) (select (in_session exam_id) db.attempts)

abbrev pub abandon_of : ℕ → List Attempt → List Attempt
abandon_of exam_id =
    map (λ a. if in_session exam_id a then record a { state = AttemptState.abandoned } else a)

-- `_abandon`
unfoldable pub abandon : (now : ℕ) → Db → ExamSession → Db
abandon now db exam =
    let closed : ExamSession = record exam {
      finished_at = some now;
      rules = record (exam.rules) { status = ExamStatus.abandoned_exam };
    } in
    record {
      attempts = abandon_of exam.id db.attempts;
      exam_sessions = put_session closed db.exam_sessions;
    }

-- `_frozen_order`: the place of each key, for a session that has its order.
unfoldable pub frozen_order : ExamSession → Option (Dict ℕ)
frozen_order exam = elim exam.rules.question_order [
  | none ↦ none
  | some [] ↦ none
  | some (k ∷ ks) ↦ some (insert_all (map (λ (i, key). (key, i)) (enumerate 0 (k ∷ ks))) [])
]
