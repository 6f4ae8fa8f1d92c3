-- ===== src/Store.antt =====
-- The tables of attempts and exam sessions: backend/src/tradeschool/attempts/models.py and
-- exams/models.py. Rows are kept in the order of insertion; a uuid is a number, a time a number of
-- ticks.
use tradeschool.Base.{
  ℕ, String, Bool, Option, none, some, List, ◌==◌, if◌then◌else◌, find, map, Result, ok, err, ◌≡◌,
  refl, arith, find-map_ne,
}
use tradeschool.Base.Json.{Object}
use tradeschool.Content.Schema.{ExerciseType}

pub data AttemptState : Type 0 where
  open_state answered abandoned : AttemptState

abbrev pub is_open : AttemptState → Bool
is_open open_state = Bool.true
is_open _ = Bool.false

abbrev pub is_answered : AttemptState → Bool
is_answered answered = Bool.true
is_answered _ = Bool.false

-- `instance_snapshot`
pub record Snapshot : Type 0 where
  pub type : ExerciseType
  pub prompt : String
  pub payload : Object

pub record Attempt : Type 0 where
  pub id : ℕ
  pub user_id : ℕ
  pub course_id : String
  pub exercise_id : String
  pub seed : ℕ
  pub instance_snapshot : Snapshot
  pub given_answer : Option Object
  pub is_correct : Option Bool
  pub state : AttemptState
  pub exam_session_id : Option ℕ
  pub created_at : ℕ
  pub answered_at : Option ℕ

pub data ExamStatus : Type 0 where
  open_exam submitted abandoned_exam : ExamStatus

abbrev pub is_open_exam : ExamStatus → Bool
is_open_exam open_exam = Bool.true
is_open_exam _ = Bool.false

abbrev pub is_submitted : ExamStatus → Bool
is_submitted submitted = Bool.true
is_submitted _ = Bool.false

-- One entry of `result["modules"]`.
pub record ModuleScore : Type 0 where
  pub module_id : String
  pub title : String
  pub block_id : String
  pub correct : Bool
  pub unanswered : Bool

-- One entry of `result["blocks"]`; a score is in ten-thousandths.
pub record BlockScore : Type 0 where
  pub block_id : String
  pub title : String
  pub correct : ℕ
  pub total : ℕ
  pub score : Option ℕ

pub record ExamResult : Type 0 where
  pub score : Option ℕ
  pub correct : ℕ
  pub total : ℕ
  pub blocks : List BlockScore
  pub modules : List ModuleScore

-- The `rules` of a session. `question_order` is missing in sessions from before it was frozen.
pub record ExamRules : Type 0 where
  pub scope : String
  pub block_id : Option String
  pub status : ExamStatus
  pub result : Option ExamResult
  pub question_order : Option (List String)

pub record ExamSession : Type 0 where
  pub id : ℕ
  pub user_id : ℕ
  pub course_id : String
  pub created_at : ℕ
  pub finished_at : Option ℕ
  pub rules : ExamRules

pub record Db : Type 0 where
  pub attempts : List Attempt
  pub exam_sessions : List ExamSession

-- `session.get(Attempt, id)` and `session.get(ExamSession, id)`
abbrev pub get_attempt : Db → ℕ → Option Attempt
get_attempt db id = find (λ a. a.id == id) db.attempts

abbrev pub get_session : Db → ℕ → Option ExamSession
get_session db id = find (λ s. s.id == id) db.exam_sessions

-- Changed attributes of one row, flushed: the row of that id is replaced.
abbrev pub put_attempt : Attempt → List Attempt → List Attempt
put_attempt a = map (λ x. if x.id == a.id then a else x)

abbrev pub put_session : ExamSession → List ExamSession → List ExamSession
put_session s = map (λ x. if x.id == s.id then s else x)

-- Whether an attempt is of that exam session.
abbrev pub in_session : ℕ → Attempt → Bool
in_session exam_id a = elim a.exam_session_id [ none ↦ Bool.false | some s ↦ s == exam_id ]

abbrev pub is_practice : Attempt → Bool
is_practice a = elim a.exam_session_id [ none ↦ Bool.true | some _ ↦ Bool.false ]

-- The end of a handler: what raised before the commit changed nothing.
abbrev pub commit : {A : Type 0} → Db → Result (A × Db) → Result A × Db
commit db (ok (a, db')) = (ok a, db')
commit db (err e) = (err e, db)

pub commit-eq-ok :
    {A : Type 0} (db : Db) (r : Result (A × Db)) (a : A)
    → (commit db r).0 ≡ ok a
    → (db' : Db) × (r ≡ ok (a, db')) × ((commit db r).1 ≡ db')
commit-eq-ok db (ok (b, db')) a h = (db', ground arith, refl)
commit-eq-ok db (err e) a h = cc

-- A row that is put back is found, under its id.
pub find-put_attempt :
    (a : Attempt) (i : ℕ) (xs : List Attempt)
    → find (λ x. x.id == i) (put_attempt a xs) ≡ (elim (find (λ x. x.id == i) xs) [
      | none ↦ none
      | some x ↦ some (if x.id == a.id then a else x)
    ])
find-put_attempt a i xs = find-map_ne (λ x. x.id == i) _ xs (λ x. ground arith)

pub find-put_session :
    (s : ExamSession) (i : ℕ) (xs : List ExamSession)
    → find (λ x. x.id == i) (put_session s xs) ≡ (elim (find (λ x. x.id == i) xs) [
      | none ↦ none
      | some x ↦ some (if x.id == s.id then s else x)
    ])
find-put_session s i xs = find-map_ne (λ x. x.id == i) _ xs (λ x. ground arith)
