-- ===== src/Stats.antt =====
-- backend/src/tradeschool/stats/service.py: what a learner's answered practice attempts amount to. An
-- average and a ratio are rounded by the platform.
pub mod Rows
pub mod Me
pub mod Rolls
pub mod Review
pub mod Global
pub mod Crowds
pub mod Learners
use tradeschool.Base.{
  ℕ, suc, ◌+◌, ◌-◌, ◌==◌, ltb, leb, min, String, Bool, true, false, not, ◌&&◌, Option, none, some,
  List, [], ◌∷◌, ◌++◌, if◌then◌else◌, str_eq, or_else, is_some, select,
}
use tradeschool.Base.Dict.{Dict, lookup, insert}
use tradeschool.Base.Sort.{sort_by}
use tradeschool.Store.{Attempt, Db, is_answered, is_practice}

-- `_ExerciseRoll`
pub record ExerciseRoll : Type 0 where
  pub answered : ℕ
  pub correct : ℕ
  pub first_correct : Option Bool
  pub attempts_to_success : Option ℕ

abbrev pub empty_roll : ExerciseRoll
empty_roll = record { answered = 0; correct = 0; first_correct = none; attempts_to_success = none }

-- `_ExerciseRoll.add`
unfoldable pub add : ExerciseRoll → Bool → ExerciseRoll
add r is_correct = record {
  answered = suc r.answered;
  correct = if is_correct then suc r.correct else r.correct;
  first_correct = some (or_else r.first_correct is_correct);
  attempts_to_success =
      if not (is_some r.attempts_to_success) && is_correct
      then some (suc r.answered)
      else r.attempts_to_success;
}

abbrev pub is_of_user : Option ℕ → Attempt → Bool
is_of_user none a = true
is_of_user (some u) a = a.user_id == u

-- `_answered`: the rows that count, by time and then by id.
pub answered_attempts : Db → (course_id : String) (user_id : Option ℕ) → List Attempt
answered_attempts db course_id user_id =
    sort_by (λ a. a.created_at)
      (sort_by (λ a. a.id)
        (select
          (λ a.
            str_eq a.course_id course_id
            && is_answered a.state
            && is_practice a
            && is_of_user user_id a)
          db.attempts))

-- `bool(a.is_correct)`
abbrev pub was_correct : Attempt → Bool
was_correct a = or_else a.is_correct false

-- `rolls[key]`, for a `defaultdict`.
abbrev pub roll_at : Dict ExerciseRoll → String → ExerciseRoll
roll_at rolls key = or_else (lookup key rolls) empty_roll

-- The loop of `_roll_by_exercise`.
unfoldable pub roll_all : Dict ExerciseRoll → List Attempt → Dict ExerciseRoll
unfolding add
roll_all rolls [] = rolls
roll_all rolls (a ∷ rest) =
    roll_all (insert a.exercise_id (add (roll_at rolls a.exercise_id) (was_correct a)) rolls) rest

-- `_roll_by_exercise`
abbrev pub roll_by_exercise : List Attempt → Dict ExerciseRoll
roll_by_exercise = roll_all []

-- `_Agg`
pub record Agg : Type 0 where
  pub answered : ℕ
  pub correct : ℕ
  pub first_seen : ℕ
  pub first_correct : ℕ
  pub success_attempts : List ℕ

abbrev pub empty_agg : Agg
empty_agg = record {
  answered = 0;
  correct = 0;
  first_seen = 0;
  first_correct = 0;
  success_attempts = [];
}

abbrev pub min_exercises_to_rank : ℕ
min_exercises_to_rank = 3

-- `_rank_threshold`
abbrev pub rank_threshold : ℕ → ℕ
rank_threshold exercises_total = min min_exercises_to_rank exercises_total
