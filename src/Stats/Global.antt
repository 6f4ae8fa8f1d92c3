-- ===== src/Stats/Global.antt =====
-- backend/src/tradeschool/stats/service.py, `global_stats`: where all learners struggle, on first
-- attempts only, and only where enough learners have tried.
use tradeschool.Base.{
  ℕ, suc, ◌+◌, ◌==◌, leb, String, Bool, ◌&&◌, Option, none, some, List, [], ◌∷◌, ◌++◌, map, any,
  if◌then◌else◌, str_eq, or_else, select, length, Result, ok, ◌>>=◌, traverse,
}
use tradeschool.Base.Dict.{Dict, lookup, insert}
use tradeschool.Base.Sort.{sort_by}
use tradeschool.Content.Registry.{
  CourseRegistry, slug, exercise_id_for_key, exercise_location, module_title,
}
use tradeschool.Exercises.Generator.{Platform}
use tradeschool.Exams.Submit.{ratio, one_if}
use tradeschool.Store.{Attempt, Db}
use tradeschool.Stats.{Agg, empty_agg, answered_attempts, was_correct}

abbrev pub min_learners_for_global : ℕ
min_learners_for_global = 3

-- A first attempt: who, at which exercise key, and whether it was correct.
pub record First : Type 0 where
  pub user_id : ℕ
  pub exercise_key : String
  pub correct : Bool

-- Whether `first_seen` has the key of an attempt.
abbrev pub is_first_of : ℕ → String → First → Bool
is_first_of user_id key f = f.user_id == user_id && str_eq f.exercise_key key

-- `first_seen`, in the order of insertion.
unfoldable pub first_seen_of : List First → List Attempt → List First
first_seen_of seen [] = seen
first_seen_of seen (a ∷ rest) =
    let next =
      seen
      ++ record { user_id = a.user_id; exercise_key = a.exercise_id; correct = was_correct a }
        ∷ [] in
    first_seen_of (if any (is_first_of a.user_id a.exercise_id) seen then seen else next) rest

-- The dictionaries of the page; a set of learners is a list without repetitions.
pub record Crowd : Type 0 where
  pub by_exercise : Dict Agg
  pub by_module : Dict Agg
  pub exercise_learners : Dict (List ℕ)
  pub module_learners : Dict (List ℕ)

abbrev pub empty_crowd : Crowd
empty_crowd = record {
  by_exercise = [];
  by_module = [];
  exercise_learners = [];
  module_learners = [];
}

-- `d[k]` of a `defaultdict`, after one more first attempt.
abbrev pub add_first : String → Bool → Dict Agg → Dict Agg
add_first k correct d =
    let agg = or_else (lookup k d) empty_agg in
    insert k
      (record agg {
        first_seen = suc agg.first_seen;
        first_correct = agg.first_correct + one_if correct;
      })
      d

-- `d[k].add(user)` for sets.
abbrev pub add_learner : String → ℕ → Dict (List ℕ) → Dict (List ℕ)
add_learner k user_id d =
    let users = or_else (lookup k d) [] in
    insert k (if any (λ u. u == user_id) users then users else users ++ user_id ∷ []) d

-- One entry of `exercises`.
pub record ExerciseRow : Type 0 where
  pub exercise_id : String
  pub module_id : String
  pub learners : ℕ
  pub first_seen : ℕ
  pub first_correct : ℕ
  pub first_attempt_accuracy : Option ℕ

-- One entry of `modules`.
pub record CrowdRow : Type 0 where
  pub module_id : String
  pub title : Option String
  pub learners : ℕ
  pub first_seen : ℕ
  pub first_correct : ℕ
  pub first_attempt_accuracy : Option ℕ

pub record GlobalStats : Type 0 where
  pub min_learners : ℕ
  pub exercises : List ExerciseRow
  pub modules : List CrowdRow

abbrev pub learners_of : Dict (List ℕ) → String → ℕ
learners_of d k = length (or_else (lookup k d) [])

-- The rows that enough learners stand behind.
abbrev pub enough : Dict (List ℕ) → Dict Agg → Dict Agg
enough learners = select (λ (k, agg). leb min_learners_for_global (learners_of learners k))

module _ {Config : Type 0} (platform : Platform Config) (registry : CourseRegistry Config)
    (locale : String) where
  abbrev pub exercise_of_key : String → Option (String × String)
  exercise_of_key key = elim (exercise_id_for_key registry key) [
    | none ↦ none
    | some id ↦ elim (exercise_location registry id) [
      | none ↦ none
      | some (_, module_id) ↦ if str_eq id "" then none else some (id, module_id)
    ]
  ]

  -- The body of the loop over `first_seen`: an exercise that the course has dropped is left out.
  abbrev pub crowd_one : Crowd → First → Crowd
  crowd_one c f = elim (exercise_of_key f.exercise_key) [
    | none ↦ c
    | some (id, module_id) ↦ record {
      by_exercise = add_first id f.correct c.by_exercise;
      by_module = add_first module_id f.correct c.by_module;
      exercise_learners = add_learner id f.user_id c.exercise_learners;
      module_learners = add_learner module_id f.user_id c.module_learners;
    }
  ]

  unfoldable pub crowd_of : Crowd → List First → Crowd
  crowd_of c [] = c
  crowd_of c (f ∷ rest) = crowd_of (crowd_one c f) rest

  -- The key of the order: the lowest accuracy first, no accuracy last; 10000 stands for 1.0.
  abbrev pub accuracy_place : Option ℕ → ℕ
  accuracy_place accuracy = or_else accuracy 10_000

  abbrev pub exercise_row : Crowd → String × Agg → ExerciseRow
  exercise_row c (id, agg) = record {
    exercise_id = id;
    module_id = (or_else (exercise_location registry id) ("", "")).1;
    learners = learners_of c.exercise_learners id;
    first_seen = agg.first_seen;
    first_correct = agg.first_correct;
    first_attempt_accuracy = ratio platform agg.first_correct agg.first_seen;
  }

  abbrev pub crowd_row : Crowd → String × Agg → Result CrowdRow
  crowd_row c (id, agg) = do
    title ← module_title registry id locale
    ok (record {
      module_id = id;
      title = title;
      learners = learners_of c.module_learners id;
      first_seen = agg.first_seen;
      first_correct = agg.first_correct;
      first_attempt_accuracy = ratio platform agg.first_correct agg.first_seen;
    })

  -- What the page shows.
  abbrev pub global_page : Crowd → List CrowdRow → GlobalStats
  global_page c rows = record {
    min_learners = min_learners_for_global;
    exercises =
        sort_by (λ r. accuracy_place r.first_attempt_accuracy)
          (map (exercise_row c) (enough c.exercise_learners c.by_exercise));
    modules = sort_by (λ r. accuracy_place r.first_attempt_accuracy) rows;
  }

  unfoldable pub global_stats : Db → Result GlobalStats
  unfolding first_seen_of crowd_of answered_attempts
  global_stats db = do
    let c = crowd_of empty_crowd (first_seen_of [] (answered_attempts db (slug registry) none))
    rows ← traverse (crowd_row c) (enough c.module_learners c.by_module)
    ok (global_page c rows)
