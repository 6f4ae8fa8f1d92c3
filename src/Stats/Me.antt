-- ===== src/Stats/Me.antt =====
-- backend/src/tradeschool/stats/service.py, `me_stats`: the page of one learner.
use tradeschool.Base.{
  ℕ, zero, suc, ◌+◌, ◌-◌, ltb, leb, String, Bool, false, ◌&&◌, Option, none, some, List, [], ◌∷◌,
  ◌++◌, map, length, count_if, sum_by, contains, if◌then◌else◌, or_else, Result, ok, ◌>>=◌,
  traverse,
}
use tradeschool.Base.Dict.{Dict, lookup}
use tradeschool.Base.Sort.{sort_by}
use tradeschool.Content.Schema.{get_text, Block, CourseModule, iter_modules}
use tradeschool.Content.Registry.{
  CourseRegistry, slug, module_lesson_ids, module_exercise_ids, exercise_key, lesson_key,
  exercise_lesson_id,
}
use tradeschool.Exercises.Generator.{Platform}
use tradeschool.Exams.Submit.{ratio, one_if}
use tradeschool.Store.{Db}
use tradeschool.Stats.{
  ExerciseRoll, Agg, empty_agg, answered_attempts, roll_by_exercise, roll_all, rank_threshold,
}
use tradeschool.Stats.Rows.{Review, ModuleRow, Costly, CostlyRow, MeStats, Drill, Page, empty_page}

-- One roll on top of a sum.
abbrev pub add_roll : Agg → ExerciseRoll → Agg
add_roll agg roll = record {
  answered = agg.answered + roll.answered;
  correct = agg.correct + roll.correct;
  first_seen = suc agg.first_seen;
  first_correct = agg.first_correct + one_if (or_else roll.first_correct false);
  success_attempts = elim roll.attempts_to_success [
    | none ↦ agg.success_attempts
    | some n ↦ agg.success_attempts ++ n ∷ []
  ];
}

-- `xs[:n]`
abbrev pub take {ℓ} : {A : Type ℓ} → ℕ → List A → List A
take zero xs = []
take (suc n) [] = []
take (suc n) (x ∷ xs) = x ∷ take n xs

-- How many of a list pass a test that may raise.
abbrev pub count_where : (String → Result Bool) → List String → Result ℕ
count_where test xs = do bs ← traverse test xs; ok (count_if (λ b. b) bs)

module _ {Config : Type 0} (platform : Platform Config) (registry : CourseRegistry Config)
    (rolls : Dict ExerciseRoll) (completed_lessons : List String) (locale : String) where
  abbrev pub review_of : String → ExerciseRoll → Review
  review_of eid roll = record {
    exercise_id = eid;
    lesson_id = exercise_lesson_id registry eid;
    incorrect = roll.answered - roll.correct;
    passed = ltb 0 roll.correct;
  }

  -- The body of the loop over the exercises of a module, for one that was answered.
  abbrev pub drill_roll : Drill → String → ExerciseRoll → Drill
  drill_roll d eid roll = record {
    agg = add_roll d.agg roll;
    overall = add_roll d.overall roll;
    to_review =
        if ltb 0 (roll.answered - roll.correct)
        then d.to_review ++ review_of eid roll ∷ []
        else d.to_review;
  }

  unfoldable pub drill : Drill → List String → Result Drill
  drill d [] = ok d
  drill d (eid ∷ rest) = do
    key ← exercise_key registry eid
    drill (elim (lookup key rolls) [ none ↦ d | some roll ↦ drill_roll d eid roll ]) rest

  -- `passed` holds the keys of the exercises with a correct answer.
  abbrev pub is_passed : String → Result Bool
  is_passed eid = do
    key ← exercise_key registry eid
    ok (elim (lookup key rolls) [ none ↦ false | some roll ↦ ltb 0 roll.correct ])

  abbrev pub is_done : String → Result Bool
  is_done lid = do key ← lesson_key registry lid; ok (contains key completed_lessons)

  abbrev pub module_row :
      Block
      → CourseModule
      → (title : String) (lessons done exercises passed : ℕ) → Drill
      → ModuleRow
  module_row b m title lessons done exercises passed d = record {
    id = m.id;
    title = title;
    block_id = b.id;
    lessons_total = lessons;
    lessons_completed = done;
    exercises_total = exercises;
    exercises_passed = passed;
    answered = d.agg.answered;
    accuracy = ratio platform d.agg.correct d.agg.answered;
    first_attempt_accuracy = ratio platform d.agg.first_correct d.agg.first_seen;
    correct = d.agg.correct;
    first_seen = d.agg.first_seen;
    first_correct = d.agg.first_correct;
    exercises_failed = length d.to_review;
    to_review = d.to_review;
  }

  -- Whether a module is ranked among the costliest.
  abbrev pub is_costly : Agg → ℕ → Bool
  is_costly agg exercises =
      ltb 0 (agg.answered - agg.correct) && leb (rank_threshold exercises) agg.first_seen

  -- The body of the loop over the modules, for a published one.
  abbrev pub published_module : Page → Block → CourseModule → List String → Result Page
  published_module p b m lesson_ids = do
    done ← count_where is_done lesson_ids
    exercise_ids ← module_exercise_ids registry m.id
    d ← drill (record { agg = empty_agg; overall = p.overall; to_review = [] }) exercise_ids
    title ← get_text m.title locale
    passed ← count_where is_passed exercise_ids
    ok (record {
      overall = d.overall;
      module_rows =
          p.module_rows
          ++ module_row b m title (length lesson_ids) done (length exercise_ids) passed d ∷ [];
      costly_src =
          if is_costly d.agg (length exercise_ids)
          then p.costly_src
            ++ record { id = m.id; title = title; agg = d.agg; to_review = d.to_review } ∷ []
          else p.costly_src;
      published_lessons = p.published_lessons + length lesson_ids;
      completed_published = p.completed_published + done;
      published_modules = suc p.published_modules;
      total_modules = p.total_modules;
    })

  unfoldable pub page : Page → List (Block × CourseModule) → Result Page
  unfolding drill
  page p [] = ok p
  page p ((b, m) ∷ rest) = do
    let counted : Page = record p { total_modules = suc p.total_modules }
    lesson_ids ← module_lesson_ids registry m.id
    p' ← elim lesson_ids [ [] ↦ ok counted | l ∷ ls ↦ published_module counted b m (l ∷ ls) ]
    page p' rest

-- The largest first; equal ones keep their order.
abbrev pub most_first {ℓ} : {A : Type ℓ} → (A → ℕ) → List A → List A
most_first f xs = sort_by (λ x. sum_by f xs - f x) xs

module _ {Config : Type 0} (platform : Platform Config) (average : List ℕ → Option ℕ) where
  -- `_ratio(first_correct, first_seen)`
  abbrev pub first_accuracy : Agg → Option ℕ
  first_accuracy agg = ratio platform agg.first_correct agg.first_seen

  abbrev pub costly_order : List Costly → List Costly
  costly_order costly =
      most_first (λ c. c.agg.answered - c.agg.correct)
        (sort_by (λ c. or_else (first_accuracy c.agg) 0) costly)

  abbrev pub costly_row : Costly → CostlyRow
  costly_row c = record {
    module_id = c.id;
    title = c.title;
    incorrect = c.agg.answered - c.agg.correct;
    answered = c.agg.answered;
    correct = c.agg.correct;
    first_attempt_accuracy = first_accuracy c.agg;
    first_seen = c.agg.first_seen;
    first_correct = c.agg.first_correct;
    exercises_failed = length c.to_review;
    to_review = c.to_review;
  }

  -- What the page shows, from what the loop gathered.
  abbrev pub me_page : Page → MeStats
  me_page p = record {
    published_modules = p.published_modules;
    total_modules = p.total_modules;
    published_lessons = p.published_lessons;
    lessons_completed = p.completed_published;
    course_completion = ratio platform p.completed_published p.published_lessons;
    overall = p.overall;
    accuracy = ratio platform p.overall.correct p.overall.answered;
    first_attempt_accuracy = first_accuracy p.overall;
    avg_attempts_to_success = average p.overall.success_attempts;
    modules = p.module_rows;
    costliest_sections = map costly_row (take 5 (costly_order p.costly_src));
  }

  -- `me_stats`, for the keys of the completed lessons of this user in this course; `average` is `_avg`.
  unfoldable pub me_stats :
      CourseRegistry Config
      → Db
      → (user_id : ℕ) (completed_lessons : List String) (locale : String) → Result MeStats
  unfolding page roll_all answered_attempts
  me_stats registry db user_id completed_lessons locale = do
    let rolls = roll_by_exercise (answered_attempts db (slug registry) (some user_id))
    p ←
        page platform registry rolls completed_lessons locale empty_page
          (iter_modules registry.manifest)
    ok (me_page p)
