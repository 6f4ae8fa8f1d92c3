-- ===== src/Content/Sync/Twice.antt =====
-- All five tables under `reconcile` (backend/src/tradeschool/content/sync.py): settled for the course,
-- unchanged by a second run, and with the rows of every other course as they were.
use tradeschool.Base.{
  ℕ, String, ◌≡◌, ◌≢◌, refl, ap, subst, ◌∙◌, true, false, Option, List, [], ◌∷◌, arith, str_eq,
  str_eq_iff, str_eq_self, opt_str_eq, opt_str_eq_iff, select, ok, ◌>>=◌, bind_inverse,
  ok_injective,
}
use tradeschool.Content.Schema.{ExerciseType, type_eq, Manifest}
use tradeschool.Content.Sync.Upsert.{SyncSummary, in_scope}
use tradeschool.Content.Sync.Models.{
  CourseAttrs, BlockAttrs, ModuleAttrs, LessonAttrs, ExerciseAttrs, texts_eq, course_differs,
  block_differs, module_differs, lesson_differs, exercise_differs, Skeleton, skeleton,
}
use tradeschool.Content.Sync.Again.{IsSettled}
use tradeschool.Content.Sync.Idempotent.{upsert_settled, upsert-IsSettled, upsert_other}
use tradeschool.Content.Sync.Rows.{IsSkeletonOf, skeleton-IsSkeletonOf}
use tradeschool.Content.Sync.{
  Tables, of_course, of_block, of_module, of_lesson, of_exercise, no_changes, apply_skeleton,
  reconcile,
}

texts_eq_self : (xs : List String) → texts_eq xs xs ≡ true
texts_eq_self [] = refl
texts_eq_self (x ∷ xs) = ground (arith, str_eq_self x, texts_eq_self xs)

type_eq_self : (t : ExerciseType) → type_eq t t ≡ true
type_eq_self t = ground arith

course_same : (a : CourseAttrs) → course_differs a a ≡ false
unfolding course_differs
course_same a = ground arith

block_same : (a : BlockAttrs) → block_differs a a ≡ false
unfolding block_differs
block_same a = ground (arith, str_eq_self a.course_id)

module_same : (a : ModuleAttrs) → module_differs a a ≡ false
unfolding module_differs
module_same a =
    ground (arith, str_eq_self a.course_id, str_eq_self a.block_id, texts_eq_self a.assumes)

lesson_same : (a : LessonAttrs) → lesson_differs a a ≡ false
unfolding lesson_differs
lesson_same a = ground (arith, str_eq_self a.course_id, str_eq_self a.module_id)

opt_same : (s : Option String) → opt_str_eq s s ≡ true
opt_same s = (opt_str_eq_iff s s).1 refl

exercise_same : (a : ExerciseAttrs) → exercise_differs a a ≡ false
unfolding exercise_differs
exercise_same a = ground (
  arith,
  str_eq_self a.course_id,
  str_eq_self a.module_id,
  opt_same a.lesson_id,
  type_eq_self a.type,
)

-- The rows of one course, table by table.
abbrev pub rows_of : String → Tables → Tables
rows_of c db = record {
  courses = select (in_scope (of_course c)) db.courses;
  blocks = select (in_scope (of_block c)) db.blocks;
  modules = select (in_scope (of_module c)) db.modules;
  lessons = select (in_scope (of_lesson c)) db.lessons;
  exercises = select (in_scope (of_exercise c)) db.exercises;
}

-- In each of the tables the rows are those of the skeleton, active and with its attributes, and every
-- other row is inactive.
pub record IsSynced (c : String) (sk : Skeleton) (rows : Tables) : Type 0 where
  pub courses : IsSettled (of_course c) sk.courses rows.courses
  pub blocks : IsSettled (of_block c) sk.blocks rows.blocks
  pub modules : IsSettled (of_module c) sk.modules rows.modules
  pub lessons : IsSettled (of_lesson c) sk.lessons rows.lessons
  pub exercises : IsSettled (of_exercise c) sk.exercises rows.exercises

tables_eq :
    {s t : Tables}
    → s.courses ≡ t.courses
    → s.blocks ≡ t.blocks
    → s.modules ≡ t.modules
    → s.lessons ≡ t.lessons
    → s.exercises ≡ t.exercises
    → s ≡ t
tables_eq courses blocks modules lessons exercises = λ i. record {
  courses = courses i;
  blocks = blocks i;
  modules = modules i;
  lessons = lessons i;
  exercises = exercises i;
}

module _ (c : String) (sk : Skeleton) (good : IsSkeletonOf c sk) (db : Tables) where
  pub apply_skeleton-IsSynced : IsSynced c sk (rows_of c (apply_skeleton c sk db).0)
  unfolding apply_skeleton
  apply_skeleton-IsSynced = record {
    courses =
        upsert-IsSettled course_differs (of_course c) course_same sk.courses db.courses _
          good.courses;
    blocks =
        upsert-IsSettled block_differs (of_block c) block_same sk.blocks db.blocks _ good.blocks;
    modules =
        upsert-IsSettled module_differs (of_module c) module_same sk.modules db.modules _
          good.modules;
    lessons =
        upsert-IsSettled lesson_differs (of_lesson c) lesson_same sk.lessons db.lessons _
          good.lessons;
    exercises =
        upsert-IsSettled exercise_differs (of_exercise c) exercise_same sk.exercises db.exercises _
          good.exercises;
  }

  pub apply_skeleton_synced :
      IsSynced c sk (rows_of c db) → apply_skeleton c sk db ≡ (db, no_changes)
  unfolding apply_skeleton
  apply_skeleton_synced h =
      rw
        (
          upsert_settled course_differs (of_course c) course_same sk.courses db.courses no_changes
              good.courses h.courses,
          upsert_settled block_differs (of_block c) block_same sk.blocks db.blocks no_changes
              good.blocks h.blocks,
          upsert_settled module_differs (of_module c) module_same sk.modules db.modules no_changes
              good.modules h.modules,
          upsert_settled lesson_differs (of_lesson c) lesson_same sk.lessons db.lessons no_changes
              good.lessons h.lessons,
          upsert_settled exercise_differs (of_exercise c) exercise_same sk.exercises db.exercises
              no_changes good.exercises h.exercises,
        )
        refl

  apart : (d x : String) → d ≢ c → str_eq x c ≡ true → str_eq x d ≡ false
  apart d x n h = ground (arith, str_eq_iff x c, str_eq_iff x d, n)

  pub apply_skeleton_other :
      (d : String) → d ≢ c → rows_of d (apply_skeleton c sk db).0 ≡ rows_of d db
  unfolding apply_skeleton
  apply_skeleton_other d n =
      tables_eq
        (upsert_other (of_course c) (of_course d) (λ k a. apart d k n) course_differs sk.courses
          db.courses _ good.courses)
        (upsert_other (of_block c) (of_block d) (λ k a. apart d a.course_id n) block_differs
          sk.blocks db.blocks _ good.blocks)
        (upsert_other (of_module c) (of_module d) (λ k a. apart d a.course_id n) module_differs
          sk.modules db.modules _ good.modules)
        (upsert_other (of_lesson c) (of_lesson d) (λ k a. apart d a.course_id n) lesson_differs
          sk.lessons db.lessons _ good.lessons)
        (upsert_other (of_exercise c) (of_exercise d) (λ k a. apart d a.course_id n)
          exercise_differs sk.exercises db.exercises _ good.exercises)

-- A run that succeeds applies the rows that were built.
pub reconcile_applies :
    (manifest : Manifest) (order_index : ℕ) (db : Tables) (result : Tables × SyncSummary)
    → reconcile manifest order_index db ≡ ok result
    → (sk : Skeleton) × (skeleton manifest order_index ≡ ok sk)
      × (apply_skeleton manifest.course.id sk db ≡ result)
unfolding reconcile
reconcile_applies manifest order_index db result h =
    let (sk, last, built) =
      bind_inverse (λ sk. ok (apply_skeleton manifest.course.id sk db))
        (skeleton manifest order_index) h in
    (sk, built, ok_injective last)

-- After `reconcile`, the course has in each of the five tables exactly the rows of its manifest
-- active, each with the attributes that the manifest gives it, and any other row of the course is
-- inactive.
pub reconcile_settles :
    (manifest : Manifest) (order_index : ℕ) (db db' : Tables) (s : SyncSummary)
    → reconcile manifest order_index db ≡ ok (db', s)
    → (sk : Skeleton) × (skeleton manifest order_index ≡ ok sk)
      × IsSynced manifest.course.id sk (rows_of manifest.course.id db')
reconcile_settles manifest order_index db db' s h =
    let c = manifest.course.id in
    let (sk, built, applied) = reconcile_applies manifest order_index db (db', s) h in
    (
      sk,
      built,
      subst (λ (z : Tables × SyncSummary). IsSynced c sk (rows_of c z.0)) applied
          (apply_skeleton-IsSynced c sk (skeleton-IsSkeletonOf manifest order_index sk built) db),
    )

-- A run on tables that are synced already changes no row and counts no change.
pub reconcile_synced :
    (manifest : Manifest) (order_index : ℕ) (db : Tables) (sk : Skeleton)
    → skeleton manifest order_index ≡ ok sk
    → IsSynced manifest.course.id sk (rows_of manifest.course.id db)
    → reconcile manifest order_index db ≡ ok (db, no_changes)
unfolding reconcile
reconcile_synced manifest order_index db sk built h =
    let c = manifest.course.id in
    ap (λ z. z >>= λ sk'. ok (apply_skeleton c sk' db)) built
    ∙ ap ok (apply_skeleton_synced c sk (skeleton-IsSkeletonOf manifest order_index sk built) db h)

-- A second run of `reconcile` with the same manifest changes no row and counts no change.
pub reconcile_twice :
    (manifest : Manifest) (order_index : ℕ) (db db' : Tables) (s : SyncSummary)
    → reconcile manifest order_index db ≡ ok (db', s)
    → reconcile manifest order_index db' ≡ ok (db', no_changes)
reconcile_twice manifest order_index db db' s h =
    let (sk, built, synced) = reconcile_settles manifest order_index db db' s h in
    reconcile_synced manifest order_index db' sk built synced

-- `reconcile` of one course leaves the rows of every other course as they were, in all five tables.
pub reconcile_other :
    (manifest : Manifest) (order_index : ℕ) (db db' : Tables) (s : SyncSummary) (other : String)
    → reconcile manifest order_index db ≡ ok (db', s)
    → other ≢ manifest.course.id
    → rows_of other db' ≡ rows_of other db
reconcile_other manifest order_index db db' s other h n =
    let c = manifest.course.id in
    let (sk, built, applied) = reconcile_applies manifest order_index db (db', s) h in
    subst (λ (z : Tables × SyncSummary). rows_of other z.0 ≡ rows_of other db) applied
      (apply_skeleton_other c sk (skeleton-IsSkeletonOf manifest order_index sk built) db other n)
