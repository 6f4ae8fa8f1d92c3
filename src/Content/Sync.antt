-- ===== src/Content/Sync.antt =====
-- backend/src/tradeschool/content/sync.py: the manifests reconciled into the skeleton tables. A flush
-- only sends the writes so far to the database, so it is left out.
pub mod Upsert
pub mod Models
pub mod Pass
pub mod Drop
pub mod Settle
pub mod Again
pub mod Idempotent
pub mod Rows
pub mod Total
pub mod Twice
pub mod Expected
pub mod Synced
pub mod Catalog
pub mod Steady
pub mod Kept
use tradeschool.Base.{
  ℕ, ◌+◌, String, Bool, true, false, not, ◌&&◌, ◌||◌, List, [], ◌∷◌, map, count_if, if◌then◌else◌,
  ltb, leb, ◌==◌, str_eq, contains, enumerate, Result, ok, err, ◌>>=◌, fold_result, text_le,
}
use tradeschool.Content.Schema.{Manifest}
use tradeschool.Content.Registry.{CourseRegistry, slug}
use tradeschool.Content.Sync.Upsert.{Row, SyncSummary, upsert}
use tradeschool.Content.Sync.Models.{
  CourseAttrs, BlockAttrs, ModuleAttrs, LessonAttrs, ExerciseAttrs, course_differs, block_differs,
  module_differs, lesson_differs, exercise_differs, Skeleton, skeleton,
}

pub record Tables : Type 0 where
  pub courses : List (Row CourseAttrs)
  pub blocks : List (Row BlockAttrs)
  pub modules : List (Row ModuleAttrs)
  pub lessons : List (Row LessonAttrs)
  pub exercises : List (Row ExerciseAttrs)

-- The rows of a course: its own in `courses`, and those that name it in the other tables.
abbrev pub of_course : String → String → CourseAttrs → Bool
of_course course_id identifier _ = str_eq identifier course_id

abbrev pub of_block : String → String → BlockAttrs → Bool
of_block course_id _ a = str_eq a.course_id course_id

abbrev pub of_module : String → String → ModuleAttrs → Bool
of_module course_id _ a = str_eq a.course_id course_id

abbrev pub of_lesson : String → String → LessonAttrs → Bool
of_lesson course_id _ a = str_eq a.course_id course_id

abbrev pub of_exercise : String → String → ExerciseAttrs → Bool
of_exercise course_id _ a = str_eq a.course_id course_id

abbrev pub no_changes : SyncSummary
no_changes = record { inserted = 0; updated = 0; deactivated = 0 }

-- The five calls of `upsert`, parents before children, that count in one summary.
unfoldable pub apply_skeleton : String → Skeleton → Tables → Tables × SyncSummary
apply_skeleton c sk db =
    let (courses, s) = upsert course_differs (of_course c) sk.courses (db.courses, no_changes) in
    let (blocks, s) = upsert block_differs (of_block c) sk.blocks (db.blocks, s) in
    let (modules, s) = upsert module_differs (of_module c) sk.modules (db.modules, s) in
    let (lessons, s) = upsert lesson_differs (of_lesson c) sk.lessons (db.lessons, s) in
    let (exercises, s) = upsert exercise_differs (of_exercise c) sk.exercises (db.exercises, s) in
    (
      record {
        courses = courses;
        blocks = blocks;
        modules = modules;
        lessons = lessons;
        exercises = exercises;
      },
      s,
    )

unfoldable pub reconcile : Manifest → ℕ → Tables → Result (Tables × SyncSummary)
unfolding apply_skeleton
reconcile manifest order_index db = do
  sk ← skeleton manifest order_index
  ok (apply_skeleton manifest.course.id sk db)

abbrev pub plus : SyncSummary → SyncSummary → SyncSummary
plus s t = record {
  inserted = s.inserted + t.inserted;
  updated = s.updated + t.updated;
  deactivated = s.deactivated + t.deactivated;
}

-- `sorted` on the slugs; the slugs of a catalogue are distinct.
module _ {Config : Type 0} where
  pub insert_course :
      CourseRegistry Config → List (CourseRegistry Config) → List (CourseRegistry Config)
  insert_course r [] = r ∷ []
  insert_course r (x ∷ xs) =
      if text_le (slug r) (slug x) then r ∷ x ∷ xs else x ∷ insert_course r xs

  unfoldable pub sort_courses : List (CourseRegistry Config) → List (CourseRegistry Config)
  unfolding insert_course
  sort_courses [] = []
  sort_courses (r ∷ rs) = insert_course r (sort_courses rs)

  unfoldable pub reconcile_next :
      Tables × SyncSummary → ℕ × CourseRegistry Config → Result (Tables × SyncSummary)
  reconcile_next (db, total) (index, r) = do
    (db', summary) ← reconcile r.manifest index db
    ok (db', plus total summary)

-- The courses that left the catalogue.
abbrev pub is_gone : List String → Row CourseAttrs → Bool
is_gone slugs row = not (contains row.id slugs)

unfoldable pub withdraw_courses : List String → Tables × SyncSummary → Tables × SyncSummary
withdraw_courses slugs (db, total) = (
  record db {
    courses =
        map (λ row. if is_gone slugs row then record row { active = false } else row) db.courses;
  },
  record total {
    deactivated =
        total.deactivated
        + count_if (λ (row : Row CourseAttrs). is_gone slugs row && row.active) db.courses;
  },
)

-- `reconcile_catalog`, over the courses of the catalogue.
unfoldable pub reconcile_catalog :
    {Config : Type 0} → List (CourseRegistry Config) → Tables → Result (Tables × SyncSummary)
unfolding sort_courses reconcile_next withdraw_courses
reconcile_catalog courses db = do
  done ← fold_result reconcile_next (db, no_changes) (enumerate 1 (sort_courses courses))
  ok (withdraw_courses (map slug courses) done)
