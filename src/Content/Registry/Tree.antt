-- ===== src/Content/Registry/Tree.antt =====
-- backend/src/tradeschool/content/registry.py: what the course page, the lesson page, the module page
-- and the export show of one course.
use tradeschool.Base.{
  String, Bool, Option, none, some, List, [], map, ℕ, contains, or_else, enumerate, Result, ok,
  key_error, ◌>>=◌, or_raise, ltb, count_if, length, traverse,
}
use tradeschool.Base.Dict.{Dict, lookup}
use tradeschool.Content.Schema.{ExerciseType, get_text, Exercise, Lesson, CourseModule, Block}
use tradeschool.Content.Registry.{CourseRegistry, module_exercise_ids, module_title, unmet_prereqs}

pub record CourseMeta : Type 0 where
  pub id : String
  pub title : String
  pub subtitle : String
  pub description : String

pub record LessonItem : Type 0 where
  pub id : String
  pub order : ℕ
  pub title : String
  pub summary : String
  pub completed : Bool
  pub reading_seconds : ℕ
  pub exercises : List (String × ExerciseType)

pub record ModuleItem : Type 0 where
  pub id : String
  pub order : ℕ
  pub title : String
  pub summary : String
  pub assumes : List String
  pub unmet_prereqs : List String
  pub has_content : Bool
  pub lessons_total : ℕ
  pub lessons_completed : ℕ
  pub exercises_total : ℕ
  pub exercises_passed : ℕ
  pub lessons : List LessonItem

pub record BlockItem : Type 0 where
  pub id : String
  pub order : ℕ
  pub title : String
  pub modules : List ModuleItem

pub record LessonDetail : Type 0 where
  pub id : String
  pub title : String
  pub module_id : String
  pub module_title : String
  pub block_id : String
  pub markdown : String
  pub completed : Bool
  pub reading_seconds : ℕ
  pub exercises : List (String × ExerciseType)

-- An entry of the lessons of a module page.
pub record LessonLine : Type 0 where
  pub id : String
  pub order : ℕ
  pub title : String
  pub completed : Bool
  pub reading_seconds : ℕ

-- A title is `None` where the manifest does not know the module.
pub record ModuleDetail : Type 0 where
  pub id : String
  pub title : String
  pub summary : String
  pub assumes : List (String × Option String)
  pub unmet_prereqs : List (String × Option String)
  pub lessons : List LessonLine

-- `_exercise_dict`
abbrev pub exercise_dict : Exercise → String × ExerciseType
exercise_dict ex = (ex.id, ex.type)

-- `reading_seconds`, the field that `__post_init__` fills, is an argument here: no other field
-- depends on it.
module _ {Config : Type 0} (r : CourseRegistry Config) (reading_seconds : Dict (Dict ℕ)) where
  abbrev pub lesson_reading_seconds : String → String → ℕ
  lesson_reading_seconds lesson_id locale =
      or_else (lookup lesson_id (or_else (lookup locale reading_seconds) [])) 0

  abbrev pub course_meta : String → Result CourseMeta
  course_meta locale = do
    title ← get_text r.manifest.course.title locale
    subtitle ← get_text r.manifest.course.subtitle locale
    description ← get_text r.manifest.course.description locale
    ok (record {
      id = r.manifest.course.id;
      title = title;
      subtitle = subtitle;
      description = description;
    })

  module _ (locale : String) (completed : List String) where
    abbrev pub lesson_item : ℕ × Lesson → Result LessonItem
    lesson_item (order, l) = do
      title ← get_text l.title locale
      summary ← get_text l.summary locale
      ok (record {
        id = l.id;
        order = order;
        title = title;
        summary = summary;
        completed = contains l.id completed;
        reading_seconds = lesson_reading_seconds l.id locale;
        exercises = map exercise_dict l.exercises;
      })

    abbrev pub module_item : List String → ℕ × CourseModule → Result ModuleItem
    module_item passed (order, m) = do
      lessons ← traverse lesson_item (enumerate 1 m.lessons)
      exercise_ids ← module_exercise_ids r m.id
      title ← get_text m.title locale
      summary ← get_text m.summary locale
      unmet ← unmet_prereqs r m.id completed
      ok (record {
        id = m.id;
        order = order;
        title = title;
        summary = summary;
        assumes = m.assumes;
        unmet_prereqs = unmet;
        has_content = ltb 0 (length lessons);
        lessons_total = length lessons;
        lessons_completed = count_if (λ (l : LessonItem). l.completed) lessons;
        exercises_total = length exercise_ids;
        exercises_passed = count_if (λ id. contains id passed) exercise_ids;
        lessons = lessons;
      })

    abbrev pub block_item : List String → ℕ × Block → Result BlockItem
    block_item passed (order, b) = do
      modules ← traverse (module_item passed) (enumerate 1 b.modules)
      title ← get_text b.title locale
      ok (record { id = b.id; order = order; title = title; modules = modules })

    abbrev pub course_tree : Option (List String) → Result (List BlockItem)
    course_tree passed_exercise_ids =
        traverse (block_item (or_else passed_exercise_ids [])) (enumerate 1 r.manifest.blocks)

    abbrev pub lesson_detail : String → Result (Option LessonDetail)
    lesson_detail lesson_id = elim (lookup lesson_id r.lessons) [
      | none ↦ ok none
      | some loc ↦ do
        title ← get_text loc.lesson.title locale
        module_title ← get_text loc.module_of.title locale
        bodies ← or_raise (lookup locale r.markdown) key_error
        markdown ← or_raise (lookup lesson_id bodies) key_error
        ok (
            some (record {
              id = loc.lesson.id;
              title = title;
              module_id = loc.module_of.id;
              module_title = module_title;
              block_id = loc.block.id;
              markdown = markdown;
              completed = contains lesson_id completed;
              reading_seconds = lesson_reading_seconds lesson_id locale;
              exercises = map exercise_dict loc.lesson.exercises;
            }))
    ]

    abbrev lesson_line : ℕ × Lesson → Result LessonLine
    lesson_line (order, l) = do
      title ← get_text l.title locale
      ok (record {
        id = l.id;
        order = order;
        title = title;
        completed = contains l.id completed;
        reading_seconds = lesson_reading_seconds l.id locale;
      })

    abbrev titled : String → Result (String × Option String)
    titled dep = do title ← module_title r dep locale; ok (dep, title)

    abbrev pub module_detail : String → Result (Option ModuleDetail)
    module_detail module_id = elim (lookup module_id r.modules) [
      | none ↦ ok none
      | some (b, m) ↦ do
        title ← get_text m.title locale
        summary ← get_text m.summary locale
        assumes ← traverse titled m.assumes
        unmet ← unmet_prereqs r module_id completed
        unmet_titled ← traverse titled unmet
        lessons ← traverse lesson_line (enumerate 1 m.lessons)
        ok (
            some (record {
              id = m.id;
              title = title;
              summary = summary;
              assumes = assumes;
              unmet_prereqs = unmet_titled;
              lessons = lessons;
            }))
    ]
