-- ===== src/Content/Registry.antt =====
-- backend/src/tradeschool/content/registry.py: the in-memory registry of one course. The maps between
-- display ids and permanent keys are built once, by the nested loops of `__post_init__`.
pub mod Maps
pub mod Entries
pub mod Keys
pub mod Tree
pub mod Complete
pub mod Page
pub mod Titles
use mathlib.Core.List.{foldl}
use tradeschool.Base.{
  String, Bool, true, false, not, Option, none, some, List, [], ◌∷◌, ◌++◌, map, ℕ, ◌+◌, ◌==◌,
  if◌then◌else◌, str_eq, contains, flat_map, all, any, find, select, Result, ok, err, Failure,
  key_error, lookup_error, ◌>>=◌, or_raise, is_some, count_if, length, traverse,
}
use tradeschool.Base.Dict.{Dict, lookup, insert, has_key}
use tradeschool.Content.Schema.{
  ExerciseType, LocalizedText, get_text, Exercise, Lesson, CourseModule, Block, Course,
  CourseStatus, Manifest, iter_modules, iter_exercises,
}

pub record LessonLocation : Type 0 where
  pub block : Block
  pub module_of : CourseModule
  pub lesson : Lesson

-- `CourseRegistry`, over the type of a parsed exercise configuration. Figures and glossary
-- are left out: no operation that is modelled reads them. The reading times are an argument of the pages
-- in Registry/Tree.antt, the only operations that read them.
pub record CourseRegistry (Config : Type 0) : Type 0 where
  pub manifest : Manifest
  pub markdown : Dict (Dict String)
  pub exercise_configs : Dict (ExerciseType × Config)
  pub modules : Dict (Block × CourseModule)
  pub lessons : Dict LessonLocation
  pub exercises : Dict (Block × CourseModule)
  pub exercise_lessons : Dict String
  pub module_keys : Dict String
  pub module_ids : Dict String
  pub lesson_keys : Dict String
  pub lesson_ids : Dict String
  pub exercise_keys : Dict String
  pub exercise_ids : Dict String

abbrev pub lists_exercises : CourseModule → List String
lists_exercises m = flat_map (λ (l : Lesson). map (λ ex. ex.id) l.exercises) m.lessons

module _ {Config : Type 0} where
  pub add_exercise :
      Block → CourseModule → Lesson → CourseRegistry Config → Exercise → CourseRegistry Config
  add_exercise b m l r ex = record r {
    exercises = insert ex.id (b, m) r.exercises;
    exercise_lessons = insert ex.id l.id r.exercise_lessons;
    exercise_keys = insert ex.id ex.key r.exercise_keys;
    exercise_ids = insert ex.key ex.id r.exercise_ids;
  }

  pub enter_lesson : Block → CourseModule → CourseRegistry Config → Lesson → CourseRegistry Config
  enter_lesson b m r l = record r {
    lessons = insert l.id (record { block = b; module_of = m; lesson = l }) r.lessons;
    lesson_keys = insert l.id l.key r.lesson_keys;
    lesson_ids = insert l.key l.id r.lesson_ids;
  }

  pub add_lesson : Block → CourseModule → CourseRegistry Config → Lesson → CourseRegistry Config
  unfolding enter_lesson
  add_lesson b m r l = foldl (add_exercise b m l) (enter_lesson b m r l) l.exercises

  pub enter_module : CourseRegistry Config → Block × CourseModule → CourseRegistry Config
  enter_module r (b, m) = record r {
    modules = insert m.id (b, m) r.modules;
    module_keys = insert m.id m.key r.module_keys;
    module_ids = insert m.key m.id r.module_ids;
  }

  pub add_module : CourseRegistry Config → Block × CourseModule → CourseRegistry Config
  unfolding enter_module
  add_module r (b, m) = foldl (add_lesson b m) (enter_module r (b, m)) m.lessons

  abbrev pub blank :
      Manifest → Dict (Dict String) → Dict (ExerciseType × Config) → CourseRegistry Config
  blank manifest markdown configs = record {
    manifest = manifest;
    markdown = markdown;
    exercise_configs = configs;
    modules = [];
    lessons = [];
    exercises = [];
    exercise_lessons = [];
    module_keys = [];
    module_ids = [];
    lesson_keys = [];
    lesson_ids = [];
    exercise_keys = [];
    exercise_ids = [];
  }

  -- The constructor with `__post_init__`.
  unfoldable pub build :
      Manifest → Dict (Dict String) → Dict (ExerciseType × Config) → CourseRegistry Config
  unfolding add_exercise add_lesson add_module
  build manifest markdown configs =
      foldl add_module (blank manifest markdown configs) (iter_modules manifest)

  abbrev pub slug : CourseRegistry Config → String
  slug r = r.manifest.course.id

  abbrev pub languages : CourseRegistry Config → List String
  languages r = r.manifest.course.languages

  abbrev pub is_published : CourseRegistry Config → Bool
  is_published r = elim r.manifest.course.status [
    | CourseStatus.draft ↦ false
    | CourseStatus.published ↦ true
  ]

  abbrev pub get_exercise_config : CourseRegistry Config → String → Option (ExerciseType × Config)
  get_exercise_config r exercise_id = lookup exercise_id r.exercise_configs

  abbrev pub module_key : CourseRegistry Config → String → Result String
  module_key r module_id = or_raise (lookup module_id r.module_keys) key_error

  abbrev pub lesson_key : CourseRegistry Config → String → Result String
  lesson_key r lesson_id = or_raise (lookup lesson_id r.lesson_keys) key_error

  abbrev pub exercise_key : CourseRegistry Config → String → Result String
  exercise_key r exercise_id = or_raise (lookup exercise_id r.exercise_keys) key_error

  abbrev pub module_id_for_key : CourseRegistry Config → String → Option String
  module_id_for_key r key = lookup key r.module_ids

  abbrev pub lesson_id_for_key : CourseRegistry Config → String → Option String
  lesson_id_for_key r key = lookup key r.lesson_ids

  abbrev pub exercise_id_for_key : CourseRegistry Config → String → Option String
  exercise_id_for_key r key = lookup key r.exercise_ids

  abbrev pub module_lesson_ids : CourseRegistry Config → String → Result (List String)
  module_lesson_ids r module_id = do
    (_, m) ← or_raise (lookup module_id r.modules) key_error
    ok (map (λ l. l.id) m.lessons)

  -- The block and the module of an exercise.
  abbrev pub exercise_location : CourseRegistry Config → String → Option (String × String)
  exercise_location r exercise_id = elim (lookup exercise_id r.exercises) [
    | none ↦ none
    | some (b, m) ↦ some (b.id, m.id)
  ]

  abbrev pub exercise_lesson_id : CourseRegistry Config → String → Option String
  exercise_lesson_id r exercise_id = lookup exercise_id r.exercise_lessons

  abbrev pub module_block : CourseRegistry Config → String → Option String
  module_block r module_id = elim (lookup module_id r.modules) [
    | none ↦ none
    | some (b, m) ↦ some b.id
  ]

  -- The first block of that id, with its title in the language.
  unfoldable pub block_title : CourseRegistry Config → String → String → Result (Option String)
  block_title r block_id locale = elim (find (λ b. str_eq b.id block_id) r.manifest.blocks) [
    | none ↦ ok none
    | some b ↦ do title ← get_text b.title locale; ok (some title)
  ]

  unfoldable pub module_title : CourseRegistry Config → String → String → Result (Option String)
  module_title r module_id locale = elim (lookup module_id r.modules) [
    | none ↦ ok none
    | some (b, m) ↦ do title ← get_text m.title locale; ok (some title)
  ]

  abbrev pub module_exercise_ids : CourseRegistry Config → String → Result (List String)
  module_exercise_ids r module_id = do
    (_, m) ← or_raise (lookup module_id r.modules) key_error
    ok (lists_exercises m)

  -- The exercises of a module that have a loaded configuration.
  unfoldable pub playable_module_exercises : CourseRegistry Config → String → Result (List String)
  playable_module_exercises r module_id = do
    ids ← module_exercise_ids r module_id
    ok (select (λ id. has_key id r.exercise_configs) ids)

  abbrev touched : CourseRegistry Config → List String → String → Result Bool
  touched r completed dep = do
    ids ← module_lesson_ids r dep
    ok (any (λ id. contains id completed) ids)

  pub unmet : CourseRegistry Config → List String → List String → Result (List String)
  unmet r completed [] = ok []
  unmet r completed (dep ∷ deps) = do
    met ← touched r completed dep
    rest ← unmet r completed deps
    ok (if met then rest else dep ∷ rest)

  -- The assumed modules of which no lesson is completed.
  pub unmet_prereqs : CourseRegistry Config → String → List String → Result (List String)
  unfolding unmet
  unmet_prereqs r module_id completed = do
    (_, m) ← or_raise (lookup module_id r.modules) key_error
    unmet r completed m.assumes
