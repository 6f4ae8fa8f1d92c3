-- ===== src/Content/Schema.antt =====
-- backend/src/tradeschool/content/schema.py and exercises/types.py: the manifest of a course, its
-- derived views, and the structural validation.
pub mod Ids
use tradeschool.Base.{
  String, Bool, true, false, ◌&&◌, ◌||◌, not, Option, none, some, List, [], ◌∷◌, ◌++◌, map, ℕ, ◌==◌,
  if◌then◌else◌, str_eq, contains, flat_map, all, any, Result, ok, err, Failure, lookup_error,
  value_error, ◌>>=◌, ◌>>◌, raise_if, is_some,
}

pub data ExerciseType : Type 0 where
  quiz calculation synthetic_chart fixture_chart pattern_chart : ExerciseType

abbrev pub type_eq : ExerciseType → ExerciseType → Bool
type_eq quiz quiz = true
type_eq calculation calculation = true
type_eq synthetic_chart synthetic_chart = true
type_eq fixture_chart fixture_chart = true
type_eq pattern_chart pattern_chart = true
type_eq _ _ = false

pub record LocalizedText : Type 0 where
  pub en : Option String
  pub es : Option String

-- `LocalizedText.get`
unfoldable pub get_text : LocalizedText → String → Result String
get_text t locale = elim (if str_eq locale "es" then t.es else t.en) [
  | none ↦ err lookup_error
  | some value ↦ ok value
]

-- `LocalizedText._not_empty`
pub check_text : LocalizedText → Result LocalizedText
check_text t = if is_some t.en || is_some t.es then ok t else err value_error

-- `LocalizedText.languages`
unfoldable pub text_languages : LocalizedText → List String
text_languages t =
    (if is_some t.en then "en" ∷ [] else []) ++ (if is_some t.es then "es" ∷ [] else [])

-- `KeyedEntity._default_key`
pub default_key : (id key : String) → String
default_key id key = if str_eq key "" then id else key

pub record Exercise : Type 0 where
  pub id : String
  pub key : String
  pub type : ExerciseType

pub record Lesson : Type 0 where
  pub id : String
  pub key : String
  pub title : LocalizedText
  pub summary : LocalizedText
  pub exercises : List Exercise

pub record CourseModule : Type 0 where
  pub id : String
  pub key : String
  pub title : LocalizedText
  pub summary : LocalizedText
  pub assumes : List String
  pub lessons : List Lesson

pub record Block : Type 0 where
  pub id : String
  pub title : LocalizedText
  pub modules : List CourseModule

pub data CourseStatus : Type 0 where
  draft published : CourseStatus

pub record Course : Type 0 where
  pub id : String
  pub title : LocalizedText
  pub subtitle : LocalizedText
  pub description : LocalizedText
  pub languages : List String
  pub status : CourseStatus
  pub exercise_types : List ExerciseType

pub record Manifest : Type 0 where
  pub course : Course
  pub blocks : List Block

abbrev pub block_modules : Block → List (Block × CourseModule)
block_modules b = map (λ m. (b, m)) b.modules

abbrev pub module_lessons : Block × CourseModule → List (CourseModule × Lesson)
module_lessons (_, m) = map (λ l. (m, l)) m.lessons

abbrev pub lesson_exercises : CourseModule × Lesson → List (CourseModule × Lesson × Exercise)
lesson_exercises (m, l) = map (λ ex. (m, l, ex)) l.exercises

abbrev pub iter_modules : Manifest → List (Block × CourseModule)
iter_modules manifest = flat_map block_modules manifest.blocks

abbrev pub iter_lessons : Manifest → List (CourseModule × Lesson)
iter_lessons manifest = flat_map module_lessons (iter_modules manifest)

abbrev pub iter_exercises : Manifest → List (CourseModule × Lesson × Exercise)
iter_exercises manifest = flat_map lesson_exercises (iter_lessons manifest)

abbrev pub module_ids : Manifest → List String
module_ids manifest = map (λ (_, m). m.id) (iter_modules manifest)

-- One level: a text that was seen before raises; `seen` grows.
check_level : List String → List String → Result (List String)
check_level seen [] = ok seen
check_level seen (x ∷ xs) =
    let rest = check_level (x ∷ seen) xs in if contains x seen then err value_error else rest

check_levels : List String → List (List String) → Result (List String)
unfolding check_level
check_levels seen [] = ok seen
check_levels seen (level ∷ levels) = do seen' ← check_level seen level; check_levels seen' levels

abbrev pub id_levels : Manifest → List (List String)
id_levels manifest =
    (manifest.course.id ∷ [])
    ∷ map (λ b. b.id) manifest.blocks
    ∷ map (λ (_, m). m.id) (iter_modules manifest)
    ∷ map (λ (_, l). l.id) (iter_lessons manifest)
    ∷ map (λ (_, _, ex). ex.id) (iter_exercises manifest)
    ∷ []

abbrev pub key_levels : Manifest → List (List String)
key_levels manifest =
    (manifest.course.id ∷ [])
    ∷ map (λ b. b.id) manifest.blocks
    ∷ map (λ (_, m). m.key) (iter_modules manifest)
    ∷ map (λ (_, l). l.key) (iter_lessons manifest)
    ∷ map (λ (_, _, ex). ex.key) (iter_exercises manifest)
    ∷ []

abbrev pub declares : List ExerciseType → CourseModule × Lesson × Exercise → Bool
declares types (_, _, ex) = any (type_eq ex.type) types

-- Every assumed module is another module of the course.
abbrev pub assumes_known : List String → Block × CourseModule → Bool
assumes_known ids (_, m) = all (λ dep. contains dep ids && not (str_eq dep m.id)) m.assumes

-- `Manifest._validate_structure`
unfoldable pub validate_structure : Manifest → Result Manifest
unfolding check_levels
validate_structure manifest = do
  check_levels [] (id_levels manifest)
  check_levels [] (key_levels manifest)
  raise_if (not (all (declares manifest.course.exercise_types) (iter_exercises manifest)))
      value_error
  raise_if (not (all (assumes_known (module_ids manifest)) (iter_modules manifest))) value_error
  ok manifest
