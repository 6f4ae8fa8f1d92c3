-- ===== src/Content/Sync/Models.antt =====
-- backend/src/tradeschool/content/models.py and content/sync.py: the attributes of the five skeleton
-- tables, and the rows that `reconcile` builds from a manifest, table by table, keyed by permanent key.
use mathlib.Core.List.{foldl}
use tradeschool.Base.{
  ℕ, String, Bool, true, false, not, ◌&&◌, Option, some, List, [], ◌∷◌, map, ◌==◌, str_eq,
  opt_str_eq, enumerate, Result, ok, key_error, ◌>>=◌, or_raise, traverse, fold_result,
}
use tradeschool.Base.Dict.{Dict, lookup, insert, insert_all}
use tradeschool.Content.Schema.{
  ExerciseType, type_eq, Exercise, Lesson, CourseModule, Block, Manifest, iter_modules,
}

pub record CourseAttrs : Type 0 where
  pub order_index : ℕ

pub record BlockAttrs : Type 0 where
  pub course_id : String
  pub order_index : ℕ

pub record ModuleAttrs : Type 0 where
  pub course_id : String
  pub block_id : String
  pub order_index : ℕ
  pub assumes : List String

pub record LessonAttrs : Type 0 where
  pub course_id : String
  pub module_id : String
  pub order_index : ℕ

pub record ExerciseAttrs : Type 0 where
  pub course_id : String
  pub module_id : String
  pub lesson_id : Option String
  pub type : ExerciseType
  pub order_index : ℕ

abbrev pub texts_eq : List String → List String → Bool
texts_eq [] [] = true
texts_eq [] (_ ∷ _) = false
texts_eq (_ ∷ _) [] = false
texts_eq (s ∷ xs) (t ∷ ys) = str_eq s t && texts_eq xs ys

-- `getattr(current, key) != value` for some attribute.
unfoldable pub course_differs : CourseAttrs → CourseAttrs → Bool
course_differs a b = not (a.order_index == b.order_index)

unfoldable pub block_differs : BlockAttrs → BlockAttrs → Bool
block_differs a b = not (str_eq a.course_id b.course_id && a.order_index == b.order_index)

unfoldable pub module_differs : ModuleAttrs → ModuleAttrs → Bool
module_differs a b = not (
    str_eq a.course_id b.course_id
    && str_eq a.block_id b.block_id
    && a.order_index == b.order_index
    && texts_eq a.assumes b.assumes)

unfoldable pub lesson_differs : LessonAttrs → LessonAttrs → Bool
lesson_differs a b = not (
    str_eq a.course_id b.course_id
    && str_eq a.module_id b.module_id
    && a.order_index == b.order_index)

unfoldable pub exercise_differs : ExerciseAttrs → ExerciseAttrs → Bool
exercise_differs a b = not (
    str_eq a.course_id b.course_id
    && str_eq a.module_id b.module_id
    && opt_str_eq a.lesson_id b.lesson_id
    && type_eq a.type b.type
    && a.order_index == b.order_index)

-- The five dictionaries of `reconcile`.
pub record Skeleton : Type 0 where
  pub courses : Dict CourseAttrs
  pub blocks : Dict BlockAttrs
  pub modules : Dict ModuleAttrs
  pub lessons : Dict LessonAttrs
  pub exercises : Dict ExerciseAttrs

unfoldable pub put_exercise : String → CourseModule → Lesson → Skeleton → ℕ × Exercise → Skeleton
put_exercise course_id m l sk (e_index, ex) = record sk {
  exercises =
      insert ex.key
        (record {
          course_id = course_id;
          module_id = m.key;
          lesson_id = some l.key;
          type = ex.type;
          order_index = e_index;
        })
        sk.exercises;
}

unfoldable pub put_lesson : String → CourseModule → Skeleton → ℕ × Lesson → Skeleton
put_lesson course_id m sk (l_index, l) = record sk {
  lessons =
      insert l.key (record { course_id = course_id; module_id = m.key; order_index = l_index })
        sk.lessons;
}

unfoldable pub put_lesson_tree : String → CourseModule → Skeleton → ℕ × Lesson → Skeleton
unfolding put_exercise put_lesson
put_lesson_tree course_id m sk (l_index, l) =
    foldl (put_exercise course_id m l) (put_lesson course_id m sk (l_index, l))
      (enumerate 1 l.exercises)

-- `key_of_module`: display ids to keys.
abbrev pub key_of_module : Manifest → Dict String
key_of_module manifest = insert_all (map (λ (_, m). (m.id, m.key)) (iter_modules manifest)) []

unfoldable pub put_module : String → Block → List String → Skeleton → ℕ × CourseModule → Skeleton
put_module course_id b assumes sk (m_index, m) = record sk {
  modules =
      insert m.key
        (record {
          course_id = course_id;
          block_id = b.id;
          order_index = m_index;
          assumes = assumes;
        })
        sk.modules;
}

unfoldable pub put_module_tree :
    String → Dict String → Block → Skeleton → ℕ × CourseModule → Result Skeleton
unfolding put_module put_lesson_tree
put_module_tree course_id keys_of b sk (m_index, m) = do
  assumes ← traverse (λ dep. or_raise (lookup dep keys_of) key_error) m.assumes
  ok (
      foldl (put_lesson_tree course_id m) (put_module course_id b assumes sk (m_index, m))
        (enumerate 1 m.lessons))

unfoldable pub put_block : String → Skeleton → ℕ × Block → Skeleton
put_block course_id sk (b_index, b) = record sk {
  blocks = insert b.id (record { course_id = course_id; order_index = b_index }) sk.blocks;
}

unfoldable pub put_block_tree : String → Dict String → Skeleton → ℕ × Block → Result Skeleton
unfolding put_block put_module_tree
put_block_tree course_id keys_of sk (b_index, b) =
    fold_result (put_module_tree course_id keys_of b) (put_block course_id sk (b_index, b))
      (enumerate 1 b.modules)

abbrev pub first_skeleton : Manifest → ℕ → Skeleton
first_skeleton manifest order_index = record {
  courses = insert manifest.course.id (record { order_index = order_index }) [];
  blocks = [];
  modules = [];
  lessons = [];
  exercises = [];
}

unfoldable pub skeleton : Manifest → ℕ → Result Skeleton
unfolding put_block_tree
skeleton manifest order_index =
    fold_result (put_block_tree manifest.course.id (key_of_module manifest))
      (first_skeleton manifest order_index) (enumerate 1 manifest.blocks)
