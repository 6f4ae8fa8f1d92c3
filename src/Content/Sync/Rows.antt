-- ===== src/Content/Sync/Rows.antt =====
-- The rows that `reconcile` of backend/src/tradeschool/content/sync.py builds: distinct keys, and every
-- row one of the course.
use mathlib.Core.List.{foldl}
use tradeschool.Base.{
  ℕ, String, ◌≡◌, ap, subst, inl, inr, Bool, true, ◌||◌, List, [], ◌∷◌, arith, str_eq, str_eq_iff,
  str_eq_self, contains, contains-cons, contains-nil, Distinct, Result, ok, fold_result,
  bind_inverse, traverse, enumerate, or_raise, key_error, ok_injective, Bool-cases,
}
use tradeschool.Base.Dict.{Dict, insert, keys, lookup}
use tradeschool.Content.Schema.{Exercise, Lesson, CourseModule, Block, Manifest}
use tradeschool.Content.Sync.Pass.{Belongs, IsRowsOf}
use tradeschool.Content.Sync.Models.{
  Skeleton, put_exercise, put_lesson, put_lesson_tree, put_module, put_module_tree, put_block,
  put_block_tree, first_skeleton, skeleton, key_of_module,
}
use tradeschool.Content.Sync.{of_course, of_block, of_module, of_lesson, of_exercise}

module _ {V : Type 0} where
  contains-keys_insert :
      (j k : String) (v : V) (d : Dict V)
      → contains j (keys (insert k v d)) ≡ (str_eq j k || contains j (keys d))
  unfolding insert
  contains-keys_insert j k v [] = ground (arith, contains-cons j k [], contains-nil j)
  contains-keys_insert j k v ((i, w) ∷ d) = ground (
    arith,
    contains-cons j i (keys d),
    contains-cons j i (keys (insert k v d)),
    contains-keys_insert j k v d,
    str_eq_iff k i,
    str_eq_iff j i,
    str_eq_iff j k,
  )

  insert-Distinct :
      (k : String) (v : V) (d : Dict V) → Distinct (keys d) → Distinct (keys (insert k v d))
  unfolding insert
  insert-Distinct k v [] h = (contains-nil k, tt)
  insert-Distinct k v ((i, w) ∷ d) h = elim (Bool-cases (str_eq k i)) [
    | inl e ↦ ground (arith, e, h)
    | inr e ↦ ground (
      arith,
      e,
      h,
      contains-keys_insert i k v d,
      insert-Distinct k v d h.1,
      str_eq_iff k i,
      str_eq_iff i k,
    )
  ]

  insert-Belongs :
      (scope : String → V → Bool) (k : String) (v : V) (d : Dict V)
      → scope k v ≡ true
      → Belongs scope d
      → Belongs scope (insert k v d)
  unfolding insert
  insert-Belongs scope k v [] s h = (s, tt)
  insert-Belongs scope k v ((i, w) ∷ d) s h =
      ground (arith, str_eq_iff k i, ap (λ x. scope x v), insert-Belongs scope k v d s h.1)

  insert-IsRowsOf :
      (scope : String → V → Bool) (k : String) (v : V) (d : Dict V)
      → scope k v ≡ true
      → IsRowsOf scope d
      → IsRowsOf scope (insert k v d)
  insert-IsRowsOf scope k v d s h = record {
    distinct = insert-Distinct k v d h.distinct;
    belongs = insert-Belongs scope k v d s h.belongs;
  }

  empty-IsRowsOf : (scope : String → V → Bool) → IsRowsOf scope []
  empty-IsRowsOf scope = record { distinct = tt; belongs = tt }

foldl_keeps :
    {S X : Type 0} (P : S → Type 0) (f : S → X → S)
    → ((s : S) (x : X) → P s → P (f s x))
    → (s : S) (xs : List X) → P s
    → P (foldl f s xs)
foldl_keeps P f keep s [] h = h
foldl_keeps P f keep s (x ∷ xs) h = foldl_keeps P f keep (f s x) xs (keep s x h)

pub fold_result_keeps :
    {S X : Type 0} (P : S → Type 0) (f : S → X → Result S)
    → ((s t : S) (x : X) → P s → f s x ≡ ok t → P t)
    → (s t : S) (xs : List X) → P s
    → fold_result f s xs ≡ ok t
    → P t
fold_result_keeps P f keep s t [] h e = subst P (ok_injective e) h
fold_result_keeps P f keep s t (x ∷ xs) h e =
    let (s', rest, first) = bind_inverse (λ z. fold_result f z xs) (f s x) e in
    fold_result_keeps P f keep s' t xs (keep s s' x h first) rest

pub record IsSkeletonOf (c : String) (sk : Skeleton) : Type 0 where
  pub courses : IsRowsOf (of_course c) sk.courses
  pub blocks : IsRowsOf (of_block c) sk.blocks
  pub modules : IsRowsOf (of_module c) sk.modules
  pub lessons : IsRowsOf (of_lesson c) sk.lessons
  pub exercises : IsRowsOf (of_exercise c) sk.exercises

put_exercise-IsSkeletonOf :
    (c : String) (m : CourseModule) (l : Lesson) (sk : Skeleton) (x : ℕ × Exercise)
    → IsSkeletonOf c sk
    → IsSkeletonOf c (put_exercise c m l sk x)
unfolding put_exercise
put_exercise-IsSkeletonOf c m l sk (i, ex) h = record {
  courses = h.courses;
  blocks = h.blocks;
  modules = h.modules;
  lessons = h.lessons;
  exercises = insert-IsRowsOf (of_exercise c) ex.key _ sk.exercises (str_eq_self c) h.exercises;
}

put_lesson-IsSkeletonOf :
    (c : String) (m : CourseModule) (sk : Skeleton) (x : ℕ × Lesson)
    → IsSkeletonOf c sk
    → IsSkeletonOf c (put_lesson c m sk x)
unfolding put_lesson
put_lesson-IsSkeletonOf c m sk (i, l) h = record {
  courses = h.courses;
  blocks = h.blocks;
  modules = h.modules;
  lessons = insert-IsRowsOf (of_lesson c) l.key _ sk.lessons (str_eq_self c) h.lessons;
  exercises = h.exercises;
}

put_lesson_tree-IsSkeletonOf :
    (c : String) (m : CourseModule) (sk : Skeleton) (x : ℕ × Lesson)
    → IsSkeletonOf c sk
    → IsSkeletonOf c (put_lesson_tree c m sk x)
unfolding put_lesson_tree
put_lesson_tree-IsSkeletonOf c m sk (i, l) h =
    foldl_keeps (IsSkeletonOf c) (put_exercise c m l) (put_exercise-IsSkeletonOf c m l)
      (put_lesson c m sk (i, l)) (enumerate 1 l.exercises) (put_lesson-IsSkeletonOf c m sk (i, l) h)

put_module-IsSkeletonOf :
    (c : String) (b : Block) (assumes : List String) (sk : Skeleton) (x : ℕ × CourseModule)
    → IsSkeletonOf c sk
    → IsSkeletonOf c (put_module c b assumes sk x)
unfolding put_module
put_module-IsSkeletonOf c b assumes sk (i, m) h = record {
  courses = h.courses;
  blocks = h.blocks;
  modules = insert-IsRowsOf (of_module c) m.key _ sk.modules (str_eq_self c) h.modules;
  lessons = h.lessons;
  exercises = h.exercises;
}

put_module_tree-IsSkeletonOf :
    (c : String) (keys_of : Dict String) (b : Block) (sk t : Skeleton) (x : ℕ × CourseModule)
    → IsSkeletonOf c sk
    → put_module_tree c keys_of b sk x ≡ ok t
    → IsSkeletonOf c t
unfolding put_module_tree
put_module_tree-IsSkeletonOf c keys_of b sk t (i, m) h e =
    let (assumes, last, _) =
      bind_inverse
        (λ assumes.
          ok (
            foldl (put_lesson_tree c m) (put_module c b assumes sk (i, m)) (enumerate 1 m.lessons)))
        (traverse (λ dep. or_raise (lookup dep keys_of) key_error) m.assumes) e in
    subst (IsSkeletonOf c) (ok_injective last) (
      foldl_keeps (IsSkeletonOf c) (put_lesson_tree c m) (put_lesson_tree-IsSkeletonOf c m)
        (put_module c b assumes sk (i, m)) (enumerate 1 m.lessons)
        (put_module-IsSkeletonOf c b assumes sk (i, m) h))

put_block-IsSkeletonOf :
    (c : String) (sk : Skeleton) (x : ℕ × Block)
    → IsSkeletonOf c sk
    → IsSkeletonOf c (put_block c sk x)
unfolding put_block
put_block-IsSkeletonOf c sk (i, b) h = record {
  courses = h.courses;
  blocks = insert-IsRowsOf (of_block c) b.id _ sk.blocks (str_eq_self c) h.blocks;
  modules = h.modules;
  lessons = h.lessons;
  exercises = h.exercises;
}

put_block_tree-IsSkeletonOf :
    (c : String) (keys_of : Dict String) (sk t : Skeleton) (x : ℕ × Block)
    → IsSkeletonOf c sk
    → put_block_tree c keys_of sk x ≡ ok t
    → IsSkeletonOf c t
unfolding put_block_tree
put_block_tree-IsSkeletonOf c keys_of sk t (i, b) h e =
    fold_result_keeps (IsSkeletonOf c) (put_module_tree c keys_of b)
      (λ s u x k f. put_module_tree-IsSkeletonOf c keys_of b s u x k f) (put_block c sk (i, b)) t
      (enumerate 1 b.modules) (put_block-IsSkeletonOf c sk (i, b) h) e

-- The rows that are built for a manifest have distinct keys, and belong to its course.
pub skeleton-IsSkeletonOf :
    (manifest : Manifest) (order_index : ℕ) (sk : Skeleton)
    → skeleton manifest order_index ≡ ok sk
    → IsSkeletonOf manifest.course.id sk
unfolding skeleton
skeleton-IsSkeletonOf manifest order_index sk e =
    let c = manifest.course.id in
    fold_result_keeps (IsSkeletonOf c) (put_block_tree c (key_of_module manifest))
      (λ s u x k f. put_block_tree-IsSkeletonOf c (key_of_module manifest) s u x k f)
      (first_skeleton manifest order_index) sk (enumerate 1 manifest.blocks)
      (record {
        courses =
            insert-IsRowsOf (of_course c) c _ [] (str_eq_self c) (empty-IsRowsOf (of_course c));
        blocks = empty-IsRowsOf (of_block c);
        modules = empty-IsRowsOf (of_module c);
        lessons = empty-IsRowsOf (of_lesson c);
        exercises = empty-IsRowsOf (of_exercise c);
      })
      e
