-- ===== src/Content/Sync/Synced.antt =====
-- backend/src/tradeschool/content/sync.py: the five tables after a reconciliation, told from the manifest alone.
use tradeschool.Base.{
  ℕ, String, ◌≡◌, refl, ap, subst, ◌∙◌, some, List, [], ◌∷◌, map, flat_map, enumerate, ok,
}
use tradeschool.Base.Dict.{insert, insert_all}
use tradeschool.Content.Schema.{Exercise, Lesson, CourseModule, Block, Manifest}
use tradeschool.Content.Schema.Ids.{IsWellFormed}
use tradeschool.Content.Sync.Upsert.{SyncSummary}
use tradeschool.Content.Sync.Models.{
  BlockAttrs, ModuleAttrs, LessonAttrs, ExerciseAttrs, Skeleton, put_exercise, put_lesson,
  put_module, put_block, skeleton, first_skeleton,
}
use tradeschool.Content.Sync.{Tables, reconcile}
use tradeschool.Content.Sync.Twice.{IsSynced, rows_of, reconcile_settles}
use tradeschool.Content.Sync.Expected.{key_of, table_rows, skeleton-rows, known_key}

-- A block, with its place among the blocks.
abbrev pub block_entry : Manifest → ℕ → Block → List (String × BlockAttrs)
block_entry manifest n b = (b.id, record { course_id = manifest.course.id; order_index = n }) ∷ []

-- A module, under its key: its block, its place in the block, and the keys of what it assumes.
abbrev pub module_entry : Manifest → Block → ℕ → CourseModule → List (String × ModuleAttrs)
module_entry manifest b i m =
    (
      m.key,
      record {
        course_id = manifest.course.id;
        block_id = b.id;
        order_index = i;
        assumes = map (key_of manifest) m.assumes;
      },
    )
    ∷ []

-- A lesson, under its key: the key of its module, and its place in it.
abbrev pub lesson_entry : Manifest → CourseModule → ℕ → Lesson → List (String × LessonAttrs)
lesson_entry manifest m j l =
    (l.key, record { course_id = manifest.course.id; module_id = m.key; order_index = j }) ∷ []

-- An exercise, under its key: the keys of its module and its lesson, its type, and its place in the
-- lesson.
abbrev pub exercise_entry :
    Manifest → CourseModule → Lesson → ℕ → Exercise → List (String × ExerciseAttrs)
exercise_entry manifest m l e ex =
    (
      ex.key,
      record {
        course_id = manifest.course.id;
        module_id = m.key;
        lesson_id = some l.key;
        type = ex.type;
        order_index = e;
      },
    )
    ∷ []

-- The entries of each table, in the order of the manifest.
abbrev pub expected_blocks : Manifest → List (String × BlockAttrs)
expected_blocks manifest =
    table_rows manifest (block_entry manifest) (λ b i m. []) (λ m j l. []) (λ m l e ex. [])

abbrev pub expected_modules : Manifest → List (String × ModuleAttrs)
expected_modules manifest =
    table_rows manifest (λ n b. []) (module_entry manifest) (λ m j l. []) (λ m l e ex. [])

abbrev pub expected_lessons : Manifest → List (String × LessonAttrs)
expected_lessons manifest =
    table_rows manifest (λ n b. []) (λ b i m. []) (lesson_entry manifest) (λ m l e ex. [])

abbrev pub expected_exercises : Manifest → List (String × ExerciseAttrs)
expected_exercises manifest =
    table_rows manifest (λ n b. []) (λ b i m. []) (λ m j l. []) (exercise_entry manifest)

-- The rows that the manifest describes, table by table.
abbrev pub expected : Manifest → ℕ → Skeleton
expected manifest order_index = record {
  courses = (manifest.course.id, record { order_index = order_index }) ∷ [];
  blocks = insert_all (expected_blocks manifest) [];
  modules = insert_all (expected_modules manifest) [];
  lessons = insert_all (expected_lessons manifest) [];
  exercises = insert_all (expected_exercises manifest) [];
}

flat_map_nil :
    {A B : Type 0} (f : A → List B) (xs : List A) → ((x : A) → f x ≡ []) → flat_map f xs ≡ []
flat_map_nil f [] h = refl
flat_map_nil f (x ∷ xs) h = rw (h x) (flat_map_nil f xs h)

-- A table that no loop writes.
no_rows :
    {V : Type 0} (manifest : Manifest)
    → table_rows {V = V} manifest (λ n b. []) (λ b i m. []) (λ m j l. []) (λ m l e ex. []) ≡ []
no_rows manifest = flat_map_nil _ (enumerate 1 manifest.blocks) (λ (n, b).
    flat_map_nil _ (enumerate 1 b.modules) (λ (i, m).
      flat_map_nil _ (enumerate 1 m.lessons)
        (λ (j, l). flat_map_nil _ (enumerate 1 l.exercises) (λ (e, ex). refl))))

module _ (manifest : Manifest) (w : IsWellFormed manifest) (order_index : ℕ) (sk : Skeleton)
    (built : skeleton manifest order_index ≡ ok sk) where
  courses-expected : sk.courses ≡ (expected manifest order_index).courses
  unfolding put_exercise put_lesson put_module put_block insert insert_all
  courses-expected =
      skeleton-rows manifest (λ n b. []) (λ b i m. []) (λ m j l. []) (λ m l e ex. [])
        (λ (s : Skeleton). s.courses)
        (record {
          on_exercise = λ m l s e ex. refl;
          on_lesson = λ m s j l. refl;
          on_module = λ b s i m. refl;
          on_block = λ s n b. refl;
        })
        (known_key manifest w) order_index sk built
      ∙ ap (λ rows. insert_all rows (first_skeleton manifest order_index).courses)
          (no_rows manifest)

  blocks-expected : sk.blocks ≡ (expected manifest order_index).blocks
  unfolding put_exercise put_lesson put_module put_block insert_all
  blocks-expected =
      skeleton-rows manifest (block_entry manifest) (λ b i m. []) (λ m j l. []) (λ m l e ex. [])
        (λ (s : Skeleton). s.blocks)
        (record {
          on_exercise = λ m l s e ex. refl;
          on_lesson = λ m s j l. refl;
          on_module = λ b s i m. refl;
          on_block = λ s n b. refl;
        })
        (known_key manifest w) order_index sk built

  modules-expected : sk.modules ≡ (expected manifest order_index).modules
  unfolding put_exercise put_lesson put_module put_block insert_all
  modules-expected =
      skeleton-rows manifest (λ n b. []) (module_entry manifest) (λ m j l. []) (λ m l e ex. [])
        (λ (s : Skeleton). s.modules)
        (record {
          on_exercise = λ m l s e ex. refl;
          on_lesson = λ m s j l. refl;
          on_module = λ b s i m. refl;
          on_block = λ s n b. refl;
        })
        (known_key manifest w) order_index sk built

  lessons-expected : sk.lessons ≡ (expected manifest order_index).lessons
  unfolding put_exercise put_lesson put_module put_block insert_all
  lessons-expected =
      skeleton-rows manifest (λ n b. []) (λ b i m. []) (lesson_entry manifest) (λ m l e ex. [])
        (λ (s : Skeleton). s.lessons)
        (record {
          on_exercise = λ m l s e ex. refl;
          on_lesson = λ m s j l. refl;
          on_module = λ b s i m. refl;
          on_block = λ s n b. refl;
        })
        (known_key manifest w) order_index sk built

  exercises-expected : sk.exercises ≡ (expected manifest order_index).exercises
  unfolding put_exercise put_lesson put_module put_block insert_all
  exercises-expected =
      skeleton-rows manifest (λ n b. []) (λ b i m. []) (λ m j l. []) (exercise_entry manifest)
        (λ (s : Skeleton). s.exercises)
        (record {
          on_exercise = λ m l s e ex. refl;
          on_lesson = λ m s j l. refl;
          on_module = λ b s i m. refl;
          on_block = λ s n b. refl;
        })
        (known_key manifest w) order_index sk built

  skeleton-expected : sk ≡ expected manifest order_index
  skeleton-expected = λ i. record {
    courses = courses-expected i;
    blocks = blocks-expected i;
    modules = modules-expected i;
    lessons = lessons-expected i;
    exercises = exercises-expected i;
  }

-- After the reconciliation of a well-formed manifest, the course has in each of the five tables exactly
-- the rows that the manifest describes active, each with its parents, its place and its other
-- attributes as the manifest gives them, and any other row of the course is inactive.
pub reconcile-IsSynced :
    (manifest : Manifest) (order_index : ℕ) (db db' : Tables) (s : SyncSummary)
    → IsWellFormed manifest
    → reconcile manifest order_index db ≡ ok (db', s)
    → IsSynced manifest.course.id (expected manifest order_index) (rows_of manifest.course.id db')
reconcile-IsSynced manifest order_index db db' s w h =
    let (sk, built, synced) = reconcile_settles manifest order_index db db' s h in
    subst (λ (z : Skeleton). IsSynced manifest.course.id z (rows_of manifest.course.id db'))
      (skeleton-expected manifest w order_index sk built) synced
