-- ===== src/Content/Registry/Page.antt =====
-- backend/src/tradeschool/content/registry.py: the course page of a valid course in one of its languages.
use tradeschool.Base.{
  String, true, Option, List, [], map, ℕ, ◌≤◌, ◌≡◌, refl, arith, contains, all, All, enumerate, ok,
  count_if, count_if-le, length, or_else, ltb,
}
use tradeschool.Base.Dict.{Dict}
use tradeschool.Content.Schema.{
  ExerciseType, Lesson, CourseModule, Block, Manifest, iter_modules, module_ids,
}
use tradeschool.Content.Schema.Ids.{IsWellFormed}
use tradeschool.Content.Registry.{CourseRegistry, build, lists_exercises}
use tradeschool.Content.Registry.Maps.{manifest-build}
use tradeschool.Content.Registry.Tree.{
  LessonItem, ModuleItem, BlockItem, lesson_reading_seconds, exercise_dict, lesson_item,
  module_item, block_item, course_tree,
}
use tradeschool.Content.Registry.Complete.{
  translated_lesson, translated_module, translated_block, get_text_total, All-enumerate, all-All,
  All-pair, contains_own, traverse_total, by_block, module_found, unmet_prereqs_total,
}

-- The counts of a module stay within its totals.
pub record IsCounted (m : ModuleItem) : Type 0 where
  pub lessons_within : m.lessons_completed ≤ m.lessons_total
  pub exercises_within : m.exercises_passed ≤ m.exercises_total

module _ {Config : Type 0} (manifest : Manifest) (markdown : Dict (Dict String))
    (configs : Dict (ExerciseType × Config)) (w : IsWellFormed manifest)
    (reading_seconds : Dict (Dict ℕ)) (locale : String) (completed : List String) where
  abbrev registry : CourseRegistry Config
  registry = build manifest markdown configs

  lesson_item_total :
      (item : ℕ × Lesson)
      → translated_lesson locale item.1 ≡ true
      → (shown : LessonItem) × (lesson_item registry reading_seconds locale completed item
          ≡ ok shown)
        × Unit {0}
  lesson_item_total (n, l) h =
      let (title, e) = get_text_total locale l.title (ground (arith, h)) in
      let (summary, e') = get_text_total locale l.summary (ground (arith, h)) in
      (
        record {
          id = l.id;
          order = n;
          title = title;
          summary = summary;
          completed = contains l.id completed;
          reading_seconds = lesson_reading_seconds registry reading_seconds l.id locale;
          exercises = map exercise_dict l.exercises;
        },
        rw (e, e') refl,
        tt,
      )

  abbrev Ready : CourseModule → Type 0
  Ready m = (contains m.id (module_ids manifest) ≡ true) × (translated_module locale m ≡ true)

  module_item_total :
      (passed : List String) (item : ℕ × CourseModule)
      → Ready item.1
      → (shown : ModuleItem) × (module_item registry reading_seconds locale completed passed item
          ≡ ok shown)
        × IsCounted shown
  module_item_total passed (n, m) (here, h) =
      let (title, e) = get_text_total locale m.title (ground (arith, h)) in
      let (summary, e') = get_text_total locale m.summary (ground (arith, h)) in
      let (lessons, ls, _) =
        traverse_total (lesson_item registry reading_seconds locale completed)
          (λ (_, l). translated_lesson locale l ≡ true) (λ _. Unit {0}) lesson_item_total
          (enumerate 1 m.lessons)
          (All-enumerate (λ l. translated_lesson locale l ≡ true) 1 m.lessons
            (all-All (translated_lesson locale) m.lessons (ground (arith, h)))) in
      let ((_, found), known, _) = module_found manifest markdown configs w m.id here in
      let (unmet, u) = unmet_prereqs_total manifest markdown configs w completed m.id here in
      (
        record {
          id = m.id;
          order = n;
          title = title;
          summary = summary;
          assumes = m.assumes;
          unmet_prereqs = unmet;
          has_content = ltb 0 (length lessons);
          lessons_total = length lessons;
          lessons_completed = count_if (λ (l : LessonItem). l.completed) lessons;
          exercises_total = length (lists_exercises found);
          exercises_passed = count_if (λ id. contains id passed) (lists_exercises found);
          lessons = lessons;
        },
        rw (ls, known, e, e', u) refl,
        record {
          lessons_within = count_if-le (λ (l : LessonItem). l.completed) lessons;
          exercises_within = count_if-le (λ id. contains id passed) (lists_exercises found);
        },
      )

  abbrev Shown : Block → Type 0
  Shown b =
      All (λ m. contains m.id (module_ids manifest) ≡ true) b.modules
      × (translated_block locale b ≡ true)

  block_item_total :
      (passed : List String) (item : ℕ × Block)
      → Shown item.1
      → (shown : BlockItem) × (block_item registry reading_seconds locale completed passed item
          ≡ ok shown)
        × All IsCounted shown.modules
  block_item_total passed (n, b) (here, h) =
      let (title, e) = get_text_total locale b.title (ground (arith, h)) in
      let ready =
        All-pair (λ m. contains m.id (module_ids manifest) ≡ true)
          (λ m. translated_module locale m ≡ true) b.modules here
          (all-All (translated_module locale) b.modules (ground (arith, h))) in
      let (modules, ms, counted) =
        traverse_total (module_item registry reading_seconds locale completed passed)
          (λ (_, m). Ready m) IsCounted (module_item_total passed) (enumerate 1 b.modules)
          (All-enumerate Ready 1 b.modules ready) in
      (record { id = b.id; order = n; title = title; modules = modules }, rw (ms, e) refl, counted)

  -- The course page of a valid course is made without an exception, in every language that all its
  -- titles and summaries carry, and in each module it shows no more completed lessons than lessons and
  -- no more passed exercises than exercises.
  pub course_tree_total :
      all (translated_block locale) manifest.blocks ≡ true
      → (passed : Option (List String))
      → (blocks : List BlockItem) × (course_tree registry reading_seconds locale completed passed
          ≡ ok blocks)
        × All (λ b. All IsCounted b.modules) blocks
  course_tree_total translated passed =
      let shown : All Shown manifest.blocks =
        All-pair (λ b. All (λ m. contains m.id (module_ids manifest) ≡ true) b.modules)
          (λ b. translated_block locale b ≡ true) manifest.blocks
          (by_block (λ (_, m). contains m.id (module_ids manifest) ≡ true) manifest.blocks
            (contains_own (λ (_, m). m.id) (iter_modules manifest)))
          (all-All (translated_block locale) manifest.blocks translated) in
      traverse_total (block_item registry reading_seconds locale completed (or_else passed []))
        (λ (_, b). Shown b) (λ b. All IsCounted b.modules) (block_item_total (or_else passed []))
        (enumerate 1 registry.manifest.blocks)
        (All-enumerate Shown 1 registry.manifest.blocks
          (rw (manifest-build manifest markdown configs) shown))
