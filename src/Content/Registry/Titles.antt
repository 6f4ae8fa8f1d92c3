-- ===== src/Content/Registry/Titles.antt =====
-- backend/src/tradeschool/content/registry.py: the titles and keys of a valid course, in one of its languages.
use tradeschool.Base.{
  String, subst, true, Option, none, some, List, [], ◌∷◌, map, ◌≡◌, ◌∙◌, refl, ap, sym, arith,
  contains, flat_map, all, All, All-append, All-map_left, All-intro, find, ok, str_eq, inl, inr,
  Bool-cases, Option-cases,
}
use tradeschool.Base.Counts.{find_All}
use tradeschool.Base.Dict.{Dict, lookup, insert_all, lookup-insert_all_nil}
use tradeschool.Content.Schema.{
  ExerciseType, Exercise, Lesson, CourseModule, Block, Manifest, iter_modules, module_ids,
}
use tradeschool.Content.Schema.Ids.{IsWellFormed, id_parts}
use tradeschool.Content.Registry.{
  CourseRegistry, build, add_exercise, enter_lesson, enter_module, module_key, module_title,
  block_title, exercise_location,
}
use tradeschool.Content.Registry.Maps.{build-insert_all, manifest-build}
use tradeschool.Content.Registry.Entries.{entry, keys-modules, keys-module_entries}
use tradeschool.Content.Registry.Keys.{module_keys-build, module_id_pairs}
use tradeschool.Content.Registry.Complete.{
  translated_module, translated_block, get_text_total, all-All, All-pair, contains_own,
  contains-keys-lookup, All-module_entry, modules-build, entries, keys_listed,
}

-- What is found has what all the values have in common.
lookup-All :
    {V : Type 0} (P : V → Type 0) (k : String) (d : Dict V) (v : V)
    → All (λ (_, v'). P v') d
    → lookup k d ≡ some v
    → P v
unfolding lookup
lookup-All P k [] v h e = cc
lookup-All P k ((j, w) ∷ d) v h e = elim (Bool-cases (str_eq k j)) [
  | inl t ↦ subst P (ground (arith, e, t)) h.0
  | inr t ↦ lookup-All P k d v h.1 (rw t at e)
]

-- Every exercise is entered with a module of the list.
All-exercises :
    (P : Block × CourseModule → Type 0) (bms : List (Block × CourseModule))
    → All P bms
    → All
        (λ (_, v). P v)
        (flat_map
          (λ (b, m).
            flat_map
              (λ l. flat_map (entry (λ ex. ex.id) (λ b' m' _ _. (b', m')) b m l) l.exercises)
              m.lessons)
          bms)
All-exercises P [] h = tt
All-exercises P ((b, m) ∷ bms) h =
    All-append (λ (_, v). P v) _ _ (in_lessons m.lessons) (All-exercises P bms h.1)
  where
    in_exercises :
        (l : Lesson) (exs : List Exercise)
        → All (λ (_, v). P v) (flat_map (entry (λ ex. ex.id) (λ b' m' _ _. (b', m')) b m l) exs)
    in_exercises l [] = tt
    in_exercises l (ex ∷ exs) = (h.0, in_exercises l exs)

    in_lessons :
        (ls : List Lesson)
        → All
            (λ (_, v). P v)
            (flat_map
              (λ l. flat_map (entry (λ ex. ex.id) (λ b' m' _ _. (b', m')) b m l) l.exercises)
              ls)
    in_lessons [] = tt
    in_lessons (l ∷ ls) =
        All-append (λ (_, v). P v) _ _ (in_exercises l l.exercises) (in_lessons ls)

-- From the modules of each block to those of the whole course.
of_blocks :
    (P : Block × CourseModule → Type 0) (bs : List Block)
    → All (λ b. All (λ m. P (b, m)) b.modules) bs
    → All P (flat_map (λ b. map (λ m. (b, m)) b.modules) bs)
of_blocks P [] h = tt
of_blocks P (b ∷ bs) h = All-append P _ _ (own b.modules h.0) (of_blocks P bs h.1)
  where
    own : (ms : List CourseModule) → All (λ m. P (b, m)) ms → All P (map (λ m. (b, m)) ms)
    own [] k = tt
    own (m ∷ ms) k = (k.0, own ms k.1)

block_title_known :
    {Config : Type 0} (locale : String) (r : CourseRegistry Config) (id : String)
    → All (λ b. translated_block locale b ≡ true) r.manifest.blocks
    → (title : Option String) × (block_title r id locale ≡ ok title)
unfolding block_title
block_title_known locale r id h =
    elim (Option-cases (find (λ (b : Block). str_eq b.id id) r.manifest.blocks)) [
      | inl n ↦ (none, rw (block_title, n) refl)
      | inr (b, found) ↦
          let speaks =
            find_All (λ b. translated_block locale b ≡ true) (λ (b : Block). str_eq b.id id)
              r.manifest.blocks b h found in
          let (title, e) = get_text_total locale b.title (ground (arith, speaks)) in
          (some title, rw (block_title, found, e) refl)
    ]

module _ {Config : Type 0} (manifest : Manifest) (markdown : Dict (Dict String))
    (configs : Dict (ExerciseType × Config)) (w : IsWellFormed manifest) (locale : String)
    (translated : all (translated_block locale) manifest.blocks ≡ true) where
  abbrev registry : CourseRegistry Config
  registry = build manifest markdown configs

  -- A module of the course, with its texts.
  abbrev IsListed : Block × CourseModule → Type 0
  IsListed (_, m) =
      (contains m.id (module_ids manifest) ≡ true) × (translated_module locale m ≡ true)

  iter_modules-IsListed : All IsListed (iter_modules manifest)
  iter_modules-IsListed =
      All-pair (λ (_, m). contains m.id (module_ids manifest) ≡ true)
        (λ (_, m). translated_module locale m ≡ true) (iter_modules manifest)
        (contains_own (λ (_, m). m.id) (iter_modules manifest))
        (of_blocks (λ (_, m). translated_module locale m ≡ true) manifest.blocks
          (All-map_left (λ b. translated_block locale b ≡ true)
            (λ b. All (λ m. translated_module locale m ≡ true) b.modules) manifest.blocks
            (λ b h. all-All (translated_module locale) b.modules (ground (arith, h)))
            (all-All (translated_block locale) manifest.blocks translated)))

  modules_listed :
      (id : String) → lookup id registry.modules ≡ lookup id (entries manifest markdown configs w)
  modules_listed id =
      ap (lookup id) (modules-build manifest markdown configs w)
      ∙ lookup-insert_all_nil id (entries manifest markdown configs w)
          (rw (keys_listed manifest markdown configs w) (id_parts manifest w).0)

  pub module_title_total :
      (id : String) → (title : Option String) × (module_title registry id locale ≡ ok title)
  unfolding module_title
  module_title_total id = elim (Option-cases (lookup id registry.modules)) [
    | inl n ↦ (none, rw (module_title, n) refl)
    | inr ((b, m), found) ↦
        let read : lookup id (entries manifest markdown configs w) ≡ some (b, m) =
          sym (modules_listed id) ∙ found in
        let listed =
          lookup-All IsListed id (entries manifest markdown configs w) (b, m)
            (All-module_entry IsListed (iter_modules manifest) iter_modules-IsListed) read in
        let (title, e) = get_text_total locale m.title (ground (arith, listed)) in
        (some title, rw (module_title, found, e) refl)
  ]

  pub block_title_total :
      (id : String) → (title : Option String) × (block_title registry id locale ≡ ok title)
  block_title_total id = block_title_known locale registry id (
      rw (manifest-build manifest markdown configs)
        (all-All (translated_block locale) manifest.blocks translated))

  abbrev exercise_entries : List (String × (Block × CourseModule))
  exercise_entries =
      flat_map
        (λ (b, m).
          flat_map (λ l. flat_map (entry (λ ex. ex.id) (λ b' m' _ _. (b', m')) b m l) l.exercises)
            m.lessons)
        (iter_modules manifest)

  exercises-build : registry.exercises ≡ insert_all exercise_entries []
  unfolding add_exercise enter_lesson enter_module insert_all
  exercises-build =
      build-insert_all (λ (r : CourseRegistry Config). r.exercises)
        (entry (λ ex. ex.id) (λ b m _ _. (b, m))) (λ b m l. []) (λ b m. [])
        (record {
          on_exercise = λ b m l r ex. refl;
          on_lesson = λ b m r l. refl;
          on_module = λ b m r. refl;
        })
        manifest markdown configs

  module_key_total :
      (id : String)
      → contains id (module_ids manifest) ≡ true
      → (key : String) × (module_key registry id ≡ ok key)
  module_key_total id here =
      let listed_keys =
        keys-module_entries (λ (m : CourseModule). m.id) (λ (b : Block) (m : CourseModule). m.key)
          (iter_modules manifest) in
      let (key, found, _) =
        contains-keys-lookup (λ (_ : String). Unit {0}) id (module_id_pairs manifest)
          (All-intro (λ (p : String × String). Unit {0}) (module_id_pairs manifest) (λ p. tt))
          (rw listed_keys here) in
      (
        key,
        rw
            (
              module_keys-build manifest markdown configs,
              lookup-insert_all_nil id (module_id_pairs manifest)
                  (rw listed_keys (id_parts manifest w).0),
              found,
            )
            refl,
      )

  -- The module of an exercise has a key.
  pub located_key :
      (exercise_id block_id module_id : String)
      → exercise_location registry exercise_id ≡ some (block_id, module_id)
      → (key : String) × (module_key registry module_id ≡ ok key)
  located_key exercise_id block_id module_id h =
      elim (Option-cases (lookup exercise_id registry.exercises)) [
        | inl n ↦ absurd (ground (arith, h, n))
        | inr ((b, m), found) ↦
            let (_, _, ids) = id_parts manifest w in
            let listed_keys =
              keys-modules {V = Block × CourseModule} (λ (ex : Exercise). ex.id)
                (λ (b' : Block) (m' : CourseModule) (l' : Lesson) (ex' : Exercise). (b', m'))
                (iter_modules manifest) in
            let read : lookup exercise_id exercise_entries ≡ some (b, m) =
              sym (
                ap (lookup exercise_id) exercises-build
                ∙ lookup-insert_all_nil exercise_id exercise_entries (rw listed_keys ids))
              ∙ found in
            let listed =
              lookup-All IsListed exercise_id exercise_entries (b, m)
                (All-exercises IsListed (iter_modules manifest) iter_modules-IsListed) read in
            let same : m.id ≡ module_id = ground (arith, h, found) in
            module_key_total module_id
              (subst (λ i. contains i (module_ids manifest) ≡ true) same (listed.0))
      ]
