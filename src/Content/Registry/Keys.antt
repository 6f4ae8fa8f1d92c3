-- ===== src/Content/Registry/Keys.antt =====
-- The boundary between display ids and permanent keys (backend/src/tradeschool/content/registry.py):
-- the two maps of each level.
use mathlib.Core.Path.{ap₂}
use tradeschool.Base.{
  String, ◌≡◌, refl, ap, ◌∙◌, ◌↔◌, List, [], ◌∷◌, ◌++◌, map, map-append, flat_map, arith, Option,
  none, some, Distinct, str_eq_iff, Failure, ok, or_raise, key_error, append-nil,
}
use tradeschool.Base.Dict.{
  Dict, insert_all, lookup, keys, lookup-insert_all_nil, lookup-some-contains,
}
use tradeschool.Content.Schema.{
  ExerciseType, Exercise, Lesson, CourseModule, Block, Manifest, iter_modules,
}
use tradeschool.Content.Schema.Ids.{IsWellFormed, id_parts, key_parts}
use tradeschool.Content.Registry.{
  CourseRegistry, add_exercise, enter_lesson, enter_module, build, exercise_key,
  exercise_id_for_key, module_key, module_id_for_key,
}
use tradeschool.Content.Registry.Maps.{build-insert_all}
use tradeschool.Content.Registry.Entries.{entry, keys-modules, module_entry, keys-module_entries}

abbrev swap : String × String → String × String
swap (a, b) = (b, a)

lookup-swap :
    (k v : String) (ps : List (String × String))
    → Distinct (keys (map swap ps))
    → lookup k ps ≡ some v
    → lookup v (map swap ps) ≡ some k
unfolding lookup
lookup-swap k v [] h e = cc
lookup-swap k v ((j, w) ∷ ps) h e = ground (
  arith,
  str_eq_iff k j,
  str_eq_iff v w,
  lookup-swap k v ps h.1,
  lookup-some-contains v (map swap ps) k,
)

swap-swap : (ps : List (String × String)) → map swap (map swap ps) ≡ ps
swap-swap [] = refl
swap-swap ((j, w) ∷ ps) = ap (◌∷◌ (j, w)) (swap-swap ps)

-- Two maps assigned from the same pairs, in the two directions.
inverse_maps :
    (ps : List (String × String)) (k v : String)
    → Distinct (keys ps)
    → Distinct (keys (map swap ps))
    → (lookup k (insert_all ps []) ≡ some v) ↔ (lookup v (insert_all (map swap ps) []) ≡ some k)
unfolding lookup
inverse_maps ps k v h h' =
    rw (lookup-insert_all_nil k ps h, lookup-insert_all_nil v (map swap ps) h')
      (
        lookup-swap k v ps h',
        λ e. rw (swap-swap ps) at (lookup-swap v k (map swap ps) (rw (swap-swap ps) h) e),
      )

map-flat_map_of :
    {X Y Z : Type 0} (g : Y → Z) (f : X → List Y) (f' : X → List Z)
    → ((x : X) → map g (f x) ≡ f' x)
    → (xs : List X) → map g (flat_map f xs) ≡ flat_map f' xs
map-flat_map_of g f f' h [] = refl
map-flat_map_of g f f' h (x ∷ xs) =
    map-append g (f x) (flat_map f xs) ∙ ap₂ ◌++◌ (h x) (map-flat_map_of g f f' h xs)

abbrev id_entry : Block → CourseModule → Lesson → Exercise → List (String × String)
id_entry = entry (λ ex. ex.id) (λ _ _ _ ex. ex.key)

abbrev key_entry : Block → CourseModule → Lesson → Exercise → List (String × String)
key_entry = entry (λ ex. ex.key) (λ _ _ _ ex. ex.id)

-- The pairs of all exercises, in the order of the manifest.
abbrev pairs_of :
    (Block → CourseModule → Lesson → Exercise → List (String × String))
    → Block × CourseModule
    → List (String × String)
pairs_of f (b, m) = flat_map (λ l. flat_map (f b m l) l.exercises) m.lessons

abbrev id_pairs : Manifest → List (String × String)
id_pairs manifest = flat_map (pairs_of id_entry) (iter_modules manifest)

abbrev key_pairs : Manifest → List (String × String)
key_pairs manifest = flat_map (pairs_of key_entry) (iter_modules manifest)

swap-id_pairs : (manifest : Manifest) → map swap (id_pairs manifest) ≡ key_pairs manifest
swap-id_pairs manifest =
    map-flat_map_of swap (pairs_of id_entry) (pairs_of key_entry)
      (λ (b, m).
        map-flat_map_of swap (λ l. flat_map (id_entry b m l) l.exercises)
          (λ l. flat_map (key_entry b m l) l.exercises)
          (λ l. map-flat_map_of swap (id_entry b m l) (key_entry b m l) (λ ex. refl) l.exercises)
          m.lessons)
      (iter_modules manifest)

abbrev pub module_id_pairs : Manifest → List (String × String)
module_id_pairs manifest =
    flat_map (module_entry (λ m. m.id) (λ b m. m.key)) (iter_modules manifest)

abbrev module_key_pairs : Manifest → List (String × String)
module_key_pairs manifest =
    flat_map (module_entry (λ m. m.key) (λ b m. m.id)) (iter_modules manifest)

swap-module_id_pairs :
    (manifest : Manifest) → map swap (module_id_pairs manifest) ≡ module_key_pairs manifest
swap-module_id_pairs manifest =
    map-flat_map_of swap (module_entry (λ m. m.id) (λ b m. m.key))
      (module_entry (λ m. m.key) (λ b m. m.id)) (λ (b, m). refl) (iter_modules manifest)

-- Only the modules are entered in a map: the loops over lessons and exercises add nothing to it.
nothing : {V : Type 0} (exs : List Exercise) → flat_map {B = V} (λ ex. []) exs ≡ []
nothing [] = refl
nothing (ex ∷ exs) = nothing exs

nothing_in_lessons :
    {V : Type 0} (ls : List Lesson)
    → flat_map {B = V} (λ l. flat_map (λ ex. []) l.exercises) ls ≡ []
nothing_in_lessons [] = refl
nothing_in_lessons (l ∷ ls) = rw (nothing l.exercises) (nothing_in_lessons ls)

pub only_modules :
    {V : Type 0} (f : Block × CourseModule → List V) (bms : List (Block × CourseModule))
    → flat_map (λ (b, m). f (b, m) ++ flat_map (λ l. flat_map (λ ex. []) l.exercises) m.lessons) bms
      ≡ flat_map f bms
only_modules f [] = refl
only_modules f ((b, m) ∷ bms) =
    rw (nothing_in_lessons m.lessons, append-nil (f (b, m)), only_modules f bms)

-- `or_raise` answers what the map answers.
or_raise_iff :
    {A : Type 0} (o : Option A) (e : Failure) (a : A) → (or_raise o e ≡ ok a) ↔ (o ≡ some a)
or_raise_iff none e a = ((λ h. cc), (λ h. cc))
or_raise_iff (some b) e a = ((λ h. ground arith), (λ h. ground arith))

module _ {Config : Type 0} (manifest : Manifest) (markdown : Dict (Dict String))
    (configs : Dict (ExerciseType × Config)) where
  exercise_keys-build :
      (build manifest markdown configs).exercise_keys ≡ insert_all (id_pairs manifest) []
  unfolding add_exercise enter_lesson enter_module insert_all
  exercise_keys-build =
      build-insert_all (λ (r : CourseRegistry Config). r.exercise_keys)
        (entry (λ ex. ex.id) (λ _ _ _ ex. ex.key)) (λ b m l. []) (λ b m. [])
        (record {
          on_exercise = λ b m l r ex. refl;
          on_lesson = λ b m r l. refl;
          on_module = λ b m r. refl;
        })
        manifest markdown configs

  exercise_ids-build :
      (build manifest markdown configs).exercise_ids ≡ insert_all (key_pairs manifest) []
  unfolding add_exercise enter_lesson enter_module insert_all
  exercise_ids-build =
      build-insert_all (λ (r : CourseRegistry Config). r.exercise_ids)
        (entry (λ ex. ex.key) (λ _ _ _ ex. ex.id)) (λ b m l. []) (λ b m. [])
        (record {
          on_exercise = λ b m l r ex. refl;
          on_lesson = λ b m r l. refl;
          on_module = λ b m r. refl;
        })
        manifest markdown configs

  pub module_keys-build :
      (build manifest markdown configs).module_keys ≡ insert_all (module_id_pairs manifest) []
  unfolding add_exercise enter_lesson enter_module insert_all
  module_keys-build =
      build-insert_all (λ (r : CourseRegistry Config). r.module_keys) (λ b m l ex. []) (λ b m l. [])
        (λ b m. (m.id, m.key) ∷ [])
        (record {
          on_exercise = λ b m l r ex. refl;
          on_lesson = λ b m r l. refl;
          on_module = λ b m r. refl;
        })
        manifest markdown configs
      ∙ ap (λ ps. insert_all ps [])
          (only_modules (module_entry (λ m. m.id) (λ b m. m.key)) (iter_modules manifest))

  module_ids-build :
      (build manifest markdown configs).module_ids ≡ insert_all (module_key_pairs manifest) []
  unfolding add_exercise enter_lesson enter_module insert_all
  module_ids-build =
      build-insert_all (λ (r : CourseRegistry Config). r.module_ids) (λ b m l ex. []) (λ b m l. [])
        (λ b m. (m.key, m.id) ∷ [])
        (record {
          on_exercise = λ b m l r ex. refl;
          on_lesson = λ b m r l. refl;
          on_module = λ b m r. refl;
        })
        manifest markdown configs
      ∙ ap (λ ps. insert_all ps [])
          (only_modules (module_entry (λ m. m.key) (λ b m. m.id)) (iter_modules manifest))

  -- On a well-formed manifest the registry translates the ids of exercises to keys and back: an id has
  -- a key exactly when the key leads back to that id.
  pub exercise_key_iff :
      IsWellFormed manifest
      → (exercise_id key : String)
      → (exercise_key (build manifest markdown configs) exercise_id ≡ ok key)
        ↔ (exercise_id_for_key (build manifest markdown configs) key ≡ some exercise_id)
  exercise_key_iff w exercise_id key =
      let (_, _, ids) = id_parts manifest w in
      let (_, _, ks) = key_parts manifest w in
      let di : Distinct (keys (id_pairs manifest)) =
        rw (keys-modules (λ ex. ex.id) (λ _ _ _ ex. ex.key) (iter_modules manifest)) ids in
      let dk : Distinct (keys (map swap (id_pairs manifest))) =
        rw
          (
            swap-id_pairs manifest,
            keys-modules (λ ex. ex.key) (λ _ _ _ ex. ex.id) (iter_modules manifest),
          )
          ks in
      let inverse = inverse_maps (id_pairs manifest) exercise_id key di dk in
      let back =
        or_raise_iff (lookup exercise_id (build manifest markdown configs).exercise_keys) key_error
          key in
      rw exercise_ids-build (
        (λ h. rw (swap-id_pairs manifest) at (inverse.0 (rw exercise_keys-build at (back.0 h)))),
        (λ h. back.1 (rw exercise_keys-build (inverse.1 (rw (swap-id_pairs manifest) h)))),
      )

  -- On a well-formed manifest the registry translates the ids of modules to keys and back: an id has a
  -- key exactly when the key leads back to that id.
  pub module_key_iff :
      IsWellFormed manifest
      → (module_id key : String)
      → (module_key (build manifest markdown configs) module_id ≡ ok key)
        ↔ (module_id_for_key (build manifest markdown configs) key ≡ some module_id)
  module_key_iff w module_id key =
      let (ids, _, _) = id_parts manifest w in
      let (ks, _, _) = key_parts manifest w in
      let di : Distinct (keys (module_id_pairs manifest)) =
        rw (keys-module_entries (λ m. m.id) (λ b m. m.key) (iter_modules manifest)) ids in
      let dk : Distinct (keys (map swap (module_id_pairs manifest))) =
        rw
          (
            swap-module_id_pairs manifest,
            keys-module_entries (λ m. m.key) (λ b m. m.id) (iter_modules manifest),
          )
          ks in
      let inverse = inverse_maps (module_id_pairs manifest) module_id key di dk in
      let back =
        or_raise_iff (lookup module_id (build manifest markdown configs).module_keys) key_error
          key in
      rw module_ids-build (
        (λ h.
            rw (swap-module_id_pairs manifest) at (inverse.0 (rw module_keys-build at (back.0 h)))),
        (λ h. back.1 (rw module_keys-build (inverse.1 (rw (swap-module_id_pairs manifest) h)))),
      )
