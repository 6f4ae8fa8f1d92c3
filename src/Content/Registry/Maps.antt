-- ===== src/Content/Registry/Maps.antt =====
-- The maps of a course registry as plain assignments: what the nested loops of `__post_init__` of
-- backend/src/tradeschool/content/registry.py leave in each of them.
use mathlib.Core.List.{foldl}
use tradeschool.Base.{String, ◌≡◌, refl, sym, ap, ◌∙◌, List, [], ◌∷◌, ◌++◌, flat_map}
use tradeschool.Base.Dict.{Dict, insert, insert_all}
use tradeschool.Content.Schema.{
  ExerciseType, Exercise, Lesson, CourseModule, Block, Manifest, iter_modules,
}
use tradeschool.Content.Registry.{
  CourseRegistry, add_exercise, add_lesson, enter_lesson, enter_module, add_module, build, blank,
}

insert_all-append {ℓ} :
    {V : Type ℓ} (xs ys : List (String × V)) (d : Dict V)
    → insert_all (xs ++ ys) d ≡ insert_all ys (insert_all xs d)
unfolding insert_all
insert_all-append [] ys d = refl
insert_all-append ((k, v) ∷ xs) ys d = insert_all-append xs ys (insert k v d)

-- A loop whose body makes some assignments makes them all, one after the other.
module _ {S X : Type 0} {V : Type 0} (get : S → Dict V) (body : S → X → S)
    (items : X → List (String × V))
    (step : (s : S) (x : X) → get (body s x) ≡ insert_all (items x) (get s)) where
  pub loop-insert_all :
      (s : S) (xs : List X) → get (foldl body s xs) ≡ insert_all (flat_map items xs) (get s)
  unfolding insert_all
  loop-insert_all s [] = refl
  loop-insert_all s (x ∷ xs) =
      loop-insert_all (body s x) xs
      ∙ ap (insert_all (flat_map items xs)) (step s x)
      ∙ sym (insert_all-append (items x) (flat_map items xs) (get s))

-- One map of the registry: `of_exercise`, `of_lesson` and `of_module` list what each of the three loops
-- assigns in it.
module _ {Config V : Type 0} (get : CourseRegistry Config → Dict V)
    (of_exercise : Block → CourseModule → Lesson → Exercise → List (String × V))
    (of_lesson : Block → CourseModule → Lesson → List (String × V))
    (of_module : Block → CourseModule → List (String × V)) where
  abbrev pub lesson_items : Block → CourseModule → Lesson → List (String × V)
  lesson_items b m l = of_lesson b m l ++ flat_map (of_exercise b m l) l.exercises

  abbrev pub module_items : Block × CourseModule → List (String × V)
  module_items (b, m) = of_module b m ++ flat_map (lesson_items b m) m.lessons

  pub record Assigns : Type 0 where
    pub on_exercise :
        (b : Block) (m : CourseModule) (l : Lesson) (r : CourseRegistry Config) (ex : Exercise)
        → get (add_exercise b m l r ex) ≡ insert_all (of_exercise b m l ex) (get r)
    pub on_lesson :
        (b : Block) (m : CourseModule) (r : CourseRegistry Config) (l : Lesson)
        → get (enter_lesson b m r l) ≡ insert_all (of_lesson b m l) (get r)
    pub on_module :
        (b : Block) (m : CourseModule) (r : CourseRegistry Config)
        → get (enter_module r (b, m)) ≡ insert_all (of_module b m) (get r)

  add_lesson-insert_all :
      Assigns
      → (b : Block) (m : CourseModule) (r : CourseRegistry Config) (l : Lesson)
      → get (add_lesson b m r l) ≡ insert_all (lesson_items b m l) (get r)
  unfolding add_lesson
  add_lesson-insert_all a b m r l =
      loop-insert_all get (add_exercise b m l) (of_exercise b m l) (a.on_exercise b m l)
        (enter_lesson b m r l) l.exercises
      ∙ ap (insert_all (flat_map (of_exercise b m l) l.exercises)) (a.on_lesson b m r l)
      ∙ sym (insert_all-append (of_lesson b m l) (flat_map (of_exercise b m l) l.exercises) (get r))

  add_module-insert_all :
      Assigns
      → (r : CourseRegistry Config) (bm : Block × CourseModule)
      → get (add_module r bm) ≡ insert_all (module_items bm) (get r)
  unfolding add_module
  add_module-insert_all a r (b, m) =
      loop-insert_all get (add_lesson b m) (lesson_items b m) (add_lesson-insert_all a b m)
        (enter_module r (b, m)) m.lessons
      ∙ ap (insert_all (flat_map (lesson_items b m) m.lessons)) (a.on_module b m r)
      ∙ sym (insert_all-append (of_module b m) (flat_map (lesson_items b m) m.lessons) (get r))

  pub build-insert_all :
      Assigns
      → (manifest : Manifest) (markdown : Dict (Dict String))
        (configs : Dict (ExerciseType × Config))
      → get (build manifest markdown configs)
        ≡ insert_all
            (flat_map module_items (iter_modules manifest))
            (get (blank manifest markdown configs))
  unfolding build
  build-insert_all a manifest markdown configs =
      loop-insert_all get add_module module_items (add_module-insert_all a)
        (blank manifest markdown configs) (iter_modules manifest)

-- A loop whose body leaves a field alone leaves it alone.
module _ {S X Y : Type 0} (get : S → Y) (body : S → X → S)
    (step : (s : S) (x : X) → get (body s x) ≡ get s) where
  loop_keeps : (s : S) (xs : List X) → get (foldl body s xs) ≡ get s
  loop_keeps s [] = refl
  loop_keeps s (x ∷ xs) = loop_keeps (body s x) xs ∙ step s x

module _ {Config : Type 0} where
  abbrev manifest_of : CourseRegistry Config → Manifest
  manifest_of r = r.manifest

  add_lesson-manifest :
      (b : Block) (m : CourseModule) (r : CourseRegistry Config) (l : Lesson)
      → (add_lesson b m r l).manifest ≡ r.manifest
  unfolding add_lesson add_exercise enter_lesson
  add_lesson-manifest b m r l =
      loop_keeps manifest_of (add_exercise b m l) (λ r ex. refl) (enter_lesson b m r l) l.exercises

  -- The registry that is built holds the manifest it is built from.
  pub manifest-build :
      (manifest : Manifest) (markdown : Dict (Dict String)) (configs : Dict (ExerciseType × Config))
      → (build manifest markdown configs).manifest ≡ manifest
  unfolding build add_module enter_module
  manifest-build manifest markdown configs =
      loop_keeps manifest_of add_module
        (λ r (b, m).
          loop_keeps manifest_of (add_lesson b m) (add_lesson-manifest b m) (enter_module r (b, m))
            m.lessons)
        (blank manifest markdown configs) (iter_modules manifest)
