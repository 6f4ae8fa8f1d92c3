-- ===== src/Content/Registry/Entries.antt =====
-- The keys of the maps of a course registry (backend/src/tradeschool/content/registry.py), as the
-- ids and keys that the manifest lists.
use tradeschool.Base.{
  String, ◌≡◌, refl, sym, ap, List, [], ◌∷◌, ◌++◌, map, map-append, flat_map, flat_map-append,
}
use tradeschool.Base.Dict.{keys, keys-append}
use tradeschool.Content.Schema.{
  Exercise, Lesson, CourseModule, Block, module_lessons, lesson_exercises,
}

keys-append_of :
    {X V : Type 0} (f : X → String) (xs ys : List (String × V)) (us vs : List X)
    → keys xs ≡ map f us
    → keys ys ≡ map f vs
    → keys (xs ++ ys) ≡ map f (us ++ vs)
keys-append_of f xs ys us vs h k = rw (keys-append xs ys, h, k) (sym (map-append f us vs))

-- The keys of a map over all exercises, in the order of the manifest.
module _ {V : Type 0} (pick : Exercise → String)
    (value : Block → CourseModule → Lesson → Exercise → V) where
  abbrev pub entry : Block → CourseModule → Lesson → Exercise → List (String × V)
  entry b m l ex = (pick ex, value b m l ex) ∷ []

  keys-entries :
      (b : Block) (m : CourseModule) (l : Lesson) (exs : List Exercise)
      → keys (flat_map (entry b m l) exs) ≡ map (λ (_, _, ex). pick ex) (map (λ ex. (m, l, ex)) exs)
  keys-entries b m l [] = refl
  keys-entries b m l (ex ∷ exs) = ap (◌∷◌ (pick ex)) (keys-entries b m l exs)

  keys-lessons :
      (b : Block) (m : CourseModule) (ls : List Lesson)
      → keys (flat_map (λ l. flat_map (entry b m l) l.exercises) ls)
        ≡ map (λ (_, _, ex). pick ex) (flat_map lesson_exercises (map (λ l. (m, l)) ls))
  keys-lessons b m [] = refl
  keys-lessons b m (l ∷ ls) =
      keys-append_of (λ (_, _, ex). pick ex) (flat_map (entry b m l) l.exercises)
        (flat_map (λ l'. flat_map (entry b m l') l'.exercises) ls) (lesson_exercises (m, l))
        (flat_map lesson_exercises (map (λ l'. (m, l')) ls)) (keys-entries b m l l.exercises)
        (keys-lessons b m ls)

  pub keys-modules :
      (bms : List (Block × CourseModule))
      → keys (flat_map (λ (b, m). flat_map (λ l. flat_map (entry b m l) l.exercises) m.lessons) bms)
        ≡ map (λ (_, _, ex). pick ex) (flat_map lesson_exercises (flat_map module_lessons bms))
  keys-modules [] = refl
  keys-modules ((b, m) ∷ bms) =
      rw (flat_map-append lesson_exercises (module_lessons (b, m)) (flat_map module_lessons bms)) (
        keys-append_of (λ (_, _, ex). pick ex)
          (flat_map (λ l. flat_map (entry b m l) l.exercises) m.lessons)
          (flat_map (λ (b, m). flat_map (λ l. flat_map (entry b m l) l.exercises) m.lessons) bms)
          (flat_map lesson_exercises (module_lessons (b, m)))
          (flat_map lesson_exercises (flat_map module_lessons bms)) (keys-lessons b m m.lessons)
          (keys-modules bms))

-- The keys of a map over all modules.
module _ {V : Type 0} (pick : CourseModule → String) (value : Block → CourseModule → V) where
  abbrev pub module_entry : Block × CourseModule → List (String × V)
  module_entry (b, m) = (pick m, value b m) ∷ []

  pub keys-module_entries :
      (bms : List (Block × CourseModule))
      → keys (flat_map module_entry bms) ≡ map (λ (_, m). pick m) bms
  keys-module_entries [] = refl
  keys-module_entries ((b, m) ∷ bms) = ap (◌∷◌ (pick m)) (keys-module_entries bms)
