-- ===== src/Content/Schema/Ids.antt =====
-- backend/src/tradeschool/content/schema.py: what the structural validation of a manifest accepts.
use tradeschool.Base.{
  map, String, ◌≡◌, refl, ◌∙◌, ◌↔◌, sym, ap, true, false, List, [], ◌∷◌, ◌++◌, arith, contains,
  contains-cons, contains-nil, contains-append, All, Distinct, str_eq_iff, ok, flat_map,
  bind_inverse, all,
}
use tradeschool.Content.Schema.{
  iter_lessons, Manifest, check_level, check_levels, validate_structure, id_levels, key_levels,
  declares, assumes_known, iter_exercises, iter_modules, module_ids,
}

-- No text of the list was seen before it.
abbrev Unseen : List String → List String → Type 0
Unseen seen [] = Unit
Unseen seen (x ∷ xs) = (contains x seen ≡ false) × Unseen (x ∷ seen) xs

Unseen-contains :
    (y : String) (seen xs : List String)
    → Unseen seen xs
    → contains y seen ≡ true
    → contains y xs ≡ false
Unseen-contains y seen [] h c = contains-nil y
Unseen-contains y seen (x ∷ xs) h c = ground (
  arith,
  contains-cons y x xs,
  contains-cons y x seen,
  str_eq_iff y x,
  Unseen-contains y (x ∷ seen) xs h.1,
)

Unseen-Distinct : (seen xs : List String) → Unseen seen xs → Distinct xs
Unseen-Distinct seen [] h = tt
Unseen-Distinct seen (x ∷ xs) h = (
  Unseen-contains x (x ∷ seen) xs h.1
      (rw (contains-cons x x seen) (ground (arith, str_eq_iff x x))),
  Unseen-Distinct (x ∷ seen) xs h.1,
)

abbrev Fresh : List String → List String → Type 0
Fresh seen = All (λ x. contains x seen ≡ false)

Fresh-cons :
    (x : String) (seen xs : List String)
    → contains x xs ≡ false
    → Fresh seen xs
    → Fresh (x ∷ seen) xs
Fresh-cons x seen [] c h = tt
Fresh-cons x seen (y ∷ xs) c h = ground (
  arith,
  contains-cons x y xs,
  contains-cons y x seen,
  str_eq_iff y x,
  str_eq_iff x y,
  Fresh-cons x seen xs,
)

Distinct-Unseen : (seen xs : List String) → Distinct xs → Fresh seen xs → Unseen seen xs
Distinct-Unseen seen [] h f = tt
Distinct-Unseen seen (x ∷ xs) h f =
    (f.0, Distinct-Unseen (x ∷ seen) xs h.1 (Fresh-cons x seen xs h.0 f.1))

Fresh-nil : (xs : List String) → Fresh [] xs
Fresh-nil [] = tt
Fresh-nil (x ∷ xs) = (contains-nil x, Fresh-nil xs)

-- What has been seen after a list.
abbrev extend : List String → List String → List String
extend seen [] = seen
extend seen (x ∷ xs) = extend (x ∷ seen) xs

extend-append : (seen xs ys : List String) → extend seen (xs ++ ys) ≡ extend (extend seen xs) ys
extend-append seen [] ys = refl
extend-append seen (x ∷ xs) ys = extend-append (x ∷ seen) xs ys

Unseen-append :
    (seen xs ys : List String)
    → Unseen seen (xs ++ ys) ↔ (Unseen seen xs × Unseen (extend seen xs) ys)
Unseen-append seen [] ys = ((λ h. (tt, h)), (λ h. h.1))
Unseen-append seen (x ∷ xs) ys =
    let ih = Unseen-append (x ∷ seen) xs ys in
    ((λ h. ((h.0, (ih.0 h.1).0), (ih.0 h.1).1)), (λ h. (h.0.0, ih.1 (h.0.1, h.1))))

check_level_sound :
    (seen xs s : List String) → check_level seen xs ≡ ok s → Unseen seen xs × (s ≡ extend seen xs)
unfolding check_level
check_level_sound seen [] s h = (tt, ground arith)
check_level_sound seen (x ∷ xs) s h = ground (arith, check_level_sound (x ∷ seen) xs s)

check_level_complete :
    (seen xs : List String) → Unseen seen xs → check_level seen xs ≡ ok (extend seen xs)
unfolding check_level
check_level_complete seen [] h = refl
check_level_complete seen (x ∷ xs) h = rw h.0 (check_level_complete (x ∷ seen) xs h.1)

abbrev flatten : List (List String) → List String
flatten = flat_map (λ level. level)

check_levels_sound :
    (seen : List String) (levels : List (List String)) (s : List String)
    → check_levels seen levels ≡ ok s
    → Unseen seen (flatten levels)
unfolding check_levels
check_levels_sound seen [] s h = tt
check_levels_sound seen (level ∷ levels) s h =
    let (seen', rest, first) =
      bind_inverse (λ l. check_levels l levels) (check_level seen level) h in
    let (unseen, e) = check_level_sound seen level seen' first in
    (Unseen-append seen level (flatten levels)).1
      (unseen, check_levels_sound (extend seen level) levels s (rw e at rest))

check_levels_complete :
    (seen : List String) (levels : List (List String))
    → Unseen seen (flatten levels)
    → check_levels seen levels ≡ ok (extend seen (flatten levels))
unfolding check_levels
check_levels_complete seen [] h = refl
check_levels_complete seen (level ∷ levels) h =
    let (now, later) = (Unseen-append seen level (flatten levels)).0 h in
    rw (check_level_complete seen level now) (
      check_levels_complete (extend seen level) levels later
      ∙ ap ok (sym (extend-append seen level (flatten levels))))

-- What the validation promises of a manifest.
pub record IsWellFormed (manifest : Manifest) : Type 0 where
  pub ids : Distinct (flatten (id_levels manifest))
  pub keys : Distinct (flatten (key_levels manifest))
  pub typed : all (declares manifest.course.exercise_types) (iter_exercises manifest) ≡ true
  pub known : all (assumes_known (module_ids manifest)) (iter_modules manifest) ≡ true

distinct_levels :
    (levels : List (List String)) (s : List String)
    → check_levels [] levels ≡ ok s
    → Distinct (flatten levels)
distinct_levels levels s h = Unseen-Distinct [] (flatten levels) (check_levels_sound [] levels s h)

levels_accepted :
    (levels : List (List String))
    → Distinct (flatten levels)
    → check_levels [] levels ≡ ok (extend [] (flatten levels))
levels_accepted levels h =
    check_levels_complete [] levels
      (Distinct-Unseen [] (flatten levels) h (Fresh-nil (flatten levels)))

-- The four steps that a validation passed.
passed_steps :
    (manifest : Manifest)
    → validate_structure manifest ≡ ok manifest
    → (s : List String) × (t : List String) × (check_levels [] (id_levels manifest) ≡ ok s)
      × (check_levels [] (key_levels manifest) ≡ ok t)
      × (all (declares manifest.course.exercise_types) (iter_exercises manifest) ≡ true)
      × (all (assumes_known (module_ids manifest)) (iter_modules manifest) ≡ true)
unfolding validate_structure
passed_steps manifest h = ground arith

-- The structural validation accepts a manifest exactly when no id and no key of the course stands
-- twice, every exercise has a declared type, and every module assumes only other known modules.
pub validate_structure_iff :
    (manifest : Manifest) → (validate_structure manifest ≡ ok manifest) ↔ IsWellFormed manifest
unfolding validate_structure
validate_structure_iff manifest = (sound, complete)
  where
    sound : validate_structure manifest ≡ ok manifest → IsWellFormed manifest
    sound h =
        let (s, t, ids, keys, typed, known) = passed_steps manifest h in
        record {
          ids = distinct_levels (id_levels manifest) s ids;
          keys = distinct_levels (key_levels manifest) t keys;
          typed = typed;
          known = known;
        }

    complete : IsWellFormed manifest → validate_structure manifest ≡ ok manifest
    complete w = rw (
      levels_accepted (id_levels manifest) w.ids,
      levels_accepted (key_levels manifest) w.keys,
      w.typed,
      w.known,
    )

Distinct-append : (xs ys : List String) → Distinct (xs ++ ys) → Distinct xs × Distinct ys
Distinct-append [] ys h = (tt, h)
Distinct-append (x ∷ xs) ys h =
    let (dx, dy) = Distinct-append xs ys h.1 in ((ground (arith, contains-append x xs ys), dx), dy)

-- The last three levels, taken apart: modules, lessons and exercises.
distinct_parts :
    (a b c d e : List String)
    → Distinct (flatten (a ∷ b ∷ c ∷ d ∷ e ∷ []))
    → Distinct c × Distinct d × Distinct e
distinct_parts a b c d e h =
    let h₁ = (Distinct-append a _ h).1 in
    let h₂ = (Distinct-append b _ h₁).1 in
    let (dc, h₃) = Distinct-append c _ h₂ in
    let (dd, h₄) = Distinct-append d _ h₃ in (dc, dd, (Distinct-append e [] h₄).0)

module _ (manifest : Manifest) (w : IsWellFormed manifest) where
  pub id_parts :
      Distinct (map (λ (_, m). m.id) (iter_modules manifest))
      × Distinct (map (λ (_, l). l.id) (iter_lessons manifest))
      × Distinct (map (λ (_, _, ex). ex.id) (iter_exercises manifest))
  id_parts =
      distinct_parts (manifest.course.id ∷ []) (map (λ b. b.id) manifest.blocks)
        (map (λ (_, m). m.id) (iter_modules manifest))
        (map (λ (_, l). l.id) (iter_lessons manifest))
        (map (λ (_, _, ex). ex.id) (iter_exercises manifest)) w.ids

  pub key_parts :
      Distinct (map (λ (_, m). m.key) (iter_modules manifest))
      × Distinct (map (λ (_, l). l.key) (iter_lessons manifest))
      × Distinct (map (λ (_, _, ex). ex.key) (iter_exercises manifest))
  key_parts =
      distinct_parts (manifest.course.id ∷ []) (map (λ b. b.id) manifest.blocks)
        (map (λ (_, m). m.key) (iter_modules manifest))
        (map (λ (_, l). l.key) (iter_lessons manifest))
        (map (λ (_, _, ex). ex.key) (iter_exercises manifest)) w.keys
