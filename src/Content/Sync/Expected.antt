-- ===== src/Content/Sync/Expected.antt =====
-- backend/src/tradeschool/content/sync.py: the rows of a manifest, table by table, apart from the loops that
-- build them.
use mathlib.Core.List.{foldl}
use tradeschool.Base.{
  ℕ, String, ◌≡◌, refl, ap, sym, subst, ◌∙◌, none, some, List, [], ◌∷◌, ◌++◌, map, flat_map, find,
  enumerate, str_eq, Result, ok, fold_result, traverse, or_raise, key_error, bind_inverse,
  ok_injective, arith, Option-cases, Result-cases, inl, inr, Distinct,
}
use tradeschool.Base.Dict.{Dict, lookup, insert, insert_all, keys, lookup-insert_all_nil}
use tradeschool.Content.Schema.{Exercise, Lesson, CourseModule, Block, Manifest, iter_modules}
use tradeschool.Content.Schema.Ids.{IsWellFormed, id_parts}
use tradeschool.Content.Registry.Maps.{loop-insert_all}
use tradeschool.Content.Sync.Models.{
  Skeleton, put_exercise, put_lesson, put_lesson_tree, put_module, put_module_tree, put_block,
  put_block_tree, skeleton, first_skeleton, key_of_module,
}

insert_all-append :
    {V : Type 0} (xs ys : List (String × V)) (d : Dict V)
    → insert_all (xs ++ ys) d ≡ insert_all ys (insert_all xs d)
unfolding insert_all
insert_all-append [] ys d = refl
insert_all-append ((k, v) ∷ xs) ys d = insert_all-append xs ys (insert k v d)

-- A loop whose body may raise and makes some assignments makes them all.
loop_result-insert_all :
    {S X V : Type 0} (get : S → Dict V) (body : S → X → Result S) (items : X → List (String × V))
    → ((s t : S) (x : X) → body s x ≡ ok t → get t ≡ insert_all (items x) (get s))
    → (s t : S) (xs : List X) → fold_result body s xs ≡ ok t
    → get t ≡ insert_all (flat_map items xs) (get s)
unfolding insert_all
loop_result-insert_all get body items step s t [] h = ap get (sym (ok_injective h))
loop_result-insert_all get body items step s t (x ∷ xs) h =
    let (s', rest, first) = bind_inverse (λ z. fold_result body z xs) (body s x) h in
    loop_result-insert_all get body items step s' t xs rest
    ∙ ap (insert_all (flat_map items xs)) (step s s' x first)
    ∙ sym (insert_all-append (items x) (flat_map items xs) (get s))

-- The key of the module with that display id.
abbrev pub key_of : Manifest → String → String
key_of manifest dep = elim (find (λ (_, m). str_eq dep m.id) (iter_modules manifest)) [
  | none ↦ ""
  | some (_, m) ↦ m.key
]

-- One table of the five: what stands in it for a block, a module, a lesson and an exercise, each with
-- its place.
module _ {V : Type 0} (manifest : Manifest) (of_block : ℕ → Block → List (String × V))
    (of_module : Block → ℕ → CourseModule → List (String × V))
    (of_lesson : CourseModule → ℕ → Lesson → List (String × V))
    (of_exercise : CourseModule → Lesson → ℕ → Exercise → List (String × V)) where
  abbrev pub lesson_rows : CourseModule → ℕ × Lesson → List (String × V)
  lesson_rows m (j, l) =
      of_lesson m j l ++ flat_map (λ (e, ex). of_exercise m l e ex) (enumerate 1 l.exercises)

  abbrev pub module_rows : Block → ℕ × CourseModule → List (String × V)
  module_rows b (i, m) = of_module b i m ++ flat_map (lesson_rows m) (enumerate 1 m.lessons)

  abbrev pub block_rows : ℕ × Block → List (String × V)
  block_rows (n, b) = of_block n b ++ flat_map (module_rows b) (enumerate 1 b.modules)

  abbrev pub table_rows : List (String × V)
  table_rows = flat_map block_rows (enumerate 1 manifest.blocks)

  -- A field of the skeleton in which the assignments of the loops are these rows.
  pub record Assigns (get : Skeleton → Dict V) : Type 0 where
    pub on_exercise :
        (m : CourseModule) (l : Lesson) (sk : Skeleton) (e : ℕ) (ex : Exercise)
        → get (put_exercise manifest.course.id m l sk (e, ex))
          ≡ insert_all (of_exercise m l e ex) (get sk)
    pub on_lesson :
        (m : CourseModule) (sk : Skeleton) (j : ℕ) (l : Lesson)
        → get (put_lesson manifest.course.id m sk (j, l)) ≡ insert_all (of_lesson m j l) (get sk)
    pub on_module :
        (b : Block) (sk : Skeleton) (i : ℕ) (m : CourseModule)
        → get (put_module manifest.course.id b (map (key_of manifest) m.assumes) sk (i, m))
          ≡ insert_all (of_module b i m) (get sk)
    pub on_block :
        (sk : Skeleton) (n : ℕ) (b : Block)
        → get (put_block manifest.course.id sk (n, b)) ≡ insert_all (of_block n b) (get sk)

  module _ (get : Skeleton → Dict V) (a : Assigns get)
      (keys_found : (dep k : String)
        → lookup dep (key_of_module manifest) ≡ some k
        → k ≡ key_of manifest dep) where
    abbrev c : String
    c = manifest.course.id

    put_lesson_tree-rows :
        (m : CourseModule) (sk : Skeleton) (x : ℕ × Lesson)
        → get (put_lesson_tree c m sk x) ≡ insert_all (lesson_rows m x) (get sk)
    unfolding put_lesson_tree
    put_lesson_tree-rows m sk (j, l) =
        let exercises = flat_map (λ (e, ex). of_exercise m l e ex) (enumerate 1 l.exercises) in
        loop-insert_all get (put_exercise c m l) (λ (e, ex). of_exercise m l e ex)
          (λ s (e, ex). a.on_exercise m l s e ex) (put_lesson c m sk (j, l))
          (enumerate 1 l.exercises)
        ∙ ap (insert_all exercises) (a.on_lesson m sk j l)
        ∙ sym (insert_all-append (of_lesson m j l) exercises (get sk))

    assumed_keys :
        (deps ys : List String)
        → traverse (λ dep. or_raise (lookup dep (key_of_module manifest)) key_error) deps ≡ ok ys
        → ys ≡ map (key_of manifest) deps
    assumed_keys [] ys h = sym (ok_injective h)
    assumed_keys (dep ∷ deps) ys h = elim (Option-cases (lookup dep (key_of_module manifest))) [
      | inl e ↦ absurd (ground (arith, e, h))
      | inr (k, e) ↦
          let others =
            traverse (λ dep. or_raise (lookup dep (key_of_module manifest)) key_error) deps in
          elim (Result-cases others) [
            | inr (f, g) ↦ absurd (ground (arith, e, g, h))
            | inl (rest, g) ↦
                let same : k ∷ rest ≡ ys = ground (arith, e, g, h) in
                sym same ∙ cc (keys_found dep k e, assumed_keys deps rest g)
          ]
    ]

    put_module_tree-rows :
        (b : Block) (sk t : Skeleton) (x : ℕ × CourseModule)
        → put_module_tree c (key_of_module manifest) b sk x ≡ ok t
        → get t ≡ insert_all (module_rows b x) (get sk)
    unfolding put_module_tree
    put_module_tree-rows b sk t (i, m) h =
        let lessons = flat_map (lesson_rows m) (enumerate 1 m.lessons) in
        let (assumes, last, found) =
          bind_inverse
            (λ assumes. ok (
              foldl (put_lesson_tree c m) (put_module c b assumes sk (i, m))
                (enumerate 1 m.lessons)))
            (traverse (λ dep. or_raise (lookup dep (key_of_module manifest)) key_error) m.assumes)
            h in
        let put : get (put_module c b assumes sk (i, m)) ≡ insert_all (of_module b i m) (get sk) =
          subst (λ ys. get (put_module c b ys sk (i, m)) ≡ insert_all (of_module b i m) (get sk))
            (sym (assumed_keys m.assumes assumes found)) (a.on_module b sk i m) in
        ap get (sym (ok_injective last))
        ∙ loop-insert_all get (put_lesson_tree c m) (lesson_rows m) (put_lesson_tree-rows m)
            (put_module c b assumes sk (i, m)) (enumerate 1 m.lessons)
        ∙ ap (insert_all lessons) put
        ∙ sym (insert_all-append (of_module b i m) lessons (get sk))

    put_block_tree-rows :
        (sk t : Skeleton) (x : ℕ × Block)
        → put_block_tree c (key_of_module manifest) sk x ≡ ok t
        → get t ≡ insert_all (block_rows x) (get sk)
    unfolding put_block_tree
    put_block_tree-rows sk t (n, b) h =
        let modules = flat_map (module_rows b) (enumerate 1 b.modules) in
        loop_result-insert_all get (put_module_tree c (key_of_module manifest) b) (module_rows b)
          (put_module_tree-rows b) (put_block c sk (n, b)) t (enumerate 1 b.modules) h
        ∙ ap (insert_all modules) (a.on_block sk n b)
        ∙ sym (insert_all-append (of_block n b) modules (get sk))

    pub skeleton-rows :
        (order_index : ℕ) (sk : Skeleton)
        → skeleton manifest order_index ≡ ok sk
        → get sk ≡ insert_all table_rows (get (first_skeleton manifest order_index))
    unfolding skeleton
    skeleton-rows order_index sk h =
        loop_result-insert_all get (put_block_tree c (key_of_module manifest)) block_rows
          put_block_tree-rows (first_skeleton manifest order_index) sk (enumerate 1 manifest.blocks)
          h

abbrev module_pairs : List (Block × CourseModule) → List (String × String)
module_pairs = map (λ (_, m). (m.id, m.key))

keys-module_pairs :
    (bms : List (Block × CourseModule)) → keys (module_pairs bms) ≡ map (λ (_, m). m.id) bms
keys-module_pairs [] = refl
keys-module_pairs ((b, m) ∷ bms) = ap (◌∷◌ m.id) (keys-module_pairs bms)

lookup-find :
    (bms : List (Block × CourseModule)) (dep k : String)
    → lookup dep (module_pairs bms) ≡ some k
    → k ≡ (elim (find (λ (_, m). str_eq dep m.id) bms) [ none ↦ "" | some (_, m) ↦ m.key ])
unfolding lookup
lookup-find [] dep k h = cc
lookup-find ((b, m) ∷ bms) dep k h = ground (arith, h, lookup-find bms dep k)

pub known_key :
    (manifest : Manifest)
    → IsWellFormed manifest
    → (dep k : String) → lookup dep (key_of_module manifest) ≡ some k
    → k ≡ key_of manifest dep
known_key manifest w dep k h =
    let pairs = module_pairs (iter_modules manifest) in
    let listed : Distinct (keys pairs) =
      rw (keys-module_pairs (iter_modules manifest)) (id_parts manifest w).0 in
    lookup-find (iter_modules manifest) dep k (sym (lookup-insert_all_nil dep pairs listed) ∙ h)
