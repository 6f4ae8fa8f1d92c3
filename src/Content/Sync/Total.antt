-- ===== src/Content/Sync/Total.antt =====
-- `reconcile` of backend/src/tradeschool/content/sync.py raises no KeyError on a manifest that passed
-- validation: every assumed module has a key.
use mathlib.Core.List.{foldl}
use tradeschool.Base.{
  ℕ, suc, String, ◌≡◌, refl, ap, ◌∙◌, inl, inr, Bool, true, not, ◌&&◌, ◌⊎◌, List, [], ◌∷◌, map,
  all-append, All, arith, is_some, str_eq, str_eq_iff, contains, contains-cons, contains-nil, all,
  flat_map, Result, ok, ◌>>=◌, fold_result, traverse, enumerate, or_raise, key_error, Option-cases,
}
use tradeschool.Base.Dict.{Dict, insert, insert_all, keys, lookup, lookup-insert}
use tradeschool.Content.Schema.{
  CourseModule, Block, Manifest, iter_modules, block_modules, module_ids, assumes_known,
  validate_structure,
}
use tradeschool.Content.Schema.Ids.{validate_structure_iff}
use tradeschool.Content.Sync.Models.{
  Skeleton, put_lesson_tree, put_module, put_module_tree, put_block, put_block_tree, first_skeleton,
  skeleton, key_of_module,
}
use tradeschool.Content.Sync.{Tables, reconcile, apply_skeleton}
use tradeschool.Content.Sync.Upsert.{SyncSummary}

assigned :
    {V : Type 0} (k : String) (r : List (String × V)) (d : Dict V)
    → contains k (keys r) ≡ true
    → is_some (lookup k (insert_all r d)) ≡ true
unfolding insert_all
assigned k r d h = assigned_or k r d (inl h)
  where
    assigned_or :
        {V : Type 0} (k : String) (r : List (String × V)) (d : Dict V)
        → (contains k (keys r) ≡ true) ⊎ (is_some (lookup k d) ≡ true)
        → is_some (lookup k (insert_all r d)) ≡ true
    assigned_or k [] d (inl h) = ground (arith, contains-nil k)
    assigned_or k [] d (inr h) = h
    assigned_or k ((j, v) ∷ r) d h = assigned_or k r (insert j v d) (
        ground (
          arith,
          contains-cons k j (keys r),
          lookup-insert j k v d,
          str_eq_iff k j,
          str_eq_iff j k,
          h,
        ))

keys-key_of_module :
    (ms : List (Block × CourseModule))
    → keys (map (λ (_, m). (m.id, m.key)) ms) ≡ map (λ (_, m). m.id) ms
keys-key_of_module [] = refl
keys-key_of_module ((b, m) ∷ ms) = ap (◌∷◌ m.id) (keys-key_of_module ms)

abbrev Succeeds : {S X : Type 0} → (S → X → Result S) → X → Type 0
Succeeds {S} f x = (s : S) → (t : S) × (f s x ≡ ok t)

fold_result_total :
    {S X : Type 0} (f : S → ℕ × X → Result S) (n : ℕ) (xs : List X)
    → All (λ x. (i : ℕ) → Succeeds f (i, x)) xs
    → (s : S) → (t : S) × (fold_result f s (enumerate n xs) ≡ ok t)
fold_result_total f n [] h s = (s, refl)
fold_result_total f n (x ∷ xs) h s =
    let (s', e) = h.0 n s in
    let (t, e') = fold_result_total f (suc n) xs h.1 s' in
    (t, ap (λ z. z >>= λ z'. fold_result f z' (enumerate (suc n) xs)) e ∙ e')

abbrev is_known : List String → CourseModule → String → Bool
is_known ids m dep = contains dep ids && not (str_eq dep m.id)

module _ (ids : List String) (keys_of : Dict String)
    (found : (k : String) → contains k ids ≡ true → is_some (lookup k keys_of) ≡ true) where
  assumes_total :
      (m : CourseModule) (deps : List String)
      → all (is_known ids m) deps ≡ true
      → (assumes : List String) × (traverse (λ dep. or_raise (lookup dep keys_of) key_error) deps
          ≡ ok assumes)
  assumes_total m [] h = ([], refl)
  assumes_total m (dep ∷ deps) h =
      let (rest, e) = assumes_total m deps (ground (arith, h)) in
      elim (Option-cases (lookup dep keys_of)) [
        | inl n ↦ absurd (ground (arith, h, found dep))
        | inr (k, y) ↦ (k ∷ rest, rw (y, e) refl)
      ]

  add_module_total :
      (c : String) (b : Block) (m : CourseModule)
      → assumes_known ids (b, m) ≡ true
      → (i : ℕ) → Succeeds (put_module_tree c keys_of b) (i, m)
  unfolding put_module_tree
  add_module_total c b m h i s =
      let (assumes, e) = assumes_total m m.assumes h in
      (
        foldl (put_lesson_tree c m) (put_module c b assumes s (i, m)) (enumerate 1 m.lessons),
        ap
            (λ z. z >>= λ assumes. ok (
              foldl (put_lesson_tree c m) (put_module c b assumes s (i, m))
                (enumerate 1 m.lessons)))
            e,
      )

  modules_known :
      (c : String) (b : Block) (ms : List CourseModule)
      → all (assumes_known ids) (map (λ m. (b, m)) ms) ≡ true
      → All (λ m. (i : ℕ) → Succeeds (put_module_tree c keys_of b) (i, m)) ms
  modules_known c b [] h = tt
  modules_known c b (m ∷ ms) h =
      (add_module_total c b m (ground (arith, h)), modules_known c b ms (ground (arith, h)))

  blocks_known :
      (c : String) (bs : List Block)
      → all (assumes_known ids) (flat_map block_modules bs) ≡ true
      → All (λ b. (i : ℕ) → Succeeds (put_block_tree c keys_of) (i, b)) bs
  unfolding put_block_tree
  blocks_known c [] h = tt
  blocks_known c (b ∷ bs) h = (
    (λ i s.
        fold_result_total (put_module_tree c keys_of b) 1 b.modules
          (modules_known c b b.modules (
            ground (
              arith,
              all-append (assumes_known ids) (block_modules b) (flat_map block_modules bs),
              h,
            )))
          (put_block c s (i, b))),
    blocks_known c bs (
        ground
          (arith, all-append (assumes_known ids) (block_modules b) (flat_map block_modules bs), h)),
  )

skeleton_total :
    (manifest : Manifest) (order_index : ℕ)
    → validate_structure manifest ≡ ok manifest
    → (sk : Skeleton) × (skeleton manifest order_index ≡ ok sk)
unfolding skeleton
skeleton_total manifest order_index valid =
    fold_result_total (put_block_tree manifest.course.id (key_of_module manifest)) 1 manifest.blocks
      (blocks_known (module_ids manifest) (key_of_module manifest)
        (λ k h.
          assigned k (map (λ (_, m). (m.id, m.key)) (iter_modules manifest)) []
            (rw (keys-key_of_module (iter_modules manifest)) h))
        manifest.course.id manifest.blocks ((validate_structure_iff manifest).0 valid).known)
      (first_skeleton manifest order_index)

-- A manifest that passed validation is reconciled: no assumed module lacks a key, whatever the
-- tables hold.
pub reconcile_total :
    (manifest : Manifest) (order_index : ℕ) (db : Tables)
    → validate_structure manifest ≡ ok manifest
    → (result : Tables × SyncSummary) × (reconcile manifest order_index db ≡ ok result)
unfolding reconcile
reconcile_total manifest order_index db valid =
    let (sk, e) = skeleton_total manifest order_index valid in
    (
      apply_skeleton manifest.course.id sk db,
      ap (λ z. z >>= λ sk'. ok (apply_skeleton manifest.course.id sk' db)) e,
    )
