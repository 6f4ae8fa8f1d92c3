-- ===== src/Content/Sync/Kept.antt =====
-- `reconcile` of backend/src/tradeschool/content/sync.py deletes no row.
use tradeschool.Base.{
  ℕ, String, ◌≡◌, refl, ap, subst, ◌∙◌, Bool, List, [], ◌∷◌, ◌++◌, map, map-append, arith, select,
  ok, Option-cases, inl, inr,
}
use tradeschool.Base.Dict.{Dict, lookup}
use tradeschool.Content.Schema.{Manifest}
use tradeschool.Content.Sync.Upsert.{Row, SyncSummary, in_scope, upsert}
use tradeschool.Content.Sync.Pass.{settle, created, IsRowsOf}
use tradeschool.Content.Sync.Settle.{upsert-eq-pass}
use tradeschool.Content.Sync.Models.{Skeleton}
use tradeschool.Content.Sync.Rows.{IsSkeletonOf, skeleton-IsSkeletonOf}
use tradeschool.Content.Sync.Twice.{reconcile_applies}
use tradeschool.Content.Sync.{Tables, apply_skeleton, reconcile}

-- The ids of the table, in order, are a first part of those of the other.
abbrev pub IsExtended : {Attrs : Type 0} → List (Row Attrs) → List (Row Attrs) → Type 0
IsExtended before after =
    (added : List String) × (map (λ r. r.id) after ≡ map (λ r. r.id) before ++ added)

module _ {Attrs : Type 0} (scope : String → Attrs → Bool) where
  settle_ids :
      (rows : Dict Attrs) (table : List (Row Attrs))
      → map (λ r. r.id) (map (settle scope rows) table) ≡ map (λ r. r.id) table
  settle_ids rows [] = refl
  settle_ids rows (r ∷ table) = elim (Option-cases (lookup r.id rows)) [
    | inl e ↦ ground (arith, e, settle_ids rows table)
    | inr (a, e) ↦ ground (arith, e, settle_ids rows table)
  ]

  upsert-IsExtended :
      (differs : Attrs → Attrs → Bool) (rows : Dict Attrs) (table : List (Row Attrs))
      (s : SyncSummary)
      → IsRowsOf scope rows
      → IsExtended table (upsert differs scope rows (table, s)).0
  upsert-IsExtended differs rows table s good =
      let existing = select (in_scope scope) table in
      (
        map (λ r. r.id) (created existing rows),
        ap (λ z. map (λ r. r.id) z.0) (upsert-eq-pass differs scope rows table s good)
            ∙ (map-append (λ r. r.id) (map (settle scope rows) table) (created existing rows)
                ∙ ap (λ ids. ids ++ map (λ r. r.id) (created existing rows))
                    (settle_ids rows table)),
      )

pub record IsKept (db db' : Tables) : Type 0 where
  pub courses : IsExtended db.courses db'.courses
  pub blocks : IsExtended db.blocks db'.blocks
  pub modules : IsExtended db.modules db'.modules
  pub lessons : IsExtended db.lessons db'.lessons
  pub exercises : IsExtended db.exercises db'.exercises

apply_skeleton-IsKept :
    (c : String) (sk : Skeleton) (db : Tables)
    → IsSkeletonOf c sk
    → IsKept db (apply_skeleton c sk db).0
unfolding apply_skeleton
apply_skeleton-IsKept c sk db good = record {
  courses = upsert-IsExtended _ _ sk.courses db.courses _ good.courses;
  blocks = upsert-IsExtended _ _ sk.blocks db.blocks _ good.blocks;
  modules = upsert-IsExtended _ _ sk.modules db.modules _ good.modules;
  lessons = upsert-IsExtended _ _ sk.lessons db.lessons _ good.lessons;
  exercises = upsert-IsExtended _ _ sk.exercises db.exercises _ good.exercises;
}

-- `reconcile` deletes no row and renames none: in each of the five tables the ids that were there
-- are still there, in their order, before those that were added.
pub reconcile-IsKept :
    (manifest : Manifest) (order_index : ℕ) (db db' : Tables) (s : SyncSummary)
    → reconcile manifest order_index db ≡ ok (db', s)
    → IsKept db db'
reconcile-IsKept manifest order_index db db' s h =
    let c = manifest.course.id in
    let (sk, built, applied) = reconcile_applies manifest order_index db (db', s) h in
    subst (λ (z : Tables × SyncSummary). IsKept db z.0) applied
      (apply_skeleton-IsKept c sk db (skeleton-IsSkeletonOf manifest order_index sk built))
