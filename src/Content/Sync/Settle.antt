-- ===== src/Content/Sync/Settle.antt =====
-- `upsert` (backend/src/tradeschool/content/sync.py) as one pass, with its counts.
use mathlib.Core.List.{foldl}
use tradeschool.Base.{
  ◌+◌, String, ◌≡◌, refl, ap, ◌∙◌, inl, inr, Bool, true, false, none, some, List, [], ◌∷◌, ◌++◌,
  map, if◌then◌else◌, find, select, any, All-map_left, Option-cases, arith, map-append, count_if,
  Distinct,
}
use tradeschool.Base.Dict.{Dict, keys}
use tradeschool.Content.Sync.Upsert.{
  Row, SyncSummary, in_scope, fresh, named, changed, revise, enter, withdrawn, retire, upsert,
}
use tradeschool.Base.Maps.{map_eq, map_comp}
use tradeschool.Content.Sync.Pass.{
  write, settle, missing, created, Belongs, IsRowsOf, enter_rows, enter-none, enter-some,
}
use tradeschool.Content.Sync.Drop.{
  known_rows, drop, drop-created, retire_all, any-select, drop-write, Absent-start,
}

module _ {Attrs : Type 0} (differs : Attrs → Attrs → Bool) (scope : String → Attrs → Bool) where
  abbrev pub stale : List (Row Attrs) → String × Attrs → Bool
  stale existing (identifier, attrs) = elim (find (named identifier) existing) [
    | none ↦ false
    | some current ↦ changed differs scope current attrs
  ]

  abbrev counted : List (Row Attrs) → Dict Attrs → SyncSummary → SyncSummary
  counted existing rows s = record s {
    inserted = s.inserted + count_if (missing existing) rows;
    updated = s.updated + count_if (stale existing) rows;
  }

  enter_counts :
      (existing table : List (Row Attrs)) (s : SyncSummary) (rows : Dict Attrs)
      → (foldl (enter differs scope existing) (table, s) rows).1 ≡ counted existing rows s
  enter_counts existing table s [] = ground arith
  enter_counts existing table s ((k, a) ∷ rest) = elim (Option-cases (find (named k) existing)) [
    | inl e ↦
        ap (λ z. (foldl (enter differs scope existing) z rest).1)
          (enter-none differs scope existing table s (k, a) e)
        ∙ (enter_counts existing (table ++ (fresh (k, a) ∷ []))
              (record s { inserted = s.inserted + 1 }) rest
            ∙ ground (arith, e))
    | inr (r, e) ↦
        ap (λ z. (foldl (enter differs scope existing) z rest).1)
          (enter-some differs scope existing table s (k, a) r e)
        ∙ (enter_counts existing (map (revise scope (k, a)) table)
              (if changed differs scope r a then record s { updated = s.updated + 1 } else s) rest
            ∙ ground (arith, e))
  ]

  -- One pass: every row of the course is settled, the rows it lacks are appended, and each kind of
  -- change is counted over the rows that were there.
  abbrev pub pass : Dict Attrs → List (Row Attrs) × SyncSummary → List (Row Attrs) × SyncSummary
  pass rows (table, s) =
      let existing = select (in_scope scope) table in
      (
        map (settle scope rows) table ++ created existing rows,
        record {
          inserted = s.inserted + count_if (missing existing) rows;
          updated = s.updated + count_if (stale existing) rows;
          deactivated = s.deactivated + count_if (withdrawn rows) existing;
        },
      )

  settled_rows :
      (rows : Dict Attrs) (table : List (Row Attrs))
      → let existing = select (in_scope scope) table in
        map (drop scope rows existing) (map (write scope rows) table ++ created existing rows)
        ≡ map (settle scope rows) table ++ created existing rows
  settled_rows rows table =
      let existing = select (in_scope scope) table in
      rw
        (
          map-append (drop scope rows existing) (map (write scope rows) table)
              (created existing rows),
          drop-created scope rows existing existing rows (known_rows rows),
          map_comp (drop scope rows existing) (write scope rows) table,
          map_eq (λ r. drop scope rows existing (write scope rows r)) (settle scope rows) table
              (All-map_left
                (λ (r : Row Attrs).
                  (test : Row Attrs → Bool)
                  → in_scope scope r ≡ true
                  → test r ≡ true
                  → any test existing ≡ true)
                (λ r. drop scope rows existing (write scope rows r) ≡ settle scope rows r) table
                (drop-write scope rows existing) (any-select scope table)),
        )
        refl

  entered :
      (rows : Dict Attrs) (table : List (Row Attrs)) (s : SyncSummary)
      → Distinct (keys rows)
      → Belongs scope rows
      → let existing = select (in_scope scope) table in
        foldl (enter differs scope existing) (table, s) rows
        ≡ (map (write scope rows) table ++ created existing rows, counted existing rows s)
  entered rows table s d b =
      let existing = select (in_scope scope) table in
      λ i. (
        enter_rows differs scope existing table s rows d b (Absent-start scope table rows) i,
        enter_counts existing table s rows i,
      )

  -- The two loops of `upsert` are that one pass, for distinct keys that belong to the course.
  pub upsert-eq-pass :
      (rows : Dict Attrs) (table : List (Row Attrs)) (s : SyncSummary)
      → IsRowsOf scope rows
      → upsert differs scope rows (table, s) ≡ pass rows (table, s)
  unfolding upsert
  upsert-eq-pass rows table s good =
      let existing = select (in_scope scope) table in
      ap (λ z. foldl (retire scope rows) z existing)
        (entered rows table s good.distinct good.belongs)
      ∙ (retire_all scope rows existing (map (write scope rows) table ++ created existing rows)
            (counted existing rows s)
          ∙ ap (λ t. (t, (pass rows (table, s)).1)) (settled_rows rows table))
