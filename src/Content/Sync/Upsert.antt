-- ===== src/Content/Sync/Upsert.antt =====
-- backend/src/tradeschool/content/sync.py, `upsert`: one skeleton table brought in line with the rows
-- of a manifest. A table is a list of rows in the order of insertion; its primary key makes the rows
-- of one course with one id at most one. Writing an attribute that is equal changes nothing, so the
-- loop over the attributes is one assignment of them all and one test whether any differs.
use mathlib.Core.List.{foldl}
use tradeschool.Base.{
  ℕ, ◌+◌, String, Bool, true, false, not, ◌&&◌, ◌||◌, none, some, List, [], ◌∷◌, ◌++◌, map,
  if◌then◌else◌, str_eq, find, select,
}
use tradeschool.Base.Dict.{Dict, has_key}

-- `SkeletonModel`: the permanent key, the active flag, and the attributes of the table.
pub record Row (Attrs : Type 0) : Type 0 where
  pub id : String
  pub active : Bool
  pub attrs : Attrs

pub record SyncSummary : Type 0 where
  pub inserted : ℕ
  pub updated : ℕ
  pub deactivated : ℕ

module _ {Attrs : Type 0} where
  abbrev pub fresh : String × Attrs → Row Attrs
  fresh (identifier, attrs) = record { id = identifier; active = true; attrs = attrs }

  abbrev pub named : String → Row Attrs → Bool
  named identifier r = str_eq r.id identifier

  abbrev pub withdrawn : Dict Attrs → Row Attrs → Bool
  withdrawn rows current = not (has_key current.id rows) && current.active

-- `scope` is the test of the query, on the id and the attributes.
module _ {Attrs : Type 0} (scope : String → Attrs → Bool) where
  abbrev pub in_scope : Row Attrs → Bool
  in_scope r = scope r.id r.attrs

  abbrev pub revise : String × Attrs → Row Attrs → Row Attrs
  revise (identifier, attrs) r =
      if in_scope r && named identifier r then record r { active = true; attrs = attrs } else r

  abbrev pub withdraw : String → Row Attrs → Row Attrs
  withdraw identifier r =
      if in_scope r && named identifier r then record r { active = false } else r

  -- One round of the second loop: a row that the manifest lacks goes inactive.
  unfoldable pub retire :
      Dict Attrs → List (Row Attrs) × SyncSummary → Row Attrs → List (Row Attrs) × SyncSummary
  retire rows (table, s) current =
      if withdrawn rows current
      then (map (withdraw current.id) table, record s { deactivated = s.deactivated + 1 })
      else (table, s)

-- `differs` compares all attributes.
module _ {Attrs : Type 0} (differs : Attrs → Attrs → Bool) (scope : String → Attrs → Bool) where
  abbrev pub changed : Row Attrs → Attrs → Bool
  changed current attrs = not current.active || differs current.attrs attrs

  -- One round of the first loop: insert, or write the attributes and count a change.
  unfoldable pub enter :
      List (Row Attrs)
      → List (Row Attrs) × SyncSummary
      → String × Attrs
      → List (Row Attrs) × SyncSummary
  enter existing (table, s) (identifier, attrs) = elim (find (named identifier) existing) [
    | none ↦ (table ++ (fresh (identifier, attrs) ∷ []), record s { inserted = s.inserted + 1 })
    | some current ↦ (
      map (revise scope (identifier, attrs)) table,
      if changed current attrs then record s { updated = s.updated + 1 } else s,
    )
  ]

  unfoldable pub upsert :
      Dict Attrs → List (Row Attrs) × SyncSummary → List (Row Attrs) × SyncSummary
  unfolding enter retire
  upsert rows (table, s) =
      let existing = select (in_scope scope) table in
      foldl (retire scope rows) (foldl (enter existing) (table, s) rows) existing
