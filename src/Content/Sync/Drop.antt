-- ===== src/Content/Sync/Drop.antt =====
-- The second loop of `upsert` (backend/src/tradeschool/content/sync.py) as one map over the table: the rows
-- that the manifest no longer has are withdrawn.
use mathlib.Core.List.{foldl}
use tradeschool.Base.{
  ◌+◌, String, ◌≡◌, refl, ap, ◌∙◌, inl, inr, Bool, true, false, ◌&&◌, none, List, [], ◌∷◌, map,
  if◌then◌else◌, str_eq, str_eq_iff, str_eq_self, find, select, any, All, All-map_left, All-intro,
  Bool-cases, arith, count_if,
}
use tradeschool.Base.Dict.{Dict, lookup, has_key}
use tradeschool.Content.Sync.Upsert.{Row, SyncSummary, in_scope, named, withdrawn, withdraw, retire}
use tradeschool.Base.Maps.{map_eq, map_same, map_comp}
use tradeschool.Content.Sync.Pass.{hit, write, settle, created, Absent}

module _ {Attrs : Type 0} where
  pub known_rows : (rows : Dict Attrs) → All (λ (p : String × Attrs). has_key p.0 rows ≡ true) rows
  unfolding lookup
  known_rows [] = tt
  known_rows ((k, a) ∷ rest) = (
    ground (arith, str_eq_self k),
    All-map_left (λ (p : String × Attrs). has_key p.0 rest ≡ true)
        (λ (p : String × Attrs). has_key p.0 ((k, a) ∷ rest) ≡ true) rest (λ p e. ground arith)
        (known_rows rest),
  )

  -- Some row of that id is to be withdrawn.
  abbrev obsolete : Dict Attrs → List (Row Attrs) → String → Bool
  obsolete rows es k = any (λ x. str_eq k x.id && withdrawn rows x) es

  obsolete_known :
      (rows : Dict Attrs) (es : List (Row Attrs)) (k : String)
      → has_key k rows ≡ true
      → obsolete rows es k ≡ false
  obsolete_known rows [] k h = refl
  obsolete_known rows (x ∷ es) k h =
      ground (arith, str_eq_iff k x.id, obsolete_known rows es k h, ap (λ j. has_key j rows))

module _ {Attrs : Type 0} (scope : String → Attrs → Bool) where
  abbrev pub drop : Dict Attrs → List (Row Attrs) → Row Attrs → Row Attrs
  drop rows es r =
      if in_scope scope r && obsolete rows es r.id then record r { active = false } else r

  drop-withdraw :
      (rows : Dict Attrs) (x : Row Attrs) (es table : List (Row Attrs))
      → withdrawn rows x ≡ true
      → map (drop rows es) (map (withdraw scope x.id) table) ≡ map (drop rows (x ∷ es)) table
  drop-withdraw rows x es table e =
      map_comp (drop rows es) (withdraw scope x.id) table
      ∙ map_eq (λ r. drop rows es (withdraw scope x.id r)) (drop rows (x ∷ es)) table
          (All-intro (λ r. drop rows es (withdraw scope x.id r) ≡ drop rows (x ∷ es) r) table
            (λ r. ground (arith, e)))

  drop_kept :
      (rows : Dict Attrs) (x : Row Attrs) (es table : List (Row Attrs))
      → withdrawn rows x ≡ false
      → map (drop rows es) table ≡ map (drop rows (x ∷ es)) table
  drop_kept rows x es table e =
      map_eq (drop rows es) (drop rows (x ∷ es)) table
        (All-intro (λ r. drop rows es r ≡ drop rows (x ∷ es) r) table (λ r. ground (arith, e)))

  pub retire_all :
      (rows : Dict Attrs) (es table : List (Row Attrs)) (s : SyncSummary)
      → foldl (retire scope rows) (table, s) es ≡ (
        map (drop rows es) table,
        record s { deactivated = s.deactivated + count_if (withdrawn rows) es },
      )
  unfolding retire
  retire_all rows [] table s = ground (
    arith,
    map_same (drop rows []) table (All-intro (λ r. drop rows [] r ≡ r) table (λ r. ground arith)),
  )
  retire_all rows (x ∷ es) table s = elim (Bool-cases (withdrawn rows x)) [
    | inl e ↦
        ap (λ z. foldl (retire scope rows) z es) (retire_yes e)
        ∙ (ground (
          arith,
          retire_all rows es (map (withdraw scope x.id) table)
              (record s { deactivated = s.deactivated + 1 }),
          drop-withdraw rows x es table e,
        ))
    | inr e ↦
        ap (λ z. foldl (retire scope rows) z es) (retire_no e)
        ∙ (ground (arith, retire_all rows es table s, drop_kept rows x es table e))
  ]
    where
      retire_yes :
          withdrawn rows x ≡ true
          → retire scope rows (table, s) x
            ≡ (map (withdraw scope x.id) table, record s { deactivated = s.deactivated + 1 })
      retire_yes e = rw e refl

      retire_no : withdrawn rows x ≡ false → retire scope rows (table, s) x ≡ (table, s)
      retire_no e = rw e refl

  find-select-none :
      (k : String) (table : List (Row Attrs))
      → find (named k) (select (in_scope scope) table) ≡ none
      → All (λ (r : Row Attrs). hit scope k r ≡ false) table
  find-select-none k [] h = tt
  find-select-none k (r ∷ table) h = (ground arith, find-select-none k table (ground arith))

  pub Absent-start :
      (table : List (Row Attrs)) (rows : Dict Attrs)
      → All (Absent scope (select (in_scope scope) table) table) rows
  Absent-start table [] = tt
  Absent-start table ((k, a) ∷ rest) =
      ((λ m. find-select-none k table (ground arith)), Absent-start table rest)

  pub any-select :
      (table : List (Row Attrs))
      → All
          (λ (r : Row Attrs).
            (test : Row Attrs → Bool)
            → in_scope scope r ≡ true
            → test r ≡ true
            → any test (select (in_scope scope) table) ≡ true)
          table
  any-select [] = tt
  any-select (r ∷ table) = (
    (λ test s t. rw (s, t) refl),
    All-map_left
        (λ (x : Row Attrs).
          (test : Row Attrs → Bool)
          → in_scope scope x ≡ true
          → test x ≡ true
          → any test (select (in_scope scope) table) ≡ true)
        (λ x.
          (test : Row Attrs → Bool)
          → in_scope scope x ≡ true
          → test x ≡ true
          → any test (select (in_scope scope) (r ∷ table)) ≡ true)
        table (λ x f test s t. ground (arith, f test s t)) (any-select table),
  )

  -- What the first loop leaves and the second takes off is settled.
  pub drop-write :
      (rows : Dict Attrs) (existing : List (Row Attrs)) (r : Row Attrs)
      → ((test : Row Attrs → Bool)
          → in_scope scope r ≡ true
          → test r ≡ true
          → any test existing ≡ true)
      → drop rows existing (write scope rows r) ≡ settle scope rows r
  drop-write rows existing r there = ground (
    arith,
    obsolete_known rows existing r.id,
    there (λ x. str_eq r.id x.id && withdrawn rows x),
    str_eq_self r.id,
  )

  pub drop-created :
      (rows : Dict Attrs) (es existing : List (Row Attrs)) (some_rows : Dict Attrs)
      → All (λ (p : String × Attrs). has_key p.0 rows ≡ true) some_rows
      → map (drop rows es) (created existing some_rows) ≡ created existing some_rows
  drop-created rows es existing [] h = refl
  drop-created rows es existing ((k, a) ∷ rest) h =
      ground (arith, obsolete_known rows es k h.0, drop-created rows es existing rest h.1)
