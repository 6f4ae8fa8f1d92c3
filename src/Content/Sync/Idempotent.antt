-- ===== src/Content/Sync/Idempotent.antt =====
-- One table under `upsert` (backend/src/tradeschool/content/sync.py): settled after one run, the same
-- after a second, and unseen by any other course.
use tradeschool.Base.{
  String, ◌≡◌, refl, ap, ◌∙◌, inl, inr, Bool, true, false, some, List, [], ◌∷◌, ◌++◌, map,
  str_eq_iff, find, select, select-append, All, All-map_left, All-append, All-of_map, All-intro,
  Bool-cases, Option-cases, arith, count_if, Distinct, append-nil, find_holds,
}
use tradeschool.Base.Dict.{Dict, lookup, keys}
use tradeschool.Content.Sync.Upsert.{Row, SyncSummary, in_scope, fresh, named, withdrawn, upsert}
use tradeschool.Base.Maps.{map_same}
use tradeschool.Content.Sync.Pass.{settle, missing, created, Belongs, IsRowsOf}
use tradeschool.Content.Sync.Settle.{stale, upsert-eq-pass}
use tradeschool.Base.Counts.{count_if_none, find_All, All-select, All-select_self, find-append}
use tradeschool.Content.Sync.Again.{
  lookup-own, lookup-Belongs, select-settle, select-created, find-created, find-settle, IsSettled,
}

module _ {Attrs : Type 0} (scope : String → Attrs → Bool) where
  -- The rows of the course after one pass.
  existing_after :
      (rows : Dict Attrs) (table : List (Row Attrs))
      → Belongs scope rows
      → let existing = select (in_scope scope) table in
        select (in_scope scope) (map (settle scope rows) table ++ created existing rows)
        ≡ map (settle scope rows) existing ++ created existing rows
  existing_after rows table b =
      let existing = select (in_scope scope) table in
      rw
        (
          select-append (in_scope scope) (map (settle scope rows) table) (created existing rows),
          select-settle scope rows table b,
          select-created scope existing rows b,
        )
        refl

  found_after :
      (rows : Dict Attrs) (existing : List (Row Attrs)) (k : String) (a : Attrs)
      → All (λ r. in_scope scope r ≡ true) existing
      → lookup k rows ≡ some a
      → find (named k) (map (settle scope rows) existing ++ created existing rows)
        ≡ some (fresh (k, a))
  found_after rows existing k a inside e = elim (Option-cases (find (named k) existing)) [
    | inl m ↦ ground (
      arith,
      find-append (named k) (map (settle scope rows) existing) (created existing rows),
      find-settle scope rows k existing,
      find-created scope existing rows k m,
    )
    | inr (r, m) ↦ ground (
      arith,
      find-append (named k) (map (settle scope rows) existing) (created existing rows),
      find-settle scope rows k existing,
      find_All (λ r. in_scope scope r ≡ true) (named k) existing r inside m,
      find_holds (named k) existing r m,
      str_eq_iff r.id k,
      ap (λ x. lookup x rows),
    )
  ]

  settle-settle :
      (rows : Dict Attrs) (r : Row Attrs)
      → Belongs scope rows
      → settle scope rows (settle scope rows r) ≡ settle scope rows r
  settle-settle rows r b = elim (Option-cases (lookup r.id rows)) [
    | inl e ↦ ground (arith, e)
    | inr (a, e) ↦ ground (arith, e, lookup-Belongs scope rows r.id a b e)
  ]

  settle-created :
      (all_rows rows : Dict Attrs) (existing : List (Row Attrs))
      → All (λ (p : String × Attrs). lookup p.0 all_rows ≡ some p.1) rows
      → All (λ r. settle scope all_rows r ≡ r) (created existing rows)
  settle-created all_rows [] existing h = tt
  settle-created all_rows ((k, a) ∷ rest) existing h =
      let ih = settle-created all_rows rest existing h.1 in
      elim (Bool-cases (missing existing (k, a))) [
        | inl m ↦ ground (arith, h.0, m)
        | inr m ↦ ground (arith, m)
      ]

  -- One pass settles the course.
  pub pass-IsSettled :
      (rows : Dict Attrs) (table : List (Row Attrs))
      → Distinct (keys rows)
      → Belongs scope rows
      → let existing = select (in_scope scope) table in
        IsSettled scope rows
          (select (in_scope scope) (map (settle scope rows) table ++ created existing rows))
  pass-IsSettled rows table d b =
      let existing = select (in_scope scope) table in
      rw (existing_after rows table b) (
        All-map_left (λ (p : String × Attrs). lookup p.0 rows ≡ some p.1)
            (λ p.
              find (named p.0) (map (settle scope rows) existing ++ created existing rows)
              ≡ some (fresh p))
            rows
            (λ p e. found_after rows existing p.0 p.1 (All-select_self (in_scope scope) table) e)
            (lookup-own rows d),
        All-append (λ r. settle scope rows r ≡ r) (map (settle scope rows) existing)
            (created existing rows)
            (All-of_map (λ r. settle scope rows r ≡ r) (settle scope rows) existing
              (All-intro (λ r. settle scope rows (settle scope rows r) ≡ settle scope rows r)
                existing (λ r. settle-settle rows r b)))
            (settle-created rows rows existing (lookup-own rows d)),
      )

  settled_same :
      (rows : Dict Attrs) (table : List (Row Attrs))
      → IsSettled scope rows (select (in_scope scope) table)
      → map (settle scope rows) table ≡ table
  settled_same rows table h = map_same (settle scope rows) table (
      All-map_left (λ r. in_scope scope r ≡ true → settle scope rows r ≡ r)
        (λ r. settle scope rows r ≡ r) table (λ r f. ground (arith, f))
        (All-select (λ r. settle scope rows r ≡ r) (in_scope scope) table h.1))

  none_created :
      (rows : Dict Attrs) (existing : List (Row Attrs))
      → All (λ (p : String × Attrs). find (named p.0) existing ≡ some (fresh p)) rows
      → created existing rows ≡ []
  none_created [] existing h = refl
  none_created (p ∷ rows) existing h = ground (arith, h.0, none_created rows existing h.1)

  none_withdrawn :
      (rows : Dict Attrs) (table : List (Row Attrs))
      → IsSettled scope rows (select (in_scope scope) table)
      → count_if (withdrawn rows) (select (in_scope scope) table) ≡ 0
  none_withdrawn rows table h = count_if_none (withdrawn rows) (select (in_scope scope) table) (
      All-map_left (λ (r : Row Attrs). (in_scope scope r ≡ true) × (settle scope rows r ≡ r))
        (λ r. withdrawn rows r ≡ false) (select (in_scope scope) table)
        (λ r e. ground (arith, e.0, ap (λ (x : Row Attrs). x.active) e.1))
        (both (select (in_scope scope) table) (All-select_self (in_scope scope) table) h.1))
    where
      both :
          (es : List (Row Attrs))
          → All (λ r. in_scope scope r ≡ true) es
          → All (λ r. settle scope rows r ≡ r) es
          → All (λ (r : Row Attrs). (in_scope scope r ≡ true) × (settle scope rows r ≡ r)) es
      both [] a b = tt
      both (x ∷ es) a b = ((a.0, b.0), both es a.1 b.1)

module _ {Attrs : Type 0} (differs : Attrs → Attrs → Bool) (scope : String → Attrs → Bool)
    (differs_self : (a : Attrs) → differs a a ≡ false) where
  none_stale :
      (rows : Dict Attrs) (existing : List (Row Attrs))
      → All (λ (p : String × Attrs). find (named p.0) existing ≡ some (fresh p)) rows
      → All (λ p. stale differs scope existing p ≡ false) rows
  none_stale [] existing h = tt
  none_stale (p ∷ rows) existing h =
      (ground (arith, h.0, differs_self p.1), none_stale rows existing h.1)

  none_missing :
      (rows : Dict Attrs) (existing : List (Row Attrs))
      → All (λ (p : String × Attrs). find (named p.0) existing ≡ some (fresh p)) rows
      → All (λ p. missing existing p ≡ false) rows
  none_missing [] existing h = tt
  none_missing (p ∷ rows) existing h = (ground (arith, h.0), none_missing rows existing h.1)

  -- On a settled course `upsert` changes no row and counts nothing.
  pub upsert_settled :
      (rows : Dict Attrs) (table : List (Row Attrs)) (s : SyncSummary)
      → IsRowsOf scope rows
      → IsSettled scope rows (select (in_scope scope) table)
      → upsert differs scope rows (table, s) ≡ (table, s)
  upsert_settled rows table s good h =
      let existing = select (in_scope scope) table in
      upsert-eq-pass differs scope rows table s good
      ∙ ground (
        arith,
        settled_same scope rows table h,
        none_created scope rows existing h.0,
        append-nil table,
        count_if_none (missing existing) rows (none_missing rows existing h.0),
        count_if_none (stale differs scope existing) rows (none_stale rows existing h.0),
        none_withdrawn scope rows table h,
      )

  -- `upsert` settles its course.
  pub upsert-IsSettled :
      (rows : Dict Attrs) (table : List (Row Attrs)) (s : SyncSummary)
      → IsRowsOf scope rows
      → IsSettled scope rows (select (in_scope scope) (upsert differs scope rows (table, s)).0)
  upsert-IsSettled rows table s good =
      rw (upsert-eq-pass differs scope rows table s good)
        (pass-IsSettled scope rows table good.distinct good.belongs)

-- The rows of another course: none that `scope` takes is one that `other` takes.
module _ {Attrs : Type 0} (scope other : String → Attrs → Bool)
    (apart : (k : String) (a : Attrs) → scope k a ≡ true → other k a ≡ false) where
  other-settle :
      (rows : Dict Attrs) (table : List (Row Attrs))
      → Belongs scope rows
      → select (in_scope other) (map (settle scope rows) table) ≡ select (in_scope other) table
  other-settle rows [] b = refl
  other-settle rows (r ∷ table) b =
      let ih = other-settle rows table b in
      elim (Option-cases (lookup r.id rows)) [
        | inl e ↦ ground (arith, e, apart r.id r.attrs)
        | inr (a, e) ↦
            ground
              (arith, e, apart r.id r.attrs, apart r.id a (lookup-Belongs scope rows r.id a b e))
      ]

  other-created :
      (existing : List (Row Attrs)) (rows : Dict Attrs)
      → Belongs scope rows
      → select (in_scope other) (created existing rows) ≡ []
  other-created existing [] b = refl
  other-created existing ((k, a) ∷ rest) b =
      ground (arith, apart k a b.0, other-created existing rest b.1)

  -- `upsert` of one course leaves every row of another as it was.
  pub upsert_other :
      (differs : Attrs → Attrs → Bool) (rows : Dict Attrs) (table : List (Row Attrs))
      (s : SyncSummary)
      → IsRowsOf scope rows
      → select (in_scope other) (upsert differs scope rows (table, s)).0
        ≡ select (in_scope other) table
  upsert_other differs rows table s good =
      let existing = select (in_scope scope) table in
      rw
        (
          upsert-eq-pass differs scope rows table s good,
          select-append (in_scope other) (map (settle scope rows) table) (created existing rows),
          other-settle rows table good.belongs,
          other-created existing rows good.belongs,
        )
        (append-nil (select (in_scope other) table))
