-- ===== src/Content/Sync/Pass.antt =====
-- The two loops of `upsert` (backend/src/tradeschool/content/sync.py) as one pass over the table.
use mathlib.Core.List.{foldl}
use tradeschool.Base.{
  ◌+◌, String, ◌≡◌, refl, sym, ap, ◌∙◌, inl, inr, Bool, true, false, not, ◌&&◌, none, some, List,
  [], ◌∷◌, ◌++◌, map, if◌then◌else◌, str_eq_iff, Option-cases, append-nil, find, select, All,
  All-map_left, All-of_map, All-append, All-intro, arith, is_some, contains, contains-cons,
  append_assoc, map-append, Distinct,
}
use tradeschool.Base.Maps.{map_eq, map_comp}
use tradeschool.Base.Dict.{Dict, lookup, keys, lookup-none-contains}
use tradeschool.Content.Sync.Upsert.{
  Row, SyncSummary, in_scope, fresh, named, changed, revise, enter,
}

module _ {Attrs : Type 0} where
  abbrev pub missing : List (Row Attrs) → String × Attrs → Bool
  missing existing (identifier, _) = not (is_some (find (named identifier) existing))

  abbrev pub created : List (Row Attrs) → Dict Attrs → List (Row Attrs)
  created existing rows = map fresh (select (missing existing) rows)

module _ {Attrs : Type 0} (scope : String → Attrs → Bool) where
  -- The row that the first loop leaves, and the one that both leave.
  abbrev pub write : Dict Attrs → Row Attrs → Row Attrs
  write rows r = elim (lookup r.id rows) [
    | none ↦ r
    | some a ↦ if scope r.id r.attrs then record { id = r.id; active = true; attrs = a } else r
  ]

  abbrev pub settle : Dict Attrs → Row Attrs → Row Attrs
  settle rows r =
      if scope r.id r.attrs
      then (elim (lookup r.id rows) [
        | none ↦ record r { active = false }
        | some a ↦ record { id = r.id; active = true; attrs = a }
      ])
      else r

  -- The new rows are rows of the course.
  abbrev pub Belongs : Dict Attrs → Type 0
  Belongs rows = All (λ (p : String × Attrs). scope p.0 p.1 ≡ true) rows

  -- What `upsert` needs of the rows: distinct keys, as in any dictionary, and the course's own.
  pub record IsRowsOf (rows : Dict Attrs) : Type 0 where
    pub distinct : Distinct (keys rows)
    pub belongs : Belongs rows

  abbrev pub hit : String → Row Attrs → Bool
  hit identifier r = in_scope scope r && named identifier r

  abbrev pub Absent : List (Row Attrs) → List (Row Attrs) → String × Attrs → Type 0
  Absent existing table p =
      missing existing p ≡ true → All (λ (r : Row Attrs). hit p.0 r ≡ false) table

  write-revise :
      (k : String) (a : Attrs) (rest : Dict Attrs) (r : Row Attrs)
      → contains k (keys rest) ≡ false
      → scope k a ≡ true
      → write rest (revise scope (k, a) r) ≡ write ((k, a) ∷ rest) r
  unfolding lookup
  write-revise k a rest r h s =
      ground (arith, str_eq_iff r.id k, lookup-none-contains k rest h, ap (λ x. lookup x rest))

  revise_absent :
      (p : String × Attrs) (table : List (Row Attrs))
      → All (λ (r : Row Attrs). hit p.0 r ≡ false) table
      → (rest : Dict Attrs) → map (write rest) table ≡ map (write (p ∷ rest)) table
  unfolding lookup
  revise_absent p table h rest = map_eq (write rest) (write (p ∷ rest)) table (
      All-map_left (λ r. hit p.0 r ≡ false) (λ r. write rest r ≡ write (p ∷ rest) r) table
        (λ r e. ground arith) h)

  Absent-insert :
      (existing table : List (Row Attrs)) (k : String) (a : Attrs) (rest : Dict Attrs)
      → contains k (keys rest) ≡ false
      → All (Absent existing table) rest
      → All (Absent existing (table ++ (fresh (k, a) ∷ []))) rest
  Absent-insert existing table k a [] n h = tt
  Absent-insert existing table k a ((j, b) ∷ rest) n h = (
    (λ m.
        All-append (λ (r : Row Attrs). hit j r ≡ false) table (fresh (k, a) ∷ []) (h.0 m)
          (ground (arith, contains-cons k j (keys rest)), tt)),
    Absent-insert existing table k a rest (ground (arith, contains-cons k j (keys rest))) h.1,
  )

  Absent-revise :
      (existing table : List (Row Attrs)) (k : String) (a : Attrs) (rest : Dict Attrs)
      → contains k (keys rest) ≡ false
      → All (Absent existing table) rest
      → All (Absent existing (map (revise scope (k, a)) table)) rest
  Absent-revise existing table k a [] n h = tt
  Absent-revise existing table k a ((j, b) ∷ rest) n h = (
    (λ m.
        All-of_map (λ (r : Row Attrs). hit j r ≡ false) (revise scope (k, a)) table
          (All-map_left (λ r. hit j r ≡ false) (λ r. hit j (revise scope (k, a) r) ≡ false) table
            (λ r e. ground (arith, contains-cons k j (keys rest), str_eq_iff r.id k)) (h.0 m))),
    Absent-revise existing table k a rest (ground (arith, contains-cons k j (keys rest))) h.1,
  )

  write_nil : (table : List (Row Attrs)) → map (write []) table ≡ table
  unfolding lookup
  write_nil [] = refl
  write_nil (r ∷ table) = ap (◌∷◌ r) (write_nil table)

  -- A row that was just added is not written by what follows.
  write-fresh :
      (k : String) (a : Attrs) (rest : Dict Attrs)
      → contains k (keys rest) ≡ false
      → write rest (fresh (k, a)) ≡ fresh (k, a)
  write-fresh k a rest h = rw (lookup-none-contains k rest h, write) refl

  created-none :
      (existing : List (Row Attrs)) (p : String × Attrs) (rest : Dict Attrs)
      → find (named p.0) existing ≡ none
      → created existing (p ∷ rest) ≡ fresh p ∷ created existing rest
  created-none existing p rest e = ground (arith, e)

  created-some :
      (existing : List (Row Attrs)) (p : String × Attrs) (rest : Dict Attrs) (r : Row Attrs)
      → find (named p.0) existing ≡ some r
      → created existing (p ∷ rest) ≡ created existing rest
  created-some existing p rest r e = ground (arith, e)

  enter_none_pass :
      (existing table : List (Row Attrs)) (k : String) (a : Attrs) (rest : Dict Attrs)
      → contains k (keys rest) ≡ false
      → find (named k) existing ≡ none
      → Absent existing table (k, a)
      → map (write rest) (table ++ (fresh (k, a) ∷ [])) ++ created existing rest
        ≡ map (write ((k, a) ∷ rest)) table ++ created existing ((k, a) ∷ rest)
  enter_none_pass existing table k a rest n e h =
      rw
        (
          created-none existing (k, a) rest e,
          map-append (write rest) table (fresh (k, a) ∷ []),
          write-fresh k a rest n,
          revise_absent (k, a) table (h (ground (arith, e))) rest,
        )
        (append_assoc (map (write ((k, a) ∷ rest)) table) (fresh (k, a) ∷ [])
          (created existing rest))

  enter_some_pass :
      (existing table : List (Row Attrs)) (k : String) (a : Attrs) (rest : Dict Attrs)
      (r : Row Attrs)
      → contains k (keys rest) ≡ false
      → scope k a ≡ true
      → find (named k) existing ≡ some r
      → map (write rest) (map (revise scope (k, a)) table) ++ created existing rest
        ≡ map (write ((k, a) ∷ rest)) table ++ created existing ((k, a) ∷ rest)
  enter_some_pass existing table k a rest r n b e =
      rw
        (
          created-some existing (k, a) rest r e,
          map_comp (write rest) (revise scope (k, a)) table,
          map_eq (λ x. write rest (revise scope (k, a) x)) (write ((k, a) ∷ rest)) table
              (All-intro (λ x. write rest (revise scope (k, a) x) ≡ write ((k, a) ∷ rest) x) table
                (λ x. write-revise k a rest x n b)),
        )
        refl

module _ {Attrs : Type 0} (differs : Attrs → Attrs → Bool) (scope : String → Attrs → Bool) where
  pub enter-none :
      (existing table : List (Row Attrs)) (s : SyncSummary) (p : String × Attrs)
      → find (named p.0) existing ≡ none
      → enter differs scope existing (table, s) p
        ≡ (table ++ (fresh p ∷ []), record s { inserted = s.inserted + 1 })
  unfolding enter
  enter-none existing table s p e = rw (e, enter) refl

  pub enter-some :
      (existing table : List (Row Attrs)) (s : SyncSummary) (p : String × Attrs) (r : Row Attrs)
      → find (named p.0) existing ≡ some r
      → enter differs scope existing (table, s) p ≡ (
        map (revise scope p) table,
        if changed differs scope r p.1 then record s { updated = s.updated + 1 } else s,
      )
  unfolding enter
  enter-some existing table s p r e = rw (e, enter) refl

  pub enter_rows :
      (existing table : List (Row Attrs)) (s : SyncSummary) (rows : Dict Attrs)
      → Distinct (keys rows)
      → Belongs scope rows
      → All (Absent scope existing table) rows
      → (foldl (enter differs scope existing) (table, s) rows).0
        ≡ map (write scope rows) table ++ created existing rows
  enter_rows existing table s [] d b h = sym (append-nil _ ∙ write_nil scope table)
  enter_rows existing table s ((k, a) ∷ rest) d b h =
      elim (Option-cases (find (named k) existing)) [
        | inl e ↦
            rw (enter-none existing table s (k, a) e, foldl)
              (enter_rows existing (table ++ (fresh (k, a) ∷ []))
                  (record s { inserted = s.inserted + 1 }) rest d.1 b.1
                  (Absent-insert scope existing table k a rest d.0 h.1)
                ∙ enter_none_pass scope existing table k a rest d.0 e h.0)
        | inr (r, e) ↦
            rw (enter-some existing table s (k, a) r e, foldl)
              (enter_rows existing (map (revise scope (k, a)) table)
                  (if changed differs scope r a then record s { updated = s.updated + 1 } else s)
                  rest d.1 b.1 (Absent-revise scope existing table k a rest d.0 h.1)
                ∙ enter_some_pass scope existing table k a rest r d.0 b.0 e)
      ]
