-- ===== src/Content/Sync/Again.antt =====
-- What a table is after `upsert` (backend/src/tradeschool/content/sync.py), and what a second run and
-- the rows of another course see of it.
use tradeschool.Base.{
  String, ◌≡◌, refl, ap, inl, inr, Bool, true, none, some, List, [], ◌∷◌, map, str_eq_iff,
  str_eq_self, find, select, All, All-map_left, Option-cases, arith, contains, Distinct,
}
use tradeschool.Base.Dict.{Dict, lookup, keys, lookup-some-contains}
use tradeschool.Content.Sync.Upsert.{Row, in_scope, fresh, named}
use tradeschool.Content.Sync.Pass.{settle, created, Belongs}

-- Each pair of a dictionary with distinct keys is found under its key.
pub lookup-own :
    {V : Type 0} (rows : Dict V)
    → Distinct (keys rows)
    → All (λ (p : String × V). lookup p.0 rows ≡ some p.1) rows
unfolding lookup
lookup-own {V} [] d = tt
lookup-own {V} ((k, a) ∷ rest) d = (
  ground (arith, str_eq_self k),
  All-map_left (λ (p : String × V). lookup p.0 rest ≡ some p.1)
      (λ p. lookup p.0 ((k, a) ∷ rest) ≡ some p.1) rest
      (λ p e. ground (
        arith,
        str_eq_iff p.0 k,
        lookup-some-contains p.0 rest p.1 e,
        ap (λ x. contains x (keys rest)),
        d.0,
      ))
      (lookup-own rest d.1),
)

module _ {Attrs : Type 0} (scope : String → Attrs → Bool) where
  pub lookup-Belongs :
      (rows : Dict Attrs) (k : String) (a : Attrs)
      → Belongs scope rows
      → lookup k rows ≡ some a
      → scope k a ≡ true
  unfolding lookup
  lookup-Belongs [] k a b h = cc
  lookup-Belongs ((j, v) ∷ rest) k a b h =
      ground (arith, str_eq_iff k j, b.0, lookup-Belongs rest k a b.1, ap (λ x. scope x a))

  pub settle_scope :
      (rows : Dict Attrs) (r : Row Attrs)
      → Belongs scope rows
      → in_scope scope (settle scope rows r) ≡ in_scope scope r
  settle_scope rows r b = elim (Option-cases (lookup r.id rows)) [
    | inl e ↦ ground (arith, e)
    | inr (a, e) ↦ ground (arith, e, lookup-Belongs rows r.id a b e)
  ]

  pub select-settle :
      (rows : Dict Attrs) (table : List (Row Attrs))
      → Belongs scope rows
      → select (in_scope scope) (map (settle scope rows) table)
        ≡ map (settle scope rows) (select (in_scope scope) table)
  select-settle rows [] b = refl
  select-settle rows (r ∷ table) b =
      ground (arith, settle_scope rows r b, select-settle rows table b)

  pub select-created :
      (existing : List (Row Attrs)) (rows : Dict Attrs)
      → Belongs scope rows
      → select (in_scope scope) (created existing rows) ≡ created existing rows
  select-created existing [] b = refl
  select-created existing ((k, a) ∷ rest) b = ground (arith, b.0, select-created existing rest b.1)

  pub find-created :
      (existing : List (Row Attrs)) (rows : Dict Attrs) (k : String)
      → find (named k) existing ≡ none
      → find (named k) (created existing rows)
        ≡ (elim (lookup k rows) [ none ↦ none | some a ↦ some (fresh (k, a)) ])
  unfolding lookup
  find-created existing [] k h = refl
  find-created existing ((j, v) ∷ rest) k h = ground (
    arith,
    str_eq_iff k j,
    str_eq_iff j k,
    find-created existing rest k h,
    ap (λ x. find (named x) existing),
  )

  pub find-settle :
      (rows : Dict Attrs) (k : String) (table : List (Row Attrs))
      → find (named k) (map (settle scope rows) table)
        ≡ (elim (find (named k) table) [ none ↦ none | some r ↦ some (settle scope rows r) ])
  find-settle rows k [] = refl
  find-settle rows k (r ∷ table) = ground (arith, find-settle rows k table)

  -- The rows of the course are those of the manifest, active and with its attributes; any other of
  -- its rows is inactive.
  abbrev pub IsSettled : Dict Attrs → List (Row Attrs) → Type 0
  IsSettled rows existing =
      All (λ (p : String × Attrs). find (named p.0) existing ≡ some (fresh p)) rows
      × All (λ (r : Row Attrs). settle scope rows r ≡ r) existing
