-- ===== src/Content/Sync/Steady.antt =====
-- A second start of the server on the same content: `reconcile_catalog` of
-- backend/src/tradeschool/content/sync.py finds nothing to change.
use tradeschool.Base.{
  ℕ, suc, String, ◌≡◌, refl, sym, ap, subst, ◌∙◌, true, false, ◌&&◌, List, [], ◌∷◌, map, arith,
  if◌then◌else◌, str_eq_iff, str_eq_self, select-map_same, contains, contains-cons, Distinct,
  enumerate, All, All-map_left, All-intro, ok, ◌>>=◌, bind_inverse, ok_injective, fold_result,
}
use tradeschool.Content.Registry.{CourseRegistry, slug}
use tradeschool.Content.Sync.Upsert.{Row, SyncSummary, in_scope}
use tradeschool.Content.Sync.Models.{CourseAttrs}
use tradeschool.Base.Counts.{count_if_none}
use tradeschool.Base.Maps.{map_same}
use tradeschool.Content.Sync.Twice.{rows_of, reconcile_synced}
use tradeschool.Content.Sync.Catalog.{
  InSync, InSync-rows, loop-InSync, contains-sort_courses, sort_courses-Distinct,
}
use tradeschool.Content.Sync.{
  Tables, of_course, no_changes, plus, sort_courses, reconcile_next, is_gone, withdraw_courses,
  reconcile_catalog,
}

abbrev put_off : List String → Row CourseAttrs → Row CourseAttrs
put_off slugs row = if is_gone slugs row then record row { active = false } else row

withdraw_courses_other :
    (slugs : List String) (state : Tables × SyncSummary) (k : String)
    → contains k slugs ≡ true
    → rows_of k (withdraw_courses slugs state).0 ≡ rows_of k state.0
unfolding withdraw_courses
withdraw_courses_other slugs (db, total) k h =
    ap (λ rows. record (rows_of k db) { courses = rows })
      (select-map_same (in_scope (of_course k)) (put_off slugs) db.courses (
        All-intro _ db.courses (λ row. (
          ground arith,
          (λ e. ground (arith, h, str_eq_iff row.id k, ap (λ x. contains x slugs))),
        ))))

withdraw_courses_twice :
    (slugs : List String) (state : Tables × SyncSummary) (total : SyncSummary)
    → let db = (withdraw_courses slugs state).0 in withdraw_courses slugs (db, total) ≡ (db, total)
unfolding withdraw_courses
withdraw_courses_twice slugs (db, s) total = ground (
  arith,
  map_same (put_off slugs) (map (put_off slugs) db.courses) (kept db.courses),
  count_if_none (λ (row : Row CourseAttrs). is_gone slugs row && row.active)
      (map (put_off slugs) db.courses) (none_active db.courses),
)
  where
    kept :
        (rows : List (Row CourseAttrs))
        → All (λ row. put_off slugs row ≡ row) (map (put_off slugs) rows)
    kept [] = tt
    kept (row ∷ rows) = (ground arith, kept rows)

    none_active :
        (rows : List (Row CourseAttrs))
        → All
            (λ (row : Row CourseAttrs). (is_gone slugs row && row.active) ≡ false)
            (map (put_off slugs) rows)
    none_active [] = tt
    none_active (row ∷ rows) = (ground arith, none_active rows)

module _ {Config : Type 0} where
  loop_synced :
      (n : ℕ) (rs : List (CourseRegistry Config)) (db : Tables) (total : SyncSummary)
      → All (InSync db) (enumerate n rs)
      → fold_result reconcile_next (db, total) (enumerate n rs) ≡ ok (db, total)
  unfolding reconcile_next
  loop_synced n [] db total h = refl
  loop_synced n (r ∷ rs) db total ((sk, built, synced), h) =
      ap
        (λ z. (z >>= λ (db', s). ok (db', plus total s)) >>= λ state.
          fold_result reconcile_next state (enumerate (suc n) rs))
        (reconcile_synced r.manifest n db sk built synced)
      ∙ (ap (λ t. fold_result reconcile_next (db, t) (enumerate (suc n) rs)) (ground arith)
          ∙ loop_synced (suc n) rs db total h)

  listed :
      (slugs : List String) (n : ℕ) (rs : List (CourseRegistry Config)) (db db' : Tables)
      → All (λ r. contains (slug r) slugs ≡ true) rs
      → ((k : String) → contains k slugs ≡ true → rows_of k db' ≡ rows_of k db)
      → All (InSync db) (enumerate n rs)
      → All (InSync db') (enumerate n rs)
  listed slugs n [] db db' h same s = tt
  listed slugs n (r ∷ rs) db db' h same s = (
    InSync-rows db db' (n, r) (same (slug r) h.0) s.0,
    listed slugs (suc n) rs db db' h.1 same s.1,
  )

  own_slugs :
      (rs : List (CourseRegistry Config)) → All (λ r. contains (slug r) (map slug rs) ≡ true) rs
  own_slugs [] = tt
  own_slugs (r ∷ rs) = (
    ground (arith, contains-cons (slug r) (slug r) (map slug rs), str_eq_self (slug r)),
    All-map_left (λ x. contains (slug x) (map slug rs) ≡ true)
        (λ x. contains (slug x) (map slug (r ∷ rs)) ≡ true) rs
        (λ x e. ground (arith, contains-cons (slug x) (slug r) (map slug rs))) (own_slugs rs),
  )

  -- `reconcile_catalog` run again on what it left, with the same courses (of distinct slugs), changes
  -- no row and counts no change.
  pub reconcile_catalog_twice :
      (courses : List (CourseRegistry Config)) (db db' : Tables) (s : SyncSummary)
      → Distinct (map slug courses)
      → reconcile_catalog courses db ≡ ok (db', s)
      → reconcile_catalog courses db' ≡ ok (db', no_changes)
  unfolding reconcile_catalog
  reconcile_catalog_twice courses db db' s d h =
      let sorted = sort_courses courses in
      let slugs = map slug courses in
      let (done, last, loop) =
        bind_inverse (λ done. ok (withdraw_courses slugs done))
          (fold_result reconcile_next (db, no_changes) (enumerate 1 sorted)) h in
      let left : (withdraw_courses slugs done).0 ≡ db' =
        ap (λ (z : Tables × SyncSummary). z.0) (ok_injective last) in
      let synced =
        subst (λ z. All (InSync z) (enumerate 1 sorted)) left
          (listed slugs 1 sorted done.0 (withdraw_courses slugs done).0
            (All-map_left (λ r. contains (slug r) (map slug sorted) ≡ true)
              (λ r. contains (slug r) slugs ≡ true) sorted
              (λ r e. sym (contains-sort_courses (slug r) courses) ∙ e) (own_slugs sorted))
            (withdraw_courses_other slugs done)
            (loop-InSync 1 sorted (db, no_changes) done (sort_courses-Distinct courses d) loop)) in
      ap (λ z. z >>= λ done'. ok (withdraw_courses slugs done'))
        (loop_synced 1 sorted db' no_changes synced)
      ∙ ap ok (
          subst (λ z. withdraw_courses slugs (z, no_changes) ≡ (z, no_changes)) left
            (withdraw_courses_twice slugs done no_changes))
