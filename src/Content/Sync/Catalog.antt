-- ===== src/Content/Sync/Catalog.antt =====
-- `reconcile_catalog` of backend/src/tradeschool/content/sync.py: every course in turn, and those that
-- left the catalogue.
use tradeschool.Base.{
  ℕ, suc, String, ◌≡◌, refl, sym, ap, subst, ◌∙◌, inl, inr, false, ◌||◌, List, [], ◌∷◌, map, arith,
  str_eq, str_eq_iff, text_le, contains, contains-cons, Distinct, enumerate, All, ok, bind_inverse,
  ok_injective, fold_result, Bool-cases,
}
use tradeschool.Content.Registry.{CourseRegistry, slug}
use tradeschool.Content.Sync.Upsert.{SyncSummary}
use tradeschool.Content.Sync.Models.{Skeleton, skeleton}
use tradeschool.Content.Sync.Twice.{rows_of, IsSynced, reconcile_settles, reconcile_other}
use tradeschool.Content.Sync.{Tables, reconcile, plus, insert_course, sort_courses, reconcile_next}

module _ {Config : Type 0} where
  contains-insert_course :
      (k : String) (r : CourseRegistry Config) (rs : List (CourseRegistry Config))
      → contains k (map slug (insert_course r rs)) ≡ (str_eq k (slug r) || contains k (map slug rs))
  unfolding insert_course
  contains-insert_course k r [] = contains-cons k (slug r) []
  contains-insert_course k r (x ∷ rs) = ground (
    arith,
    contains-cons k (slug r) (slug x ∷ map slug rs),
    contains-cons k (slug x) (map slug rs),
    contains-cons k (slug x) (map slug (insert_course r rs)),
    contains-insert_course k r rs,
  )

  insert_course-Distinct :
      (r : CourseRegistry Config) (rs : List (CourseRegistry Config))
      → contains (slug r) (map slug rs) ≡ false
      → Distinct (map slug rs)
      → Distinct (map slug (insert_course r rs))
  unfolding insert_course
  insert_course-Distinct r [] n d = (n, tt)
  insert_course-Distinct r (x ∷ rs) n d = elim (Bool-cases (text_le (slug r) (slug x))) [
    | inl e ↦ rw e (n, d)
    | inr e ↦ rw e (
      ground (
        arith,
        contains-insert_course (slug x) r rs,
        contains-cons (slug r) (slug x) (map slug rs),
        str_eq_iff (slug x) (slug r),
        str_eq_iff (slug r) (slug x),
      ),
      insert_course-Distinct r rs (ground (arith, contains-cons (slug r) (slug x) (map slug rs)))
          d.1,
    )
  ]

  pub contains-sort_courses :
      (k : String) (rs : List (CourseRegistry Config))
      → contains k (map slug (sort_courses rs)) ≡ contains k (map slug rs)
  unfolding sort_courses
  contains-sort_courses k [] = refl
  contains-sort_courses k (r ∷ rs) =
      contains-insert_course k r (sort_courses rs)
      ∙ rw (contains-sort_courses k rs) (sym (contains-cons k (slug r) (map slug rs)))

  pub sort_courses-Distinct :
      (rs : List (CourseRegistry Config))
      → Distinct (map slug rs)
      → Distinct (map slug (sort_courses rs))
  unfolding sort_courses
  sort_courses-Distinct [] d = tt
  sort_courses-Distinct (r ∷ rs) d =
      insert_course-Distinct r (sort_courses rs) (contains-sort_courses (slug r) rs ∙ d.0)
        (sort_courses-Distinct rs d.1)

  -- The course at that place of the sorted catalogue has its rows in the tables.
  abbrev pub InSync : Tables → ℕ × CourseRegistry Config → Type 0
  InSync db (index, r) =
      (sk : Skeleton) × (skeleton r.manifest index ≡ ok sk)
      × IsSynced (slug r) sk (rows_of (slug r) db)

  pub InSync-rows :
      (db db' : Tables) (p : ℕ × CourseRegistry Config)
      → rows_of (slug p.1) db' ≡ rows_of (slug p.1) db
      → InSync db p
      → InSync db' p
  InSync-rows db db' (index, r) e (sk, built, synced) =
      (sk, built, subst (IsSynced (slug r) sk) (sym e) synced)

  next_applies :
      (db : Tables) (total : SyncSummary) (p : ℕ × CourseRegistry Config)
      (done : Tables × SyncSummary)
      → reconcile_next (db, total) p ≡ ok done
      → (s : SyncSummary) × (reconcile p.1.manifest p.0 db ≡ ok (done.0, s))
  unfolding reconcile_next
  next_applies db total (index, r) done h =
      let ((db', s), last, first) =
        bind_inverse (λ (db', s). ok (db', plus total s)) (reconcile r.manifest index db) h in
      (s, first ∙ ap (λ (z : Tables × SyncSummary). ok (z.0, s)) (ok_injective last))

  -- The loop leaves the rows of courses that it does not visit.
  pub loop_other :
      (n : ℕ) (rs : List (CourseRegistry Config)) (state done : Tables × SyncSummary) (k : String)
      → contains k (map slug rs) ≡ false
      → fold_result reconcile_next state (enumerate n rs) ≡ ok done
      → rows_of k done.0 ≡ rows_of k state.0
  loop_other n [] state done k h e =
      ap (λ (z : Tables × SyncSummary). rows_of k z.0) (sym (ok_injective e))
  loop_other n (r ∷ rs) (db, total) done k h e =
      let ((db1, total1), rest, first) =
        bind_inverse (λ z. fold_result reconcile_next z (enumerate (suc n) rs))
          (reconcile_next (db, total) (n, r)) e in
      let (s, applied) = next_applies db total (n, r) (db1, total1) first in
      loop_other (suc n) rs (db1, total1) done k
        (ground (arith, h, contains-cons k (slug r) (map slug rs))) rest
      ∙ reconcile_other r.manifest n db db1 s k applied
          (λ q. ground (arith, h, contains-cons k (slug r) (map slug rs), str_eq_iff k (slug r)))

  -- After the loop every course that it visited is in sync.
  pub loop-InSync :
      (n : ℕ) (rs : List (CourseRegistry Config)) (state done : Tables × SyncSummary)
      → Distinct (map slug rs)
      → fold_result reconcile_next state (enumerate n rs) ≡ ok done
      → All (InSync done.0) (enumerate n rs)
  loop-InSync n [] state done d e = tt
  loop-InSync n (r ∷ rs) (db, total) done d e =
      let ((db1, total1), rest, first) =
        bind_inverse (λ z. fold_result reconcile_next z (enumerate (suc n) rs))
          (reconcile_next (db, total) (n, r)) e in
      let (s, applied) = next_applies db total (n, r) (db1, total1) first in
      (
        InSync-rows db1 done.0 (n, r) (loop_other (suc n) rs (db1, total1) done (slug r) d.0 rest)
            (reconcile_settles r.manifest n db db1 s applied),
        loop-InSync (suc n) rs (db1, total1) done d.1 rest,
      )
