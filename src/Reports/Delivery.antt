-- ===== src/Reports/Delivery.antt =====
-- `deliver_pending` of backend/src/tradeschool/reports/service.py tries every report that was not mailed once.
use mathlib.Core.List.{foldl}
use tradeschool.Base.{
  ℕ, ◌+◌, ◌≤◌, ◌<◌, ◌≡◌, refl, sym, ap, subst, ◌∙◌, Bool, true, false, not, ◌&&◌, none, some, List,
  [], ◌∷◌, map, All, All-map_left, All-intro, find, find_holds, find-none-All, select, count_if,
  arith, Bool-cases, Option-cases, inl, inr, ◌==◌, if◌then◌else◌,
}
use tradeschool.Base.Counts.{count_if-map_eq, count_if-select_le, find_only, find_marked}
use tradeschool.Base.Maps.{map_eq, map_same, map_comp}
use tradeschool.Base.Sort.{sort_by, count_if-sort_by}
use tradeschool.Reports.Filing.{
  QuestionReport, is_pending, tried, put_report, deliver_one, pending_ids, deliver_pending,
}

abbrev is_report : ℕ → QuestionReport → Bool
is_report i r = r.id == i

abbrev pub HasSingleIds : List QuestionReport → Type 0
HasSingleIds reports = (i : ℕ) → count_if (λ (r : QuestionReport). r.id == i) reports ≤ 1

module _ (accepts : QuestionReport → Bool) (now : ℕ) where
  -- Each report that waits is tried: mailed if the server accepts it, and counted as an attempt.
  abbrev pub tried_once : QuestionReport → QuestionReport
  tried_once r = if is_pending r then tried (accepts r) now r else r

  abbrev is_due : List ℕ → QuestionReport → Bool
  is_due ids r = not (count_if (λ i. r.id == i) ids == 0) && is_pending r

  abbrev due : List ℕ → QuestionReport → QuestionReport
  due ids r = if is_due ids r then tried (accepts r) now r else r

  round_none :
      (i : ℕ) (ids : List ℕ) (reports : List QuestionReport)
      → find (λ (r : QuestionReport). r.id == i && is_pending r) reports ≡ none
      → All (λ r. due ids r ≡ due (i ∷ ids) r) reports
  round_none i ids reports h =
      All-map_left (λ (r : QuestionReport). (r.id == i && is_pending r) ≡ false)
        (λ r. due ids r ≡ due (i ∷ ids) r) reports (λ r n. ground (arith, n))
        (find-none-All (λ (r : QuestionReport). r.id == i && is_pending r) reports h)

  round_some :
      (i : ℕ) (ids : List ℕ) (reports : List QuestionReport) (r : QuestionReport)
      → count_if (λ j. i == j) ids ≡ 0
      → HasSingleIds reports
      → find (λ (x : QuestionReport). x.id == i && is_pending x) reports ≡ some r
      → All (λ x. due ids (put_report (tried (accepts r) now r) x) ≡ due (i ∷ ids) x) reports
  round_some i ids reports r new single h =
      let waits = λ (x : QuestionReport). x.id == i && is_pending x in
      let passed : (r.id == i && is_pending r) ≡ true = find_holds waits reports r h in
      let same : r.id ≡ i = ground (arith, passed) in
      All-map_left (λ (x : QuestionReport). is_report i x ≡ true → x ≡ r)
        (λ x. due ids (put_report (tried (accepts r) now r) x) ≡ due (i ∷ ids) x) reports
        (λ x only. elim (Bool-cases (is_report i x)) [
          | inl e ↦
              subst (λ y. due ids (put_report (tried (accepts r) now r) y) ≡ due (i ∷ ids) y)
                (sym (only e))
                (ground (arith, passed, new, ap (λ k. count_if (λ j. k == j) ids) same))
          | inr e ↦ ground (arith, e, same)
        ])
        (find_only (is_report i) reports r (single i)
          (find_marked waits (is_report i) reports r h (ground (arith, passed)) (single i)))

  round_HasSingleIds :
      (changed : QuestionReport) (reports : List QuestionReport)
      → HasSingleIds reports
      → HasSingleIds (map (put_report changed) reports)
  round_HasSingleIds changed reports single i = omega (
    arith,
    single i,
    count_if-map_eq (is_report i) (put_report changed) reports (λ r. ground arith),
  )

  -- One round tries the report of that id, if it waits.
  round_due :
      (i : ℕ) (ids : List ℕ) (reports : List QuestionReport)
      → count_if (λ j. i == j) ids ≡ 0
      → HasSingleIds reports
      → (delivered : ℕ)
      → (reports' : List QuestionReport) × (delivered' : ℕ) × (deliver_one accepts now
            (reports, delivered)
            i
          ≡ (reports', delivered'))
        × HasSingleIds reports'
        × (map (due ids) reports' ≡ map (due (i ∷ ids)) reports)
  unfolding deliver_one
  round_due i ids reports new single delivered =
      elim (Option-cases (find (λ (x : QuestionReport). x.id == i && is_pending x) reports)) [
        | inl e ↦ (
          reports,
          delivered,
          ground (arith, e),
          single,
          map_eq (due ids) (due (i ∷ ids)) reports (round_none i ids reports e),
        )
        | inr (r, e) ↦
            let changed = tried (accepts r) now r in
            (
              map (put_report changed) reports,
              if accepts r then delivered + 1 else delivered,
              ground (arith, e),
              round_HasSingleIds changed reports single,
              map_comp (due ids) (put_report changed) reports
                  ∙ map_eq (λ x. due ids (put_report changed x)) (due (i ∷ ids)) reports
                      (round_some i ids reports r new single e),
            )
      ]

  rounds_due :
      (ids : List ℕ) (reports : List QuestionReport) (delivered : ℕ)
      → ((i : ℕ) → count_if (λ j. i == j) ids ≤ 1)
      → HasSingleIds reports
      → (foldl (deliver_one accepts now) (reports, delivered) ids).0 ≡ map (due ids) reports
  rounds_due [] reports delivered once single =
      sym (map_same (due []) reports (All-intro (λ r. due [] r ≡ r) reports (λ r. ground arith)))
  rounds_due (i ∷ ids) reports delivered once single =
      let new : count_if (λ j. i == j) ids ≡ 0 = ground (arith, once i) in
      let (reports', delivered', e, single', same) = round_due i ids reports new single delivered in
      ap (λ z. (foldl (deliver_one accepts now) z ids).0) e
      ∙ (rounds_due ids reports' delivered' (λ k. ground (arith, once k)) single' ∙ same)

  count_ids :
      (i : ℕ) (reports : List QuestionReport)
      → count_if (λ j. i == j) (map (λ (r : QuestionReport). r.id) reports)
        ≡ count_if (λ (r : QuestionReport). r.id == i) reports
  count_ids i [] = refl
  count_ids i (r ∷ reports) = ground (arith, count_ids i reports)

  count_pending_ids :
      (i : ℕ) (reports : List QuestionReport)
      → count_if (λ j. i == j) (pending_ids reports)
        ≡ count_if (λ (r : QuestionReport). r.id == i) (select is_pending reports)
  count_pending_ids i reports =
      count_ids i (sort_by (λ (r : QuestionReport). r.created_at) (select is_pending reports))
      ∙ count_if-sort_by (λ (r : QuestionReport). r.created_at) (λ (r : QuestionReport). r.id == i)
          (select is_pending reports)

  -- A report that waits is among those to be tried.
  waiting_counted :
      (reports : List QuestionReport)
      → All
          (λ (r : QuestionReport).
            is_pending r ≡ true
            → 0 < count_if (λ (x : QuestionReport). x.id == r.id) (select is_pending reports))
          reports
  waiting_counted [] = tt
  waiting_counted (r ∷ reports) = (
    (λ p. ground (arith, p)),
    All-map_left
        (λ (x : QuestionReport).
          is_pending x ≡ true
          → 0 < count_if (λ (y : QuestionReport). y.id == x.id) (select is_pending reports))
        (λ x.
          is_pending x ≡ true
          → 0 < count_if (λ (y : QuestionReport). y.id == x.id) (select is_pending (r ∷ reports)))
        reports (λ x f p. ground (arith, f p)) (waiting_counted reports),
  )

  -- When the mailer is ready, `deliver_pending` tries every report that waits exactly once, whatever the
  -- server answers: it is mailed if the server accepts it and waits on if not, its attempts grow by one,
  -- and every other report stays as it was; for reports of distinct ids.
  pub deliver_pending-tried_once :
      (reports : List QuestionReport)
      → HasSingleIds reports
      → (deliver_pending true accepts now reports).0 ≡ map tried_once reports
  unfolding deliver_pending
  deliver_pending-tried_once reports single =
      rounds_due (pending_ids reports) reports 0
        (λ i. omega (
          arith,
          count_pending_ids i reports,
          count_if-select_le (λ (r : QuestionReport). r.id == i) is_pending reports,
          single i,
        ))
        single
      ∙ map_eq (due (pending_ids reports)) tried_once reports (
          All-map_left
            (λ (r : QuestionReport).
              is_pending r ≡ true
              → 0 < count_if (λ (x : QuestionReport). x.id == r.id) (select is_pending reports))
            (λ r. due (pending_ids reports) r ≡ tried_once r) reports
            (λ r f. elim (Bool-cases (is_pending r)) [
              | inl p ↦ ground (arith, p, f p, count_pending_ids r.id reports)
              | inr p ↦ ground (arith, p)
            ])
            (waiting_counted reports))
