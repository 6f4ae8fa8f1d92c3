-- ===== src/Stats/Review.antt =====
-- backend/src/tradeschool/stats/service.py, `me_stats`: the numbers of a module, its exercises and the course.
use tradeschool.Base.{
  ℕ, suc, ◌+◌, ◌≤◌, String, ◌≡◌, refl, subst, Option, some, List, [], ◌∷◌, ◌++◌, arith, All,
  All-append, sum_by, Option-cases, inl, inr, ok, Result-cases, bind_inverse, ok_injective, length,
}
use tradeschool.Base.Dict.{Dict, lookup}
use tradeschool.Content.Schema.{Block, CourseModule, get_text, iter_modules}
use tradeschool.Content.Registry.{
  CourseRegistry, slug, exercise_key, module_exercise_ids, module_lesson_ids,
}
use tradeschool.Exercises.Generator.{Platform}
use tradeschool.Store.{Db}
use tradeschool.Stats.{ExerciseRoll, empty_agg, roll_by_exercise, answered_attempts}
use tradeschool.Stats.Rolls.{roll_by_exercise-le}
use tradeschool.Stats.Rows.{Review, ModuleRow, Page, Drill, MeStats, empty_page}
use tradeschool.Stats.Me.{
  review_of, drill_roll, drill, page, me_stats, me_page, published_module, count_where, is_done,
  is_passed, module_row,
}

sum_by-append :
    {A : Type 0} (f : A → ℕ) (xs ys : List A) → sum_by f (xs ++ ys) ≡ sum_by f xs + sum_by f ys
sum_by-append f [] ys = omega arith
sum_by-append f (x ∷ xs) ys = omega (arith, sum_by-append f xs ys)

-- The wrong answers of the list are those of the sums.
abbrev pub IsReconciled : ModuleRow → Type 0
IsReconciled row = sum_by (λ (r : Review). r.incorrect) row.to_review + row.correct ≡ row.answered

abbrev IsDrilled : Drill → Type 0
IsDrilled d = sum_by (λ (r : Review). r.incorrect) d.to_review + d.agg.correct ≡ d.agg.answered

module _ {Config : Type 0} (platform : Platform Config) (registry : CourseRegistry Config)
    (rolls : Dict ExerciseRoll) (completed_lessons : List String) (locale : String)
    (fit : (key : String) (roll : ExerciseRoll)
      → lookup key rolls ≡ some roll
      → roll.correct ≤ roll.answered) where
  -- The sums over the whole course grow as those of the module do.
  abbrev IsApart : ℕ → ℕ → Drill → Type 0
  IsApart answered correct d =
      (d.overall.answered ≡ answered + d.agg.answered)
      × (d.overall.correct ≡ correct + d.agg.correct)

  drill_roll-IsDrilled :
      (answered correct : ℕ) (d : Drill) (eid : String) (roll : ExerciseRoll)
      → roll.correct ≤ roll.answered
      → IsDrilled d × IsApart answered correct d
      → IsDrilled (drill_roll platform registry rolls completed_lessons locale d eid roll)
        × IsApart answered correct
            (drill_roll platform registry rolls completed_lessons locale d eid roll)
  drill_roll-IsDrilled answered correct d eid roll le h =
      let more =
        sum_by-append (λ (r : Review). r.incorrect) d.to_review
          (review_of platform registry rolls completed_lessons locale eid roll ∷ []) in
      (ground (arith, h.0, more), (omega (arith, h.1.0), omega (arith, h.1.1)))

  drill-IsDrilled :
      (answered correct : ℕ) (d d' : Drill) (ids : List String)
      → IsDrilled d × IsApart answered correct d
      → drill platform registry rolls completed_lessons locale d ids ≡ ok d'
      → IsDrilled d' × IsApart answered correct d'
  unfolding drill
  drill-IsDrilled answered correct d d' [] h e =
      subst (λ x. IsDrilled x × IsApart answered correct x) (ok_injective e) h
  drill-IsDrilled answered correct d d' (eid ∷ rest) h e =
      elim (Result-cases (exercise_key registry eid)) [
        | inr (f, k) ↦ cc (rw k at e)
        | inl (key, k) ↦ elim (Option-cases (lookup key rolls)) [
          | inl none_there ↦ drill-IsDrilled answered correct d d' rest h (rw (k, none_there) at e)
          | inr (roll, there) ↦
              drill-IsDrilled answered correct
                (drill_roll platform registry rolls completed_lessons locale d eid roll) d' rest
                (drill_roll-IsDrilled answered correct d eid roll (fit key roll there) h)
                (rw (k, there) at e)
        ]
      ]

  -- What a published module adds to the page.
  abbrev Added : Page → Page → Type 0
  Added p p' =
      (d : Drill) × (row : ModuleRow) × (ids : List String) × (drill platform registry rolls
          completed_lessons locale (record { agg = empty_agg; overall = p.overall; to_review = [] })
          ids
        ≡ ok d)
      × (row.answered ≡ d.agg.answered)
      × (row.correct ≡ d.agg.correct)
      × (row.to_review ≡ d.to_review)
      × (p'.module_rows ≡ p.module_rows ++ row ∷ [])
      × (p'.overall ≡ d.overall)

  published_cases :
      (p p' : Page) (b : Block) (m : CourseModule) (lesson_ids : List String)
      → published_module platform registry rolls completed_lessons locale p b m lesson_ids ≡ ok p'
      → Added p p'
  published_cases p p' b m lesson_ids h =
      let start : Drill = record { agg = empty_agg; overall = p.overall; to_review = [] } in
      elim (Result-cases
        (count_where (is_done platform registry rolls completed_lessons locale) lesson_ids)) [
          | inr (f, k) ↦ absurd (ground arith)
          | inl (done, k) ↦ elim (Result-cases (module_exercise_ids registry m.id)) [
            | inr (f, l) ↦ absurd (ground arith)
            | inl (ids, l) ↦
                elim (Result-cases
                  (drill platform registry rolls completed_lessons locale start ids)) [
                    | inr (f, e) ↦ absurd (ground arith)
                    | inl (d, e) ↦ elim (Result-cases (get_text m.title locale)) [
                      | inr (f, t) ↦ absurd (ground arith)
                      | inl (title, t) ↦
                          elim (Result-cases (
                            count_where (is_passed platform registry rolls completed_lessons locale)
                              ids)) [
                                | inr (f, u) ↦ absurd (ground arith)
                                | inl (passed, u) ↦ (
                                  d,
                                  module_row platform registry rolls completed_lessons locale b m
                                      title (length lesson_ids) done (length ids) passed d,
                                  ids,
                                  e,
                                  refl,
                                  refl,
                                  refl,
                                  ground arith,
                                  ground arith,
                                )
                              ]
                    ]
                  ]
          ]
        ]

  -- The rows are reconciled, and the sums over the course are those of the rows.
  abbrev IsAgreed : Page → Type 0
  IsAgreed p =
      All IsReconciled p.module_rows
      × (p.overall.answered ≡ sum_by (λ (r : ModuleRow). r.answered) p.module_rows)
      × (p.overall.correct ≡ sum_by (λ (r : ModuleRow). r.correct) p.module_rows)

  Added-IsAgreed : (p p' : Page) → IsAgreed p → Added p p' → IsAgreed p'
  Added-IsAgreed p p' h (d, row, ids, e, answered, correct, review, rows, overall) =
      let (drilled, (apart, apart')) =
        drill-IsDrilled p.overall.answered p.overall.correct _ d ids
          (refl, (omega arith, omega arith)) e in
      let sum = sum_by-append (λ (r : ModuleRow). r.answered) p.module_rows (row ∷ []) in
      let sum' = sum_by-append (λ (r : ModuleRow). r.correct) p.module_rows (row ∷ []) in
      rw (rows, overall)
        (
          All-append IsReconciled p.module_rows (row ∷ []) h.0
              (rw (review, answered, correct) drilled, tt),
          omega (arith, h.1, apart, sum, answered),
          omega (arith, h.2, apart', sum', correct),
        )

  page-IsAgreed :
      (p p' : Page) (ms : List (Block × CourseModule))
      → IsAgreed p
      → page platform registry rolls completed_lessons locale p ms ≡ ok p'
      → IsAgreed p'
  unfolding page
  page-IsAgreed p p' [] h e = subst IsAgreed (ok_injective e) h
  page-IsAgreed p p' ((b, m) ∷ rest) h e =
      let counted : Page = record p { total_modules = suc p.total_modules } in
      elim (Result-cases (module_lesson_ids registry m.id)) [
        | inr (f, k) ↦ cc (rw k at e)
        | inl ([], k) ↦ page-IsAgreed counted p' rest h (rw k at e)
        | inl (l ∷ ls, k) ↦
            elim (Result-cases (
              published_module platform registry rolls completed_lessons locale counted b m
                (l ∷ ls))) [
                  | inr (f, u) ↦ cc (rw (k, u) at e)
                  | inl (p₁, u) ↦
                      page-IsAgreed p₁ p' rest
                        (Added-IsAgreed counted p₁ h (published_cases counted p₁ b m (l ∷ ls) u))
                        (rw (k, u) at e)
                ]
      ]

-- The page of a learner reconciles: the wrong answers of the exercises that a module names for review
-- are exactly its answers that are not correct, and the sums over the course are those of its modules.
pub me_stats-IsReconciled :
    {Config : Type 0} (platform : Platform Config) (average : List ℕ → Option ℕ)
    (registry : CourseRegistry Config) (db : Db) (user_id : ℕ) (completed_lessons : List String)
    (locale : String) (stats : MeStats)
    → me_stats platform average registry db user_id completed_lessons locale ≡ ok stats
    → All IsReconciled stats.modules
      × (stats.overall.answered ≡ sum_by (λ (r : ModuleRow). r.answered) stats.modules)
      × (stats.overall.correct ≡ sum_by (λ (r : ModuleRow). r.correct) stats.modules)
unfolding me_stats
me_stats-IsReconciled platform average registry db user_id completed_lessons locale stats h =
    let attempts = answered_attempts db (slug registry) (some user_id) in
    let rolls = roll_by_exercise attempts in
    let (p, made, e) =
      bind_inverse (λ p. ok (me_page platform average p))
        (page platform registry rolls completed_lessons locale empty_page
          (iter_modules registry.manifest))
        h in
    let agreed =
      page-IsAgreed platform registry rolls completed_lessons locale (roll_by_exercise-le attempts)
        empty_page p (iter_modules registry.manifest) (tt, refl, refl) e in
    subst
      (λ (s : MeStats).
        All IsReconciled s.modules
        × (s.overall.answered ≡ sum_by (λ (r : ModuleRow). r.answered) s.modules)
        × (s.overall.correct ≡ sum_by (λ (r : ModuleRow). r.correct) s.modules))
      (ok_injective made) agreed
