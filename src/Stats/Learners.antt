-- ===== src/Stats/Learners.antt =====
-- backend/src/tradeschool/stats/service.py, `global_stats`: the learners behind a row.
use tradeschool.Base.{
  ℕ, ◌≤◌, leb, ◌≡◌, List, [], ◌∷◌, map, arith, All, String, ok, traverse, ◌>>=◌, bind_inverse, refl,
  sym, ◌∙◌, Bool, true, length, or_else, Result-cases, ok_injective, subst, none, inl, inr,
  Bool-cases,
}
use tradeschool.Base.Dict.{Dict, lookup}
use tradeschool.Base.Sort.{sort_by-All, IsSorted, sort_by-IsSorted}
use tradeschool.Content.Registry.{CourseRegistry, slug, module_title}
use tradeschool.Exercises.Generator.{Platform}
use tradeschool.Store.{Attempt, Db}
use tradeschool.Exams.Submit.{ratio}
use tradeschool.Stats.Crowds.{
  AreDifferent, IsGathered, IsCrowd, answered_at, is_exercise, is_in_module, gathered-IsCrowd,
}
use tradeschool.Stats.Global.{
  Crowd, ExerciseRow, CrowdRow, GlobalStats, min_learners_for_global, learners_of, enough,
  exercise_row, crowd_row, crowd_of, empty_crowd, first_seen_of, accuracy_place, global_stats,
  global_page,
}
use tradeschool.Stats.{Agg, answered_attempts}

-- Three learners or more.
abbrev EnoughFor : Dict (List ℕ) → String × Agg → Type 0
EnoughFor learners e = min_learners_for_global ≤ learners_of learners e.0

enough-All :
    (learners : Dict (List ℕ)) (d : Dict Agg) → All (EnoughFor learners) (enough learners d)
enough-All learners [] = tt
enough-All learners ((k, agg) ∷ d) =
    elim (Bool-cases (leb min_learners_for_global (learners_of learners k))) [
      | inl e ↦ rw e (ground arith, enough-All learners d)
      | inr e ↦ rw e (enough-All learners d)
    ]

module _ {Config : Type 0} (platform : Platform Config) (registry : CourseRegistry Config)
    (locale : String) (attempts : List Attempt) where
  -- Three different learners or more, each with an attempt at that place.
  abbrev pub IsBacked : (String → String → Bool) → String → ℕ → Type 0
  IsBacked names k learners =
      (us : List ℕ) × (length us ≡ learners)
      × (3 ≤ length us)
      × AreDifferent us
      × All (λ u. answered_at platform registry locale attempts names k u ≡ true) us

  backed :
      (names : String → String → Bool) (d : Dict (List ℕ)) (k : String)
      → IsGathered (answered_at platform registry locale attempts names) d
      → 3 ≤ learners_of d k
      → IsBacked names k (learners_of d k)
  backed names d k g h = (or_else (lookup k d) [], refl, h, (g k).0, (g k).1)

  abbrev pub IsBackedExercise : ExerciseRow → Type 0
  IsBackedExercise r =
      IsBacked (is_exercise platform registry locale attempts) r.exercise_id r.learners

  abbrev pub IsBackedModule : CrowdRow → Type 0
  IsBackedModule r =
      IsBacked (is_in_module platform registry locale attempts) r.module_id r.learners

  exercise_rows-All :
      (c : Crowd) (es : List (String × Agg))
      → IsCrowd platform registry locale attempts c
      → All (EnoughFor c.exercise_learners) es
      → All IsBackedExercise (map (exercise_row platform registry locale c) es)
  exercise_rows-All c [] g h = tt
  exercise_rows-All c ((k, agg) ∷ es) g h = (
    backed (is_exercise platform registry locale attempts) c.exercise_learners k g.exercise_learners
        h.0,
    exercise_rows-All c es g h.1,
  )

  crowd_row-IsBackedModule :
      (c : Crowd) (k : String) (agg : Agg) (row : CrowdRow)
      → crowd_row platform registry locale c (k, agg) ≡ ok row
      → IsBacked
          (is_in_module platform registry locale attempts)
          k
          (learners_of c.module_learners k)
      → IsBackedModule row
  crowd_row-IsBackedModule c k agg row h b = elim (Result-cases (module_title registry k locale)) [
    | inr (f, e) ↦ absurd (ground (arith, e, h))
    | inl (title, e) ↦
        let same : crowd_row platform registry locale c (k, agg)
            ≡ ok (record {
              module_id = k;
              title = title;
              learners = learners_of c.module_learners k;
              first_seen = agg.first_seen;
              first_correct = agg.first_correct;
              first_attempt_accuracy = ratio platform agg.first_correct agg.first_seen;
            }) =
          rw e refl in
        subst IsBackedModule (ok_injective (sym same ∙ h)) b
  ]

  crowd_rows-All :
      (c : Crowd) (es : List (String × Agg)) (rows : List CrowdRow)
      → IsCrowd platform registry locale attempts c
      → All (EnoughFor c.module_learners) es
      → traverse (crowd_row platform registry locale c) es ≡ ok rows
      → All IsBackedModule rows
  crowd_rows-All c [] rows g h e = subst (All _) (ok_injective e) tt
  crowd_rows-All c ((k, agg) ∷ es) rows g h e =
      let rest_rows = traverse (crowd_row platform registry locale c) es in
      let (row, e₁, one) =
        bind_inverse (λ row. rest_rows >>= λ rest. ok (row ∷ rest))
          (crowd_row platform registry locale c (k, agg)) e in
      let (rest, e₂, others) = bind_inverse (λ rest. ok (row ∷ rest)) rest_rows e₁ in
      subst (All _) (ok_injective e₂) (
        crowd_row-IsBackedModule c k agg row one (
            backed (is_in_module platform registry locale attempts) c.module_learners k
              g.module_learners h.0),
        crowd_rows-All c es rest g h.1 others,
      )

  -- Three learners or more stand behind each row, and the lowest accuracy is first.
  abbrev pub IsHonest : GlobalStats → Type 0
  IsHonest stats =
      All IsBackedExercise stats.exercises
      × All IsBackedModule stats.modules
      × IsSorted
          (λ (r : ExerciseRow). accuracy_place platform registry locale r.first_attempt_accuracy)
          stats.exercises
      × IsSorted
          (λ (r : CrowdRow). accuracy_place platform registry locale r.first_attempt_accuracy)
          stats.modules

module _ {Config : Type 0} (platform : Platform Config) (registry : CourseRegistry Config)
    (locale : String) where
  -- Behind every exercise and every module that the page about all learners shows stand at least three
  -- different learners, as many as the row says, each with an answered practice attempt there; and both
  -- lists begin with the lowest accuracy.
  pub global_stats-learners :
      (db : Db) (stats : GlobalStats)
      → global_stats platform registry locale db ≡ ok stats
      → IsHonest platform registry locale (answered_attempts db (slug registry) none) stats
  unfolding global_stats
  global_stats-learners db stats h =
      let attempts = answered_attempts db (slug registry) none in
      let c = crowd_of platform registry locale empty_crowd (first_seen_of [] attempts) in
      let g = gathered-IsCrowd platform registry locale attempts in
      let (rows, made, e) =
        bind_inverse (λ rows. ok (global_page platform registry locale c rows))
          (traverse (crowd_row platform registry locale c) (enough c.module_learners c.by_module))
          h in
      subst (IsHonest platform registry locale attempts) (ok_injective made) (
        sort_by-All _ _ _ (
            exercise_rows-All platform registry locale attempts c
              (enough c.exercise_learners c.by_exercise) g
              (enough-All c.exercise_learners c.by_exercise)),
        sort_by-All _ _ rows (
            crowd_rows-All platform registry locale attempts c
              (enough c.module_learners c.by_module) rows g
              (enough-All c.module_learners c.by_module) e),
        sort_by-IsSorted _ _,
        sort_by-IsSorted _ rows,
      )
