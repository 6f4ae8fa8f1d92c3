-- ===== src/Exams/Shown.antt =====
-- backend/src/tradeschool/exams/service.py, `_build_view`: the questions that an exam shows.
use tradeschool.Base.{
  ℕ, suc, String, ◌≡◌, ap, subst, ◌∙◌, sym, Bool, true, false, Option, some, none, List, [], ◌∷◌,
  map, select, is_some, arith, enumerate, present, traverse, ok, ◌>>=◌, bind_inverse, ok_injective,
  Distinct, Option-cases, Result-cases, inl, inr,
}
use tradeschool.Base.Sort.{sort_by}
use tradeschool.Content.Registry.{CourseRegistry, get_exercise_config}
use tradeschool.Exercises.Generator.{Platform}
use tradeschool.Store.{Attempt, ExamSession}
use tradeschool.Exams.{display_id}
use tradeschool.Exams.View.{
  ExamQuestionView, ExamView, sort_key, question_view, question_views, build_view, scope_title,
}
use tradeschool.Exams.Order.{key_of, sort_by-question_order}
use mathlib.Core.List.{Permᴰ}

module _ {Config : Type 0} (platform : Platform Config) (registry : CourseRegistry Config)
    (locale : String) (reveal : Bool) where
  -- Whether the exercise of a question can still be played.
  abbrev pub is_shown : Attempt → Bool
  is_shown a = is_some (get_exercise_config registry (display_id registry a))

  abbrev Shows : Attempt → Option ExamQuestionView → Type 0
  Shows a none = is_shown a ≡ false
  Shows a (some q) = (is_shown a ≡ true) × (q.attempt_id ≡ a.id)

  question_view-Shows :
      (n : ℕ) (a : Attempt) (shown : Option ExamQuestionView)
      → question_view platform registry locale reveal (n, a) ≡ ok shown
      → Shows a shown
  unfolding question_view
  question_view-Shows n a none h =
      elim (Option-cases (get_exercise_config registry (display_id registry a))) [
        | inl e ↦ ground (arith, e)
        | inr ((exercise_type, cfg), e) ↦ ground (arith, e, h)
      ]
  question_view-Shows n a (some q) h =
      elim (Option-cases (get_exercise_config registry (display_id registry a))) [
        | inl e ↦ ground (arith, e, h)
        | inr ((exercise_type, cfg), e) ↦ (ground (arith, e), ground (arith, e, h))
      ]

  joined :
      (a : Attempt) (first : Option ExamQuestionView) (xs : List Attempt)
      (more : List (Option ExamQuestionView))
      → Shows a first
      → map (λ q. q.attempt_id) (present more) ≡ map (λ a. a.id) (select is_shown xs)
      → map (λ q. q.attempt_id) (present (first ∷ more))
        ≡ map (λ a. a.id) (select is_shown (a ∷ xs))
  joined a none xs more h same = rw h same
  joined a (some q) xs more (shown, id) same = rw shown (cc (id, same))

  question_views-Shows :
      (n : ℕ) (xs : List Attempt) (shown : List (Option ExamQuestionView))
      → traverse (question_view platform registry locale reveal) (enumerate n xs) ≡ ok shown
      → map (λ q. q.attempt_id) (present shown) ≡ map (λ a. a.id) (select is_shown xs)
  question_views-Shows n [] shown h =
      ap (λ z. map (λ q. q.attempt_id) (present z)) (sym (ok_injective h))
  question_views-Shows n (a ∷ xs) shown h =
      let others =
        traverse (question_view platform registry locale reveal) (enumerate (suc n) xs) in
      let (first, rest, one) =
        bind_inverse (λ y. others >>= λ ys. ok (y ∷ ys))
          (question_view platform registry locale reveal (n, a)) h in
      let (more, last, all_others) = bind_inverse (λ ys. ok (first ∷ ys)) others rest in
      subst (λ z. map (λ q. q.attempt_id) (present z) ≡ map (λ a. a.id) (select is_shown (a ∷ xs)))
        (ok_injective last)
        (joined a first xs more (question_view-Shows n a first one)
          (question_views-Shows (suc n) xs more all_others))

  -- An exam shows the questions whose exercises can still be played, in the order that was frozen when
  -- it was assembled, if their keys differ, whatever the manifest says today and in whatever order the
  -- rows are read.
  pub build_view-question_order :
      (exam : ExamSession) (qs attempts : List Attempt) (view : ExamView)
      → exam.rules.question_order ≡ some (map key_of qs)
      → Distinct (map key_of qs)
      → Permᴰ qs attempts
      → build_view platform registry exam attempts locale reveal ≡ ok view
      → map (λ q. q.attempt_id) view.questions ≡ map (λ a. a.id) (select is_shown qs)
  unfolding build_view question_views
  build_view-question_order exam qs attempts view frozen d p h =
      let sorted = sort_by (sort_key platform registry exam) attempts in
      elim (Result-cases
        (traverse (question_view platform registry locale reveal) (enumerate 0 sorted))) [
          | inr (f, e) ↦ absurd (ground (arith, e, h))
          | inl (shown, e) ↦
              elim (Result-cases (scope_title platform registry exam.rules.block_id locale)) [
                | inr (f, k) ↦ absurd (ground (arith, e, k, h))
                | inl (title, k) ↦
                    let same : present shown ≡ view.questions = ground (arith, e, k, h) in
                    subst (λ z. map (λ q. q.attempt_id) z ≡ map (λ a. a.id) (select is_shown qs))
                      same
                      (question_views-Shows 0 sorted shown e
                        ∙ (ap (λ z. map (λ (a : Attempt). a.id) (select is_shown z))
                            (sort_by-question_order platform registry exam qs attempts frozen d p)))
              ]
        ]
