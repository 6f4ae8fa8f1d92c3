-- ===== src/Exams/Scores.antt =====
-- backend/src/tradeschool/exams/service.py, `submit_exam`: what the tallies count.
use tradeschool.Base.{
  ℕ, suc, ◌+◌, ◌≤◌, String, ◌≡◌, refl, ap, ◌∙◌, Bool, some, List, [], ◌∷◌, arith, length,
  length-append, count_if, count_if-le, select, Result, ok, Result-cases, inl, inr, bind_inverse,
  ◌>>=◌,
}
use tradeschool.Base.Sort.{sort_by, sort_by-perm}
use tradeschool.Content.Registry.{CourseRegistry}
use tradeschool.Exercises.Generator.{Platform}
use tradeschool.Store.{Attempt, ExamSession, ExamResult, ModuleScore, Db, in_session, get_session}
use tradeschool.Exams.{load_owned, attempts_of, canonical_place}
use tradeschool.Exams.Closed.{get_session-graded}
use tradeschool.Exams.Submit.{
  Tally, empty_tally, one_if, enter_block, count_question, score_of, location_of, noted,
  graded_correct, tally_one, tally_all, exam_result, grade_exam,
}
use mathlib.Core.List.{Permᴰ}

count_if-perm :
    {A : Type 0} (test : A → Bool) {xs ys : List A}
    → Permᴰ xs ys
    → count_if test xs ≡ count_if test ys
count_if-perm test Permᴰ.nil = refl
count_if-perm test (Permᴰ.cons {a} {b} {l₁} {l₂} e p) = rw e (omega (arith, count_if-perm test p))
count_if-perm test (Permᴰ.swap {a} {b} {a'} {b'} {l} e f) = rw (e, f) (omega arith)
count_if-perm test (Permᴰ.trans p q) = count_if-perm test p ∙ count_if-perm test q

length-perm : {A : Type 0} {xs ys : List A} → Permᴰ xs ys → length xs ≡ length ys
length-perm Permᴰ.nil = refl
length-perm (Permᴰ.cons {a} {b} {l₁} {l₂} e p) = omega (arith, length-perm p)
length-perm (Permᴰ.swap {a} {b} {a'} {b'} {l} e f) = omega arith
length-perm (Permᴰ.trans p q) = length-perm p ∙ length-perm q

module _ {Config : Type 0} (platform : Platform Config) (registry : CourseRegistry Config)
    (locale : String) (now : ℕ) where
  enter_block-counts :
      (b_id : String) (t t' : Tally)
      → enter_block platform registry locale now b_id t ≡ ok t'
      → (t'.correct_total ≡ t.correct_total) × (t'.per_module ≡ t.per_module)
  enter_block-counts b_id t t' h = ground arith

  count_question-counts :
      (b_id : String) (is_correct : Bool) (t t' : Tally)
      → count_question platform registry locale now b_id is_correct t ≡ ok t'
      → (t'.correct_total ≡ t.correct_total + one_if is_correct) × (t'.per_module ≡ t.per_module)
  count_question-counts b_id is_correct t t' h = ground arith

  -- The steps of one turn of the loop.
  pub tally_one_cases :
      (t t' : Tally) (a : Attempt)
      → tally_one platform registry locale now t a ≡ ok t'
      → (score : ModuleScore) × (entered : Tally) × (enter_block platform registry locale now
            (location_of platform registry locale now a).0
            (noted platform registry locale now t a score)
          ≡ ok entered)
        × (count_question platform registry locale now
              (location_of platform registry locale now a).0
              (graded_correct platform registry locale now a)
              entered
            ≡ ok t')
  unfolding tally_one
  tally_one_cases t t' a h =
      let b_id = (location_of platform registry locale now a).0 in
      let next : ModuleScore → Result Tally = λ score.
        enter_block platform registry locale now b_id (noted platform registry locale now t a score)
        >>= count_question platform registry locale now b_id
            (graded_correct platform registry locale now a) in
      let (score, h₁, _) = bind_inverse next (score_of platform registry locale now a) h in
      let (entered, h₂, e) =
        bind_inverse
          (count_question platform registry locale now b_id
            (graded_correct platform registry locale now a))
          (enter_block platform registry locale now b_id
            (noted platform registry locale now t a score))
          h₁ in
      (score, entered, e, h₂)

  pub tally_one-counts :
      (t t' : Tally) (a : Attempt)
      → tally_one platform registry locale now t a ≡ ok t'
      → (t'.correct_total
          ≡ t.correct_total + one_if (graded_correct platform registry locale now a))
        × (length t'.per_module ≡ suc (length t.per_module))
  tally_one-counts t t' a h =
      let (score, entered, e, c) = tally_one_cases t t' a h in
      let (sum, rows) = enter_block-counts _ _ _ e in
      let (sum', rows') = count_question-counts _ _ _ _ c in
      let more = length-append t.per_module (score ∷ []) in
      (omega (arith, sum, sum'), omega (arith, ap length rows, ap length rows', more))

  pub tally_all-counts :
      (t t' : Tally) (xs : List Attempt)
      → tally_all platform registry locale now t xs ≡ ok t'
      → (t'.correct_total
          ≡ t.correct_total + count_if (graded_correct platform registry locale now) xs)
        × (length t'.per_module ≡ length t.per_module + length xs)
  unfolding tally_all
  tally_all-counts t t' [] h = (ground arith, ground arith)
  tally_all-counts t t' (x ∷ xs) h =
      let (t₁, rest, one) =
        bind_inverse (λ t₁. tally_all platform registry locale now t₁ xs)
          (tally_one platform registry locale now t x) h in
      let (sum, rows) = tally_one-counts t t₁ x one in
      let (sum', rows') = tally_all-counts t₁ t' xs rest in (ground arith, ground arith)

  -- The questions of an exam, in the order of grading.
  pub questions-perm :
      (db : Db) (exam_id : ℕ)
      → Permᴰ
          (sort_by (canonical_place registry) (attempts_of db exam_id))
          (select (in_session exam_id) db.attempts)
  unfolding attempts_of
  questions-perm db exam_id =
      Permᴰ.trans (sort_by-perm (canonical_place registry) (attempts_of db exam_id))
        (sort_by-perm (λ a. a.id) (select (in_session exam_id) db.attempts))

  -- What a successful grading stored, from the tally of the questions.
  pub grade_exam_cases :
      (db db' : Db) (user_id exam_id : ℕ) (course_id : String) (exam : ExamSession)
      → grade_exam platform registry locale now db user_id exam_id course_id ≡ ok (exam, db')
      → (t : Tally) × (result : ExamResult) × (tally_all platform registry locale now
            (empty_tally db.attempts)
            (sort_by (canonical_place registry) (attempts_of db exam_id))
          ≡ ok t)
        × (exam_result platform registry locale now t ≡ ok result)
        × (exam.rules.result ≡ some result)
  unfolding grade_exam
  grade_exam_cases db db' user_id exam_id course_id exam h =
      elim (Result-cases (load_owned db user_id exam_id course_id)) [
        | inr (f, e) ↦ cc (rw e at h)
        | inl (old, mine) ↦
            elim (Result-cases (
              tally_all platform registry locale now (empty_tally db.attempts)
                (sort_by (canonical_place registry) (attempts_of db exam_id)))) [
                  | inr (f, e) ↦ absurd (ground arith)
                  | inl (t, tally) ↦
                      elim (Result-cases (exam_result platform registry locale now t)) [
                        | inr (f, e) ↦ absurd (ground arith)
                        | inl (result, made) ↦ (t, result, tally, made, ground arith)
                      ]
                ]
      ]

  pub exam_result-totals :
      (t : Tally) (result : ExamResult)
      → exam_result platform registry locale now t ≡ ok result
      → (result.correct ≡ t.correct_total) × (result.total ≡ length t.per_module)
  unfolding exam_result
  exam_result-totals t result h = ground arith

  -- The session that is stored after a successful submission has a result that counts every question,
  -- however the rows are read, and as correct exactly those whose answer is graded as correct; so the
  -- correct ones are at most all.
  pub grade_exam-counts :
      (db db' : Db) (user_id exam_id : ℕ) (course_id : String) (exam : ExamSession)
      → grade_exam platform registry locale now db user_id exam_id course_id ≡ ok (exam, db')
      → (result : ExamResult) × (get_session db' exam_id ≡ some exam)
        × (exam.rules.result ≡ some result)
        × (result.total ≡ length (select (in_session exam_id) db.attempts))
        × (result.correct
            ≡ count_if
                (graded_correct platform registry locale now)
                (select (in_session exam_id) db.attempts))
        × (result.correct ≤ result.total)
  grade_exam-counts db db' user_id exam_id course_id exam h =
      let (t, result, tally, made, stored) =
        grade_exam_cases db db' user_id exam_id course_id exam h in
      let (correct, total) = exam_result-totals t result made in
      let (sum, rows) = tally_all-counts _ t _ tally in
      let p = questions-perm db exam_id in
      let test = graded_correct platform registry locale now in
      let all_counted = length-perm p in
      let correct_counted = count_if-perm test p in
      (
        result,
        (get_session-graded platform registry locale now db db' user_id exam_id course_id exam h).0,
        stored,
        omega (arith, total, rows, all_counted),
        omega (arith, correct, sum, correct_counted),
        omega (
          arith,
          total,
          rows,
          all_counted,
          correct,
          sum,
          correct_counted,
          count_if-le test (select (in_session exam_id) db.attempts),
        ),
      )
