-- ===== src/Exams/Total.antt =====
-- backend/src/tradeschool/exams/service.py, `submit_exam`: on a valid course the grading of an open exam
-- raises nothing.
use tradeschool.Base.{
  ℕ, ◌+◌, String, ◌≡◌, refl, subst, sym, ◌∙◌, Bool, true, not, some, List, [], ◌∷◌, ◌++◌, contains,
  all, All, ok, inl, inr, Bool-cases, Option-cases, is_some, str_eq, str_eq_self, All-intro, select,
  or_text, length,
}
use tradeschool.Base.Dict.{Dict, insert, has_key}
use tradeschool.Base.Maps.{map_same}
use tradeschool.Base.Sort.{sort_by}
use tradeschool.Content.Schema.{ExerciseType, Manifest}
use tradeschool.Content.Schema.Ids.{IsWellFormed}
use tradeschool.Content.Registry.{CourseRegistry, build, exercise_location}
use tradeschool.Content.Registry.Complete.{translated_block, traverse_total, contains_own}
use tradeschool.Content.Registry.Titles.{module_title_total, block_title_total, located_key}
use tradeschool.Exercises.Generator.{Platform}
use tradeschool.Store.{
  Attempt, ExamSession, ExamStatus, ExamResult, BlockScore, ModuleScore, Db, is_open_exam,
  put_session, in_session, get_session,
}
use tradeschool.Exams.{attempts_of, canonical_place, load_owned, display_id}
use tradeschool.Exams.Submit.{
  Tally, empty_tally, one_if, enter_block, count_question, location_of, noted, graded_correct,
  stored_module, score_of, tally_one, tally_all, block_score, exam_result, grade_exam, ratio,
}
use tradeschool.Exams.Scores.{grade_exam-counts}
use tradeschool.Exams.Filled.{
  IsFilled, empty-IsFilled, has_key-new, has_key-old, last_known, has_key-lookup,
}

module _ {Config : Type 0} (platform : Platform Config) (manifest : Manifest)
    (markdown : Dict (Dict String)) (configs : Dict (ExerciseType × Config))
    (w : IsWellFormed manifest) (locale : String)
    (translated : all (translated_block locale) manifest.blocks ≡ true) (now : ℕ) where
  abbrev registry : CourseRegistry Config
  registry = build manifest markdown configs

  stored_module_total :
      (a : Attempt)
      → (key : String) × (stored_module platform registry locale now
            (location_of platform registry locale now a).1
          ≡ ok key)
  stored_module_total a = elim (Option-cases (exercise_location registry (display_id registry a))) [
    | inl e ↦ ("", rw (e, str_eq_self "") refl)
    | inr ((b_id, m_id), e) ↦ elim (Bool-cases (str_eq m_id "")) [
      | inl z ↦ (m_id, rw (e, z) refl)
      | inr z ↦
          let (key, k) =
            located_key manifest markdown configs w locale translated (display_id registry a) b_id
              m_id e in
          (key, rw (e, z, k) refl)
    ]
  ]

  score_of_total :
      (a : Attempt) → (score : ModuleScore) × (score_of platform registry locale now a ≡ ok score)
  score_of_total a =
      let (b_id, m_id) = location_of platform registry locale now a in
      let (key, k) = stored_module_total a in
      let (title, e) = module_title_total manifest markdown configs w locale translated m_id in
      (
        record {
          module_id = key;
          title = or_text title m_id;
          block_id = b_id;
          correct = graded_correct platform registry locale now a;
          unanswered = not (is_some a.given_answer);
        },
        rw (k, e) refl,
      )

  enter_block_total :
      (b : String) (t : Tally)
      → IsFilled t
      → (t' : Tally) × (enter_block platform registry locale now b t ≡ ok t')
        × IsFilled t'
        × (contains b t'.block_order ≡ true)
  enter_block_total b t f = elim (Bool-cases (has_key b t.block_total)) [
    | inl e ↦ (t, rw e refl, f, sym (f.totals_in b) ∙ e)
    | inr e ↦
        let (title, h) = block_title_total manifest markdown configs w locale translated b in
        (
          record t {
            block_order = t.block_order ++ b ∷ [];
            block_titles = insert b (or_text title b) t.block_titles;
            block_correct = insert b 0 t.block_correct;
            block_total = insert b 0 t.block_total;
          },
          rw (e, h) refl,
          record {
            titles_in =
                λ j. has_key-new b j (or_text title b) t.block_order t.block_titles (f.titles_in j);
            totals_in = λ j. has_key-new b j 0 t.block_order t.block_total (f.totals_in j);
            corrects_in = λ j. has_key-new b j 0 t.block_order t.block_correct (f.corrects_in j);
          },
          last_known b t.block_order,
        )
  ]

  count_question_total :
      (b : String) (is_correct : Bool) (t : Tally)
      → IsFilled t
      → contains b t.block_order ≡ true
      → (t' : Tally) × (count_question platform registry locale now b is_correct t ≡ ok t')
        × IsFilled t'
  count_question_total b is_correct t f here =
      let (total, h) = has_key-lookup b t.block_total (f.totals_in b ∙ here) in
      let (correct, k) = has_key-lookup b t.block_correct (f.corrects_in b ∙ here) in
      (
        record t {
          block_total = insert b (total + 1) t.block_total;
          block_correct = insert b (correct + one_if is_correct) t.block_correct;
          correct_total = t.correct_total + one_if is_correct;
        },
        rw (h, k) refl,
        record {
          titles_in = f.titles_in;
          totals_in =
              λ j. has_key-old b j (total + 1) t.block_order t.block_total here (f.totals_in j);
          corrects_in = λ j.
              has_key-old b j (correct + one_if is_correct) t.block_order t.block_correct here
                (f.corrects_in j);
        },
      )

  tally_one_total :
      (t : Tally) (a : Attempt)
      → IsFilled t
      → (t' : Tally) × (tally_one platform registry locale now t a ≡ ok t') × IsFilled t'
  unfolding tally_one
  tally_one_total t a f =
      let b = (location_of platform registry locale now a).0 in
      let (score, e) = score_of_total a in
      let (entered, e', g, here) =
        enter_block_total b (noted platform registry locale now t a score) (record {
          titles_in = f.titles_in;
          totals_in = f.totals_in;
          corrects_in = f.corrects_in;
        }) in
      let (t', e'', g') =
        count_question_total b (graded_correct platform registry locale now a) entered g here in
      (t', rw (e, e', e'') refl, g')

  tally_all_total :
      (t : Tally) (xs : List Attempt)
      → IsFilled t
      → (t' : Tally) × (tally_all platform registry locale now t xs ≡ ok t') × IsFilled t'
  unfolding tally_all
  tally_all_total t [] f = (t, refl, f)
  tally_all_total t (a ∷ xs) f =
      let (t1, e, f1) = tally_one_total t a f in
      let (t', e', f') = tally_all_total t1 xs f1 in (t', rw (e, e') refl, f')

  block_score_total :
      (t : Tally) (b : String)
      → IsFilled t
      → contains b t.block_order ≡ true
      → (s : BlockScore) × (block_score platform registry locale now t b ≡ ok s)
  unfolding block_score
  block_score_total t b f here =
      let (title, e) = has_key-lookup b t.block_titles (f.titles_in b ∙ here) in
      let (correct, e') = has_key-lookup b t.block_correct (f.corrects_in b ∙ here) in
      let (total, e'') = has_key-lookup b t.block_total (f.totals_in b ∙ here) in
      (
        record {
          block_id = b;
          title = title;
          correct = correct;
          total = total;
          score = ratio platform correct total;
        },
        rw (e, e', e'') refl,
      )

  exam_result_total :
      (t : Tally)
      → IsFilled t
      → (result : ExamResult) × (exam_result platform registry locale now t ≡ ok result)
  unfolding exam_result
  exam_result_total t f =
      let own : All (λ b. contains b t.block_order ≡ true) t.block_order =
        subst (λ bs. All (λ b. contains b bs ≡ true) t.block_order)
          (map_same (λ b. b) t.block_order (All-intro (λ b. b ≡ b) t.block_order (λ b. refl)))
          (contains_own (λ b. b) t.block_order) in
      let (blocks, e, _) =
        traverse_total (block_score platform registry locale now t)
          (λ b. contains b t.block_order ≡ true) (λ _. Unit {0})
          (λ b here. let (s, k) = block_score_total t b f here in (s, k, tt)) t.block_order own in
      (
        record {
          score = ratio platform t.correct_total (length t.per_module);
          correct = t.correct_total;
          total = length t.per_module;
          blocks = blocks;
          modules = t.per_module;
        },
        rw e refl,
      )

  graded :
      (db : Db) (user_id exam_id : ℕ) (course_id : String) (exam : ExamSession)
      → load_owned db user_id exam_id course_id ≡ ok exam
      → is_open_exam exam.rules.status ≡ true
      → (exam' : ExamSession) × (db' : Db) × (grade_exam platform registry locale now db user_id
            exam_id course_id
          ≡ ok (exam', db'))
        × (exam'.rules.status ≡ ExamStatus.submitted)
  unfolding grade_exam
  graded db user_id exam_id course_id exam owned is_open =
      let (t, e, f) =
        tally_all_total (empty_tally db.attempts)
          (sort_by (canonical_place registry) (attempts_of db exam_id))
          (empty-IsFilled db.attempts) in
      let (result, made) = exam_result_total t f in
      let exam' : ExamSession = record exam {
        finished_at = some now;
        rules = record (exam.rules) { status = ExamStatus.submitted; result = some result };
      } in
      (
        exam',
        record { attempts = t.attempts; exam_sessions = put_session exam' db.exam_sessions },
        rw (owned, is_open, e, made) refl,
        refl,
      )

  -- On a valid course, in a language that all its titles and summaries carry, the grading of an exam that
  -- is the learner's own and open raises nothing, whatever the answers are and whether or not the
  -- exercises still exist; the session found in the table after it is submitted, with a result that
  -- counts every question.
  pub grade_exam_total :
      (db : Db) (user_id exam_id : ℕ) (course_id : String) (exam : ExamSession)
      → load_owned db user_id exam_id course_id ≡ ok exam
      → is_open_exam exam.rules.status ≡ true
      → (exam' : ExamSession) × (db' : Db) × (grade_exam platform registry locale now db user_id
            exam_id course_id
          ≡ ok (exam', db'))
        × (get_session db' exam_id ≡ some exam')
        × (exam'.rules.status ≡ ExamStatus.submitted)
        × (result : ExamResult) × (exam'.rules.result ≡ some result)
        × (result.total ≡ length (select (in_session exam_id) db.attempts))
  grade_exam_total db user_id exam_id course_id exam owned is_open =
      let (exam', db', e, status) = graded db user_id exam_id course_id exam owned is_open in
      let (result, kept, stored, total, _, _) =
        grade_exam-counts platform registry locale now db db' user_id exam_id course_id exam' e in
      (exam', db', e, kept, status, result, stored, total)
