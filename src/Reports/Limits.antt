-- ===== src/Reports/Limits.antt =====
-- What filing a report (backend/src/tradeschool/reports/service.py) keeps: one report for an attempt, ten a day
-- for a learner, and none for an attempt that is not answered.
use tradeschool.Base.{
  ℕ, ◌/◌, ◌≤◌, ◌<◌, String, ◌≡◌, sym, subst, Bool, true, false, ◌&&◌, none, List, [], ◌∷◌, ◌++◌,
  All-map_left, All-intro, find, find-none-All, count_if, count_if-append, arith, Bool-cases,
  Option-cases, inl, inr, ◌==◌, ok, Result-cases,
}
use tradeschool.Base.Counts.{count_if-implies, count_if_none}
use tradeschool.Content.Registry.{CourseRegistry, exercise_id_for_key}
use tradeschool.Store.{Attempt, answered, Db}
use tradeschool.Attempts.{load_owned}
use tradeschool.Auth.Models.{User}
use tradeschool.Reports.Filing.{
  QuestionReport, Tools, daily_limit, day, sent_today, check_limits, reportable, report_of,
  file_report, is_quiz, config_of,
}

abbrev pub about : ℕ → QuestionReport → Bool
about attempt_id r = r.attempt_id == attempt_id

abbrev pub on_day : ℕ → ℕ → QuestionReport → Bool
on_day user_id d r = r.user_id == user_id && r.created_at / day == d

pub record IsLimited (reports : List QuestionReport) : Type 0 where
  pub once : (attempt_id : ℕ) → count_if (about attempt_id) reports ≤ 1
  pub daily : (user_id d : ℕ) → count_if (on_day user_id d) reports ≤ daily_limit

module _ {Config : Type 0} (tools : Tools Config) (registry : CourseRegistry Config) where
  report_of-fields :
      (user : User) (a : Attempt) (message locale public_url : String) (id now : ℕ)
      (report : QuestionReport)
      → report_of tools registry user a message locale public_url id now ≡ ok report
      → (report.user_id ≡ user.id) × (report.attempt_id ≡ a.id) × (report.created_at ≡ now)
  unfolding report_of
  report_of-fields user a message locale public_url id now report h = ground (arith, h)

  -- The steps of a filing that succeeds.
  file_steps :
      (db : Db) (reports : List QuestionReport) (user : User) (attempt_id : ℕ)
      (message locale public_url : String) (id now : ℕ) (report : QuestionReport)
      (reports' : List QuestionReport)
      → file_report tools registry db reports user attempt_id message locale public_url id now
        ≡ ok (report, reports')
      → (a : Attempt) × (reportable registry db user.id attempt_id ≡ ok a)
        × (check_limits reports user.id a.id now ≡ ok tt)
        × (report_of tools registry user a message locale public_url id now ≡ ok report)
        × (reports' ≡ reports ++ (report ∷ []))
  unfolding file_report
  file_steps db reports user attempt_id message locale public_url id now report reports' h =
      elim (Result-cases (reportable registry db user.id attempt_id)) [
        | inr (f, e) ↦ absurd (ground (arith, e, h))
        | inl (a, e) ↦ elim (Result-cases (check_limits reports user.id a.id now)) [
          | inr (f, c) ↦ absurd (ground (arith, e, c, h))
          | inl (_, c) ↦
              elim (Result-cases
                (report_of tools registry user a message locale public_url id now)) [
                  | inr (f, r) ↦ absurd (ground (arith, e, c, r, h))
                  | inl (made, r) ↦
                      (a, e, c, ground (arith, e, c, r, h), ground (arith, e, c, r, h))
                ]
        ]
      ]

  check_limits-ok :
      (reports : List QuestionReport) (user_id attempt_id now : ℕ)
      → check_limits reports user_id attempt_id now ≡ ok tt
      → (find (about attempt_id) reports ≡ none)
        × (count_if (sent_today user_id now) reports < daily_limit)
  unfolding check_limits
  check_limits-ok reports user_id attempt_id now h =
      elim (Option-cases (find (about attempt_id) reports)) [
        | inr (r, e) ↦ absurd (ground (arith, e, h))
        | inl e ↦ (e, ground (arith, e, h))
      ]

  -- A report of the same day was sent since midnight.
  on_day-sent_today :
      (user_id now : ℕ) (r : QuestionReport)
      → on_day user_id (now / day) r ≡ true
      → sent_today user_id now r ≡ true
  on_day-sent_today user_id now r h = ground (arith, h)

  append-IsLimited :
      (reports : List QuestionReport) (report : QuestionReport) (user_id attempt_id now : ℕ)
      → IsLimited reports
      → report.user_id ≡ user_id
      → report.attempt_id ≡ attempt_id
      → report.created_at ≡ now
      → find (about attempt_id) reports ≡ none
      → count_if (sent_today user_id now) reports < daily_limit
      → IsLimited (reports ++ (report ∷ []))
  append-IsLimited reports report user_id attempt_id now limited of_user of_attempt made new room =
      record {
        once = λ i. elim (Bool-cases (about i report)) [
          | inl e ↦ omega (
            arith,
            count_if-append (about i) reports (report ∷ []),
            at_most_one (about i),
            count_if_none (about i) reports (
                All-map_left (λ r. about attempt_id r ≡ false) (λ r. about i r ≡ false) reports
                  (λ r n. ground (arith, n, e, of_attempt))
                  (find-none-All (about attempt_id) reports new)),
          )
          | inr e ↦ omega (
            arith,
            count_if-append (about i) reports (report ∷ []),
            limited.once i,
            count_if_none (about i) (report ∷ []) (e, tt),
          )
        ];
        daily = λ u d. elim (Bool-cases (on_day u d report)) [
          | inl e ↦ omega (
            arith,
            count_if-append (on_day u d) reports (report ∷ []),
            at_most_one (on_day u d),
            room,
            count_if-implies (on_day u d) (sent_today user_id now) reports (
                All-intro (λ r. on_day u d r ≡ true → sent_today user_id now r ≡ true) reports
                  (λ r h. on_day-sent_today user_id now r (ground (arith, h, e, of_user, made)))),
          )
          | inr e ↦ omega (
            arith,
            count_if-append (on_day u d) reports (report ∷ []),
            limited.daily u d,
            count_if_none (on_day u d) (report ∷ []) (e, tt),
          )
        ];
      }
    where
      at_most_one : (test : QuestionReport → Bool) → count_if test (report ∷ []) ≤ 1
      at_most_one test = ground arith

  -- Filing a report, when it succeeds, preserves that every attempt has at most one report and that a
  -- learner has at most ten reports of any one day (by UTC).
  pub file_report-IsLimited :
      (db : Db) (reports : List QuestionReport) (user : User) (attempt_id : ℕ)
      (message locale public_url : String) (id now : ℕ) (report : QuestionReport)
      (reports' : List QuestionReport)
      → IsLimited reports
      → file_report tools registry db reports user attempt_id message locale public_url id now
        ≡ ok (report, reports')
      → IsLimited reports'
  file_report-IsLimited db reports user attempt_id message locale public_url id now report reports'
        limited h =
      let (a, _, checked, made, e) =
        file_steps db reports user attempt_id message locale public_url id now report reports' h in
      let (of_user, of_attempt, at_now) =
        report_of-fields user a message locale public_url id now report made in
      let (new, room) = check_limits-ok reports user.id a.id now checked in
      subst IsLimited (sym e) (
        append-IsLimited reports report user.id a.id now limited of_user of_attempt at_now new room)

  reportable-ok :
      (db : Db) (user_id attempt_id : ℕ) (a : Attempt)
      → reportable registry db user_id attempt_id ≡ ok a
      → (load_owned registry db user_id attempt_id ≡ ok a)
        × (a.state ≡ answered)
        × (is_quiz (config_of registry (exercise_id_for_key registry a.exercise_id)) ≡ true)
  unfolding reportable
  reportable-ok db user_id attempt_id a h =
      elim (Result-cases (load_owned registry db user_id attempt_id)) [
        | inr (f, e) ↦ absurd (ground (arith, e, h))
        | inl (b, e) ↦ ground (arith, e, h)
      ]

  -- A report that is filed is about an answered attempt of the user in this course, at a question of a
  -- quiz, that had no report yet; it is stored after the others, which stay.
  pub file_report_effect :
      (db : Db) (reports : List QuestionReport) (user : User) (attempt_id : ℕ)
      (message locale public_url : String) (id now : ℕ) (report : QuestionReport)
      (reports' : List QuestionReport)
      → file_report tools registry db reports user attempt_id message locale public_url id now
        ≡ ok (report, reports')
      → (a : Attempt) × (load_owned registry db user.id attempt_id ≡ ok a)
        × (a.state ≡ answered)
        × (is_quiz (config_of registry (exercise_id_for_key registry a.exercise_id)) ≡ true)
        × (report.attempt_id ≡ a.id)
        × (find (about a.id) reports ≡ none)
        × (reports' ≡ reports ++ (report ∷ []))
  file_report_effect db reports user attempt_id message locale public_url id now report reports' h =
      let (a, allowed, checked, made, e) =
        file_steps db reports user attempt_id message locale public_url id now report reports' h in
      let (_, of_attempt, _) =
        report_of-fields user a message locale public_url id now report made in
      let (owned, state, quiz) = reportable-ok db user.id attempt_id a allowed in
      (a, owned, state, quiz, of_attempt, (check_limits-ok reports user.id a.id now checked).0, e)
