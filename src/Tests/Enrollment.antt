-- ===== src/Tests/Enrollment.antt =====
-- A learner of the small course.
use tradeschool.Base.{
  ◌≡◌, refl, arith, none, some, [], ◌∷◌, true, false, ok, err, Result, contains, str_eq,
}
use tradeschool.Content.Schema.{get_text}
use tradeschool.Enrollment.{UserCourse, Unicode, Catalog}
use tradeschool.Enrollment.State.{EnrollmentState, fallback_selection, load_state, save_state}
use tradeschool.Enrollment.Choice.{IsSelection, fallback_selection-active, load_state-IsSelection}
use tradeschool.Enrollment.Selected.{
  HasSingleRows, HasSingleSelection, save_state-HasSingleSelection,
}
use tradeschool.Tests.Sample.{registry, program}

abbrev plain : Unicode
plain = record { casefold = λ s. s; normalize = λ s. s; is_mark = λ c. false }

abbrev catalog : Catalog (Unit {0})
catalog = record { courses = registry ∷ [] }

abbrev row : UserCourse
row = record {
  user_id = 7;
  course_id = "crypto";
  active = true;
  selected = false;
  reading_locale = some "es";
}

abbrev value_of : {A : Type 0} → Result A → A → A
value_of (ok a) d = a
value_of (err e) d = d

abbrev state : EnrollmentState
state =
    value_of (load_state plain catalog 7 "en" (row ∷ []))
      (record { active = []; selected = none; reading_languages = [] })

loads : load_state plain catalog 7 "en" (row ∷ []) ≡ ok state
unfolding program load_state get_text
loads = refl

single_rows : HasSingleRows (row ∷ [])
single_rows u c = ground arith

single_selection : HasSingleSelection (row ∷ [])
single_selection u = ground arith

follows : fallback_selection ("b" ∷ "c" ∷ []) (some "a") ("a" ∷ "b" ∷ "c" ∷ []) ≡ some "b"
unfolding fallback_selection contains str_eq
follows = refl

load_state-IsSelection_example : IsSelection state.active state.selected
load_state-IsSelection_example = load_state-IsSelection plain catalog 7 "en" (row ∷ []) state loads

fallback_selection-active_example : contains "b" ("b" ∷ "c" ∷ []) ≡ true
fallback_selection-active_example =
    fallback_selection-active ("b" ∷ "c" ∷ []) (some "a") ("a" ∷ "b" ∷ "c" ∷ []) "b" follows

save_state-HasSingleSelection_example :
    HasSingleRows (save_state plain catalog 7 "en" (row ∷ []) ("crypto" ∷ []) (some "crypto") []).1
    × HasSingleSelection
        (save_state plain catalog 7 "en" (row ∷ []) ("crypto" ∷ []) (some "crypto") []).1
save_state-HasSingleSelection_example =
    save_state-HasSingleSelection plain catalog 7 "en" (row ∷ []) ("crypto" ∷ []) (some "crypto") []
      single_rows single_selection
