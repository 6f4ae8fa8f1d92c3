-- ===== src/Enrollment/State.antt =====
-- backend/src/tradeschool/enrollment/service.py: loading and saving what a user has active.
use tradeschool.Base.{
  ℕ, ◌==◌, String, Bool, false, not, ◌||◌, Option, none, some, List, [], ◌∷◌, ◌++◌, map, select,
  find, all, contains, if◌then◌else◌, str_eq, is_some, opt_str_eq, Result, ok, err, app, ◌>>=◌,
  ◌>>◌, or_raise, raise_if, traverse, key_error,
}
use tradeschool.Base.Dict.{Dict, lookup, keys}
use tradeschool.Content.Registry.{CourseRegistry, slug, languages}
use tradeschool.Enrollment.{
  UserCourse, Unicode, Catalog, get, published, published_slugs, alphabetical, rows_of, row_at,
  reading_language,
}

-- `EnrollmentState`
pub record EnrollmentState : Type 0 where
  pub active : List String
  pub selected : Option String
  pub reading_languages : Dict String

abbrev pub first_of : List String → Option String
first_of [] = none
first_of (x ∷ xs) = some x

-- The part of a list behind the first place of a text: `xs[xs.index(s) + 1:]`.
abbrev pub behind : String → List String → List String
behind s [] = []
behind s (x ∷ xs) = let rest = behind s xs in if str_eq x s then xs else rest

-- The loop over the courses behind the previous one, or else the first active one.
abbrev pub next_active : List String → List String → Option String
next_active active after = elim (find (λ s. contains s active) after) [
  | none ↦ first_of active
  | some s ↦ some s
]

-- `_fallback_selection`
unfoldable pub fallback_selection :
    (ordered_active : List String) (previous : Option String) (ordered_all : List String)
    → Option String
fallback_selection [] previous ordered_all = none
fallback_selection (a ∷ others) none ordered_all = some a
fallback_selection (a ∷ others) (some previous) ordered_all =
    if contains previous ordered_all
    then next_active (a ∷ others) (behind previous ordered_all)
    else some a

-- Whether a course of the rows is active.
abbrev pub is_active_in : List UserCourse → String → Bool
is_active_in rows course_id = elim (row_at rows course_id) [ none ↦ false | some row ↦ row.active ]

-- The language that the row of a course has.
abbrev pub chosen_of : List UserCourse → String → Option String
chosen_of rows course_id = elim (row_at rows course_id) [
  | none ↦ none
  | some row ↦ row.reading_locale
]

-- The stored selection, if it is active, and else the first active course.
abbrev pub selected_of : List UserCourse → List String → Option String
selected_of rows active = elim (find (λ (row : UserCourse). row.selected) rows) [
  | none ↦ first_of active
  | some row ↦ if contains row.course_id active then some row.course_id else first_of active
]

module _ {Config : Type 0} (u : Unicode) (catalog : Catalog Config) (user_id : ℕ)
    (account_locale : String) where
  -- The language of one course.
  abbrev pub reading_entry : List UserCourse → CourseRegistry Config → Result (String × String)
  reading_entry rows registry = do
    language ← reading_language (languages registry) (chosen_of rows (slug registry)) account_locale
    ok (slug registry, language)

  unfoldable pub load_state : List UserCourse → Result EnrollmentState
  unfolding alphabetical
  load_state table = do
    let rows = rows_of user_id table
    courses ← alphabetical u catalog account_locale
    let active = select (is_active_in rows) (map slug courses)
    reading ← traverse (reading_entry rows) (published catalog)
    ok (record { active = active; selected = selected_of rows active; reading_languages = reading })

  -- A language that was chosen is one of its course.
  abbrev pub language_there : String × String → Result (Unit {0})
  language_there (course, locale) = do
    registry ← or_raise (get catalog course) key_error
    raise_if (not (contains locale (languages registry))) (app "LANGUAGE_NOT_AVAILABLE" 400)

  -- `_validate`
  unfoldable pub validate : List String → Dict String → Result (Unit {0})
  validate active choices = do
    raise_if (not (all (λ s. contains s (published_slugs catalog)) (active ++ keys choices)))
        (app "COURSE_NOT_FOUND" 404)
    traverse language_there choices
    ok tt

  -- The course that is selected after saving.
  unfoldable pub effective_of : (ordered active : List String) → Option String → Option String
  unfolding fallback_selection
  effective_of ordered active selected =
      let ordered_active = select (λ s. contains s active) ordered in
      let fallback = fallback_selection ordered_active selected ordered in
      elim selected [
        | none ↦ fallback
        | some s ↦ if contains s ordered_active then some s else fallback
      ]

  -- The body of the loop over the courses, for the row of one.
  abbrev pub saved : List String → Dict String → Option String → UserCourse → UserCourse
  saved active choices effective row = record row {
    active =
        if contains row.course_id (published_slugs catalog)
        then contains row.course_id active
        else row.active;
    selected = opt_str_eq (some row.course_id) effective;
    reading_locale = elim (lookup row.course_id choices) [
      | none ↦ row.reading_locale
      | some l ↦ some l
    ];
  }

  abbrev pub blank_row : String → UserCourse
  blank_row course_id = record {
    user_id = user_id;
    course_id = course_id;
    active = false;
    selected = false;
    reading_locale = none;
  }

  -- The courses that have no row yet, each once.
  abbrev pub fresh : List UserCourse → List String → List String
  fresh rows [] = []
  fresh rows (s ∷ ss) =
      let rest = fresh rows ss in
      if is_some (row_at rows s) || contains s ss then rest else s ∷ rest

  -- The rows of the user are rewritten, and new ones added.
  abbrev pub write_rows :
      List String → Dict String → Option String → List UserCourse → List UserCourse
  write_rows active choices effective table =
      map (λ row. if row.user_id == user_id then saved active choices effective row else row) table
      ++ map (λ s. saved active choices effective (blank_row s))
          (fresh (rows_of user_id table) (active ++ keys choices))

  -- `save_state`, to its commit.
  unfoldable pub save_rows :
      List UserCourse
      → (active : List String) (selected : Option String) (choices : Dict String)
      → Result (List UserCourse)
  unfolding validate alphabetical effective_of
  save_rows table active selected choices = do
    validate active choices
    courses ← alphabetical u catalog account_locale
    ok (write_rows active choices (effective_of (map slug courses) active selected) table)

  unfoldable pub save_state :
      List UserCourse
      → (active : List String) (selected : Option String) (choices : Dict String)
      → Result EnrollmentState × List UserCourse
  unfolding save_rows load_state
  save_state table active selected choices = elim (save_rows table active selected choices) [
    | err e ↦ (err e, table)
    | ok table' ↦ (load_state table', table')
  ]

  -- `enroll_at_signup`
  pub enroll_at_signup : List UserCourse → List String → Result (Unit {0}) × List UserCourse
  enroll_at_signup table [] = (ok tt, table)
  enroll_at_signup table (c ∷ cs) =
      let (state, table') = save_state table (c ∷ cs) none [] in
      (elim state [ ok _ ↦ ok tt | err e ↦ err e ], table')
