-- ===== src/Enrollment.antt =====
-- backend/src/tradeschool/enrollment and content/registry.py (`Catalog`): the active courses of a user, the
-- one that is selected, and the language to read each one in. What Python knows of Unicode is a parameter.
pub mod State
pub mod Choice
pub mod Selected
use tradeschool.Base.{
  ℕ, ◌==◌, String, Bool, true, false, not, ◌&&◌, ◌||◌, Option, none, some, List, [], ◌∷◌, ◌++◌, map,
  select, find, contains, if◌then◌else◌, str_eq, or_else, Result, ok, err, Failure, ◌>>=◌, ◌>>◌,
  or_raise, traverse, get_elem?,
}
use tradeschool.Content.Schema.{LocalizedText, get_text}
use tradeschool.Content.Registry.{CourseRegistry, slug, languages, is_published}
use tradeschool.Exercises.Quiz.Grade.{is_after}
use Prim.Native.String
use Prim.Native.String.{compare}
use Prim.Native.Char.{Char}

-- `UserCourse`
pub record UserCourse : Type 0 where
  pub user_id : ℕ
  pub course_id : String
  pub active : Bool
  pub selected : Bool
  pub reading_locale : Option String

-- `str.casefold`, `unicodedata.normalize("NFD", ...)`, and whether a character is a mark.
pub record Unicode : Type 0 where
  pub casefold : String → String
  pub normalize : String → String
  pub is_mark : Char → Bool

-- `"".join(c for c in s if not is_mark(c))`
abbrev pub without_marks : (Char → Bool) → String → String
without_marks is_mark Prim.Native.String.[] = Prim.Native.String.[]
without_marks is_mark (Prim.Native.String.◌∷◌ c s) =
    let rest = without_marks is_mark s in if is_mark c then rest else Prim.Native.String.◌∷◌ c rest

-- `alphabetical_key`
pub alphabetical_key : Unicode → String → String
alphabetical_key u value = without_marks u.is_mark (u.normalize (u.casefold value))

-- `sorted(xs, key=...)` with texts for keys.
pub insert_by_text : {A : Type 0} → (A → String) → A → List A → List A
insert_by_text key a [] = a ∷ []
insert_by_text key a (x ∷ xs) =
    let rest = insert_by_text key a xs in
    if is_after (compare (key a) (key x)) then x ∷ rest else a ∷ x ∷ xs

pub sort_by_text : {A : Type 0} → (A → String) → List A → List A
unfolding insert_by_text
sort_by_text key [] = []
sort_by_text key (x ∷ xs) = insert_by_text key x (sort_by_text key xs)

-- `course_languages[0]`
abbrev pub first_language : List String → Result String
first_language langs = or_raise (get_elem? langs 0) (Failure.other "IndexError")

-- `reading_language`
abbrev pub reading_language :
    List String → Option String → (account_locale : String) → Result String
reading_language langs none account =
    if contains account langs then ok account else first_language langs
reading_language langs (some chosen) account =
    if contains chosen langs
    then ok chosen
    else if contains account langs
    then ok account
    else first_language langs

-- The course of a user in the table.
abbrev pub is_row : ℕ → String → UserCourse → Bool
is_row user_id course_id row = row.user_id == user_id && str_eq row.course_id course_id

-- `_rows`
abbrev pub rows_of : ℕ → List UserCourse → List UserCourse
rows_of user_id = select (λ row. row.user_id == user_id)

-- `rows.get(slug)`
abbrev pub row_at : List UserCourse → String → Option UserCourse
row_at rows course_id = find (λ row. str_eq row.course_id course_id) rows

-- `Catalog`: the courses in the order of loading, each under its slug.
pub record Catalog (Config : Type 0) : Type 0 where
  pub courses : List (CourseRegistry Config)

module _ {Config : Type 0} where
  -- `Catalog.get`
  abbrev pub get : Catalog Config → String → Option (CourseRegistry Config)
  get catalog course = find (λ r. str_eq (slug r) course) catalog.courses

  -- `Catalog.published`
  abbrev pub published : Catalog Config → List (CourseRegistry Config)
  published catalog = select is_published catalog.courses

  -- `Catalog.published_slugs`
  abbrev pub published_slugs : Catalog Config → List String
  published_slugs catalog = map slug (published catalog)

  -- `course_text_locale`
  abbrev pub course_text_locale : CourseRegistry Config → String → Result String
  course_text_locale registry locale =
      if contains locale (languages registry)
      then ok locale
      else first_language (languages registry)

  -- The key of the order: the title in the language, folded.
  abbrev pub title_key :
      Unicode → String → CourseRegistry Config → Result (String × CourseRegistry Config)
  title_key u locale registry = do
    shown ← course_text_locale registry locale
    title ← get_text registry.manifest.course.title shown
    ok (alphabetical_key u title, registry)

  -- `alphabetical`
  unfoldable pub alphabetical :
      Unicode → Catalog Config → (locale : String) → Result (List (CourseRegistry Config))
  unfolding alphabetical_key sort_by_text
  alphabetical u catalog locale = do
    keyed ← traverse (title_key u locale) (published catalog)
    ok (map (λ e. e.1) (sort_by_text (λ e. e.0) keyed))
