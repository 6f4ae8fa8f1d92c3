-- ===== src/Stats/Rows.antt =====
-- backend/src/tradeschool/stats/service.py, `me_stats`: the rows that the page of one learner shows, and the
-- variables of the loops that gather them.
use tradeschool.Base.{ℕ, String, Bool, Option, List, []}
use tradeschool.Stats.{Agg, empty_agg}

-- One entry of `toReview`.
pub record Review : Type 0 where
  pub exercise_id : String
  pub lesson_id : Option String
  pub incorrect : ℕ
  pub passed : Bool

-- One entry of `modules`.
pub record ModuleRow : Type 0 where
  pub id : String
  pub title : String
  pub block_id : String
  pub lessons_total : ℕ
  pub lessons_completed : ℕ
  pub exercises_total : ℕ
  pub exercises_passed : ℕ
  pub answered : ℕ
  pub accuracy : Option ℕ
  pub first_attempt_accuracy : Option ℕ
  pub correct : ℕ
  pub first_seen : ℕ
  pub first_correct : ℕ
  pub exercises_failed : ℕ
  pub to_review : List Review

-- One entry of `costly_src`.
pub record Costly : Type 0 where
  pub id : String
  pub title : String
  pub agg : Agg
  pub to_review : List Review

-- One entry of `costliestSections`.
pub record CostlyRow : Type 0 where
  pub module_id : String
  pub title : String
  pub incorrect : ℕ
  pub answered : ℕ
  pub correct : ℕ
  pub first_attempt_accuracy : Option ℕ
  pub first_seen : ℕ
  pub first_correct : ℕ
  pub exercises_failed : ℕ
  pub to_review : List Review

-- What the page shows.
pub record MeStats : Type 0 where
  pub published_modules : ℕ
  pub total_modules : ℕ
  pub published_lessons : ℕ
  pub lessons_completed : ℕ
  pub course_completion : Option ℕ
  pub overall : Agg
  pub accuracy : Option ℕ
  pub first_attempt_accuracy : Option ℕ
  pub avg_attempts_to_success : Option ℕ
  pub modules : List ModuleRow
  pub costliest_sections : List CostlyRow

-- The variables of the inner loop.
pub record Drill : Type 0 where
  pub agg : Agg
  pub overall : Agg
  pub to_review : List Review

-- The variables of the loop over the modules.
pub record Page : Type 0 where
  pub overall : Agg
  pub module_rows : List ModuleRow
  pub costly_src : List Costly
  pub published_lessons : ℕ
  pub completed_published : ℕ
  pub published_modules : ℕ
  pub total_modules : ℕ

abbrev pub empty_page : Page
empty_page = record {
  overall = empty_agg;
  module_rows = [];
  costly_src = [];
  published_lessons = 0;
  completed_published = 0;
  published_modules = 0;
  total_modules = 0;
}
