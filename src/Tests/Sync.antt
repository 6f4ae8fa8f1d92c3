-- ===== src/Tests/Sync.antt =====
-- The small course reconciled into tables that hold an old lesson of it and a row of another course.
use tradeschool.Base.{
  ◌≡◌, ◌≢◌, refl, String, true, false, [], ◌∷◌, Result, ok, err, str_eq, str_eq_iff, contains,
  arith,
}
use tradeschool.Base.Dict.{lookup, insert, insert_all}
use tradeschool.Content.Schema.{validate_structure}
use tradeschool.Content.Registry.{build}
use tradeschool.Content.Sync.{Tables, no_changes, reconcile, reconcile_catalog}
use tradeschool.Content.Sync.Upsert.{SyncSummary, enter, retire, upsert}
use tradeschool.Content.Sync.Models.{
  skeleton, course_differs, block_differs, module_differs, lesson_differs, exercise_differs,
}
use tradeschool.Content.Sync.Twice.{IsSynced, rows_of, reconcile_other}
use tradeschool.Content.Sync.Synced.{expected, reconcile-IsSynced}
use tradeschool.Tests.Content.{manifest-IsWellFormed}
use tradeschool.Content.Sync.Steady.{reconcile_catalog_twice}
use tradeschool.Content.Sync.Kept.{IsKept, reconcile-IsKept}
use tradeschool.Content.Sync.Total.{reconcile_total}
use tradeschool.Tests.Sample.{manifest, registry}

abbrev before : Tables
before = record {
  courses = record { id = "stocks"; active = true; attrs = record { order_index = 2 } } ∷ [];
  blocks = [];
  modules = [];
  lessons =
      record {
        id = "m01-old";
        active = true;
        attrs = record { course_id = "crypto"; module_id = "k01"; order_index = 9 };
      }
      ∷ record {
        id = "m01-l1";
        active = false;
        attrs = record { course_id = "stocks"; module_id = "s01"; order_index = 1 };
      }
      ∷ [];
  exercises = [];
}

run : Result (Tables × SyncSummary)
unfolding reconcile skeleton upsert str_eq lookup insert insert_all course_differs block_differs
    module_differs lesson_differs exercise_differs enter retire
run = reconcile manifest 1 before

abbrev value_or : {A : Type 0} → Result A → A → A
value_or (ok a) d = a
value_or (err e) d = d

abbrev after : Tables × SyncSummary
unfolding run
after = value_or run (before, no_changes)

succeeds : reconcile manifest 1 before ≡ ok after
unfolding run
succeeds = refl

-- Nine rows are new, and the old lesson goes inactive.
counts : after.1 ≡ record { inserted = 9; updated = 0; deactivated = 1 }
unfolding run
counts = refl

reconcile-IsSynced_example : IsSynced "crypto" (expected manifest 1) (rows_of "crypto" after.0)
reconcile-IsSynced_example =
    reconcile-IsSynced manifest 1 before after.0 after.1 manifest-IsWellFormed succeeds

another : ◌≢◌ {A = String} "stocks" "crypto"
unfolding str_eq
another e = ground (arith, (str_eq_iff "stocks" "crypto").1 e)

reconcile_other_example : rows_of "stocks" after.0 ≡ rows_of "stocks" before
reconcile_other_example =
    reconcile_other manifest 1 before after.0 after.1 "stocks" succeeds another

reconcile-IsKept_example : IsKept before after.0
reconcile-IsKept_example = reconcile-IsKept manifest 1 before after.0 after.1 succeeds

valid : validate_structure manifest ≡ ok manifest
unfolding validate_structure str_eq contains
valid = refl

reconcile_total_example :
    (result : Tables × SyncSummary) × (reconcile manifest 1 before ≡ ok result)
reconcile_total_example = reconcile_total manifest 1 before valid

-- The catalogue of that one course: the other one left it.
catalog_run : Result (Tables × SyncSummary)
unfolding reconcile_catalog run registry build
catalog_run = reconcile_catalog (registry ∷ []) before

abbrev catalog_after : Tables × SyncSummary
unfolding catalog_run
catalog_after = value_or catalog_run (before, no_changes)

catalog_succeeds : reconcile_catalog (registry ∷ []) before ≡ ok (catalog_after.0, catalog_after.1)
unfolding catalog_run
catalog_succeeds = refl

catalog_counts : catalog_after.1 ≡ record { inserted = 9; updated = 0; deactivated = 2 }
unfolding catalog_run contains
catalog_counts = refl

reconcile_catalog_twice_example :
    reconcile_catalog (registry ∷ []) catalog_after.0 ≡ ok (catalog_after.0, no_changes)
unfolding contains
reconcile_catalog_twice_example =
    reconcile_catalog_twice (registry ∷ []) before catalog_after.0 catalog_after.1 (refl, tt)
      catalog_succeeds
