-- ===== src/Content/Registry/Complete.antt =====
-- backend/src/tradeschool/content/registry.py: what the pages of a valid course look up is found, and
-- a text in a language of the course is there.
use tradeschool.Base.{
  String, Bool, true, false, ◌&&◌, not, str_eq, none, some, List, [], ◌∷◌, ◌++◌, map, ℕ, ◌≡◌, ◌∙◌,
  refl, ap, arith, contains, contains-cons, flat_map, all, All, All-map_left, enumerate, Result, ok,
  traverse, str_eq_iff, inl, inr, Bool-cases, any, if◌then◌else◌, suc, Option-cases,
}
use tradeschool.Base.Dict.{Dict, lookup, insert_all, keys, lookup-insert_all_nil}
use tradeschool.Content.Schema.{
  ExerciseType, LocalizedText, get_text, text_languages, Lesson, CourseModule, Block, Manifest,
  block_modules, iter_modules, module_ids, assumes_known,
}
use tradeschool.Content.Schema.Ids.{IsWellFormed, id_parts}
use tradeschool.Content.Registry.{
  CourseRegistry, build, add_exercise, enter_lesson, enter_module, unmet, unmet_prereqs,
}
use tradeschool.Content.Registry.Maps.{build-insert_all}
use tradeschool.Content.Registry.Entries.{module_entry, keys-module_entries}
use tradeschool.Content.Registry.Keys.{only_modules}

-- The texts of a block, its modules and its lessons all carry the language.
abbrev pub speaks : String → LocalizedText → Bool
speaks locale t = contains locale (text_languages t)

abbrev pub translated_lesson : String → Lesson → Bool
translated_lesson locale l = speaks locale l.title && speaks locale l.summary

abbrev pub translated_module : String → CourseModule → Bool
translated_module locale m =
    speaks locale m.title && speaks locale m.summary && all (translated_lesson locale) m.lessons

abbrev pub translated_block : String → Block → Bool
translated_block locale b = speaks locale b.title && all (translated_module locale) b.modules

not_in_spanish : (t : LocalizedText) → t.es ≡ none → speaks "es" t ≡ false
unfolding text_languages contains str_eq
not_in_spanish t n = elim (Option-cases t.en) [
  | inl m ↦ rw (n, m) refl
  | inr (x, m) ↦ rw (n, m) refl
]

pub get_text_total :
    (locale : String) (t : LocalizedText)
    → speaks locale t ≡ true
    → (s : String) × (get_text t locale ≡ ok s)
unfolding get_text text_languages contains
get_text_total locale t h = elim (Bool-cases (str_eq locale "es")) [
  | inl e ↦ elim (Option-cases t.es) [
    | inl n ↦ absurd (
        ground (
          arith,
          h,
          ap (λ l. contains l (text_languages t)) ((str_eq_iff locale "es").0 e),
          not_in_spanish t n,
        ))
    | inr (s, y) ↦ (s, ground (arith, e, y))
  ]
  | inr e ↦ elim (Option-cases t.en) [
    | inl n ↦ absurd (ground (arith, h, n, e))
    | inr (s, y) ↦ (s, ground (arith, e, y))
  ]
]

-- A comprehension whose body answers on every element, with what its answers have in common.
module _ {A B : Type 0} (f : A → Result B) (P : A → Type 0) (Q : B → Type 0)
    (step : (x : A) → P x → (y : B) × (f x ≡ ok y) × Q y) where
  pub traverse_total : (xs : List A) → All P xs → (ys : List B) × (traverse f xs ≡ ok ys) × All Q ys
  traverse_total [] h = ([], refl, tt)
  traverse_total (x ∷ xs) h =
      let (y, e, q) = step x h.0 in
      let (ys, es, qs) = traverse_total xs h.1 in (y ∷ ys, rw (e, es) refl, (q, qs))

pub All-enumerate :
    {A : Type 0} (P : A → Type 0) (n : ℕ) (xs : List A)
    → All P xs
    → All (λ (_, x). P x) (enumerate n xs)
All-enumerate P n [] h = tt
All-enumerate P n (x ∷ xs) h = (h.0, All-enumerate P (suc n) xs h.1)

pub all-All :
    {A : Type 0} (test : A → Bool) (xs : List A) → all test xs ≡ true → All (λ x. test x ≡ true) xs
all-All test [] h = tt
all-All test (x ∷ xs) h = (ground (arith, h), all-All test xs (ground (arith, h)))

pub All-pair :
    {A : Type 0} (P Q : A → Type 0) (xs : List A) → All P xs → All Q xs → All (λ x. P x × Q x) xs
All-pair P Q [] h k = tt
All-pair P Q (x ∷ xs) h k = ((h.0, k.0), All-pair P Q xs h.1 k.1)

-- Everything listed is found in the list.
pub contains_own :
    {A : Type 0} (f : A → String) (xs : List A) → All (λ x. contains (f x) (map f xs) ≡ true) xs
contains_own f [] = tt
contains_own f (x ∷ xs) = (
  rw (contains-cons (f x) (f x) (map f xs)) (ground (arith, str_eq_iff (f x) (f x))),
  All-map_left (λ y. contains (f y) (map f xs) ≡ true) (λ y. contains (f y) (f x ∷ map f xs) ≡ true)
      xs (λ y h. ground (arith, h, contains-cons (f y) (f x) (map f xs))) (contains_own f xs),
)

-- From the modules of the whole course to those of each block.
module _ (P : Block × CourseModule → Type 0) where
  own_modules :
      (b : Block) (ms : List CourseModule) (rest : List (Block × CourseModule))
      → All P (map (λ m. (b, m)) ms ++ rest)
      → All (λ m. P (b, m)) ms × All P rest
  own_modules b [] rest h = (tt, h)
  own_modules b (m ∷ ms) rest h =
      let (own, others) = own_modules b ms rest h.1 in ((h.0, own), others)

  pub by_block :
      (bs : List Block)
      → All P (flat_map block_modules bs)
      → All (λ b. All (λ m. P (b, m)) b.modules) bs
  by_block [] h = tt
  by_block (b ∷ bs) h =
      let (own, others) = own_modules b b.modules (flat_map block_modules bs) h in
      (own, by_block bs others)

-- What is listed is found, with what all the values have in common.
pub contains-keys-lookup :
    {V : Type 0} (P : V → Type 0) (k : String) (d : Dict V)
    → All (λ (_, v). P v) d
    → contains k (keys d) ≡ true
    → (v : V) × (lookup k d ≡ some v) × P v
unfolding lookup contains
contains-keys-lookup P k [] p h = cc
contains-keys-lookup P k ((j, w) ∷ d) p h = elim (Bool-cases (str_eq k j)) [
  | inl e ↦ (w, rw e refl, p.0)
  | inr e ↦ rw e (contains-keys-lookup P k d p.1 (rw e at h))
]

pub All-module_entry :
    (P : Block × CourseModule → Type 0) (bms : List (Block × CourseModule))
    → All P bms
    → All (λ (_, v). P v) (flat_map (module_entry (λ m. m.id) (λ b m. (b, m))) bms)
All-module_entry P [] h = tt
All-module_entry P (bm ∷ bms) h = (h.0, All-module_entry P bms h.1)

-- Every module that a module assumes is one of the course.
abbrev Known : List String → Block × CourseModule → Type 0
Known ids (_, m) = All (λ dep. contains dep ids ≡ true) m.assumes

assumes_known-Known :
    (ids : List String) (bm : Block × CourseModule) → assumes_known ids bm ≡ true → Known ids bm
assumes_known-Known ids (b, m) h =
    All-map_left (λ dep. (contains dep ids && not (str_eq dep m.id)) ≡ true)
      (λ dep. contains dep ids ≡ true) m.assumes (λ dep e. ground (arith, e))
      (all-All (λ dep. contains dep ids && not (str_eq dep m.id)) m.assumes h)

-- The map of the modules of a registry, on a well-formed manifest.
module _ {Config : Type 0} (manifest : Manifest) (markdown : Dict (Dict String))
    (configs : Dict (ExerciseType × Config)) (w : IsWellFormed manifest) where
  pub modules-build :
      (build manifest markdown configs).modules
      ≡ insert_all (flat_map (module_entry (λ m. m.id) (λ b m. (b, m))) (iter_modules manifest)) []
  unfolding add_exercise enter_lesson enter_module insert_all
  modules-build =
      build-insert_all (λ (r : CourseRegistry Config). r.modules) (λ b m l ex. []) (λ b m l. [])
        (λ b m. (m.id, (b, m)) ∷ [])
        (record {
          on_exercise = λ b m l r ex. refl;
          on_lesson = λ b m r l. refl;
          on_module = λ b m r. refl;
        })
        manifest markdown configs
      ∙ ap (λ ps. insert_all ps [])
          (only_modules (module_entry (λ m. m.id) (λ b m. (b, m))) (iter_modules manifest))

  abbrev pub entries : List (String × (Block × CourseModule))
  entries = flat_map (module_entry (λ m. m.id) (λ b m. (b, m))) (iter_modules manifest)

  pub keys_listed : keys entries ≡ module_ids manifest
  keys_listed =
      keys-module_entries {V = Block × CourseModule} (λ m. m.id) (λ b m. (b, m))
        (iter_modules manifest)

  iter_modules-Known : All (Known (module_ids manifest)) (iter_modules manifest)
  iter_modules-Known =
      All-map_left (λ bm. assumes_known (module_ids manifest) bm ≡ true)
        (Known (module_ids manifest)) (iter_modules manifest)
        (assumes_known-Known (module_ids manifest))
        (all-All (assumes_known (module_ids manifest)) (iter_modules manifest) w.known)

  pub module_found :
      (id : String)
      → contains id (module_ids manifest) ≡ true
      → (bm : Block × CourseModule) × (lookup id (build manifest markdown configs).modules
          ≡ some bm)
        × Known (module_ids manifest) bm
  module_found id h =
      rw (modules-build, lookup-insert_all_nil id entries (rw keys_listed (id_parts manifest w).0))
        (contains-keys-lookup (Known (module_ids manifest)) id entries
          (All-module_entry (Known (module_ids manifest)) (iter_modules manifest)
            iter_modules-Known)
          (rw keys_listed h))

  unmet_total :
      (completed deps : List String)
      → All (λ dep. contains dep (module_ids manifest) ≡ true) deps
      → (ids : List String) × (unmet (build manifest markdown configs) completed deps ≡ ok ids)
  unfolding unmet
  unmet_total completed [] h = ([], refl)
  unmet_total completed (dep ∷ deps) h =
      let ((b, m), found, _) = module_found dep h.0 in
      let (rest, e) = unmet_total completed deps h.1 in
      (
        if any (λ id. contains id completed) (map (λ l. l.id) m.lessons) then rest else dep ∷ rest,
        rw (found, e) refl,
      )

  pub unmet_prereqs_total :
      (completed : List String) (id : String)
      → contains id (module_ids manifest) ≡ true
      → (ids : List String) × (unmet_prereqs (build manifest markdown configs) id completed
          ≡ ok ids)
  unfolding unmet_prereqs
  unmet_prereqs_total completed id h =
      let ((b, m), found, known) = module_found id h in
      let (ids, e) = unmet_total completed m.assumes known in (ids, rw (found, e) refl)
