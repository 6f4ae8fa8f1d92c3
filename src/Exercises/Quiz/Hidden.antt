-- ===== src/Exercises/Quiz/Hidden.antt =====
-- backend/src/tradeschool/exercises/quiz.py, `generate`: what a question shows, for one solution and for
-- another, and what a shuffle keeps.
use tradeschool.Base.{
  ℕ, zero, suc, ◌%◌, String, ◌≡◌, refl, Bool, Option, none, some, List, [], ◌∷◌, map, length,
  get_elem?, length-map, Result, traverse, Option-cases, inl, inr,
}
use tradeschool.Content.Schema.{LocalizedText}
use tradeschool.Exercises.Quiz.{QuizKind, QuizOption, OrderItem, QuizVariant, QuizConfig, variant}
use tradeschool.Exercises.Quiz.Instance.{shuffled, option_entry, item_entry, payload_of, generate}

module _ {A B : Type 0} where
  get_elem?-map :
      (f : A → B) (xs : List A) (i : ℕ)
      → get_elem? (map f xs) i ≡ (elim (get_elem? xs i) [ none ↦ none | some a ↦ some (f a) ])
  get_elem?-map f [] i = refl
  get_elem?-map f (x ∷ xs) zero = refl
  get_elem?-map f (x ∷ xs) (suc i) = get_elem?-map f xs i

  traverse-same :
      (f g : A → Result B) (xs : List A) → ((x : A) → f x ≡ g x) → traverse f xs ≡ traverse g xs
  traverse-same f g [] h = refl
  traverse-same f g (x ∷ xs) h = rw (h x, traverse-same f g xs h) refl

-- Another solution: which options are correct, where an item belongs, whether the claim holds, and what
-- is explained.
pub record Solution : Type 0 where
  pub is_correct : String → Bool
  pub position_of : String → ℕ
  pub claim : Option Bool
  pub explained : Option LocalizedText

module _ (s : Solution) where
  abbrev pub other_option : QuizOption → QuizOption
  other_option o = record o { correct = s.is_correct o.id }

  abbrev pub other_item : OrderItem → OrderItem
  other_item i = record i { position = s.position_of i.id }

  abbrev pub other_variant : QuizVariant → QuizVariant
  other_variant v = record v {
    options = map other_option v.options;
    items = map other_item v.items;
    answer = s.claim;
    explanation = s.explained;
  }

  module _ (draw : ℕ → ℕ → ℕ) (locale : String) where
    option_entry-same :
        (options : List QuizOption) (i : ℕ)
        → option_entry draw (map other_option options) locale i ≡ option_entry draw options locale i
    option_entry-same options i = elim (Option-cases (get_elem? options i)) [
      | inl e ↦ rw (get_elem?-map other_option options i, e) refl
      | inr (o, e) ↦ rw (get_elem?-map other_option options i, e) refl
    ]

    item_entry-same :
        (items : List OrderItem) (i : ℕ)
        → item_entry draw (map other_item items) locale i ≡ item_entry draw items locale i
    item_entry-same items i = elim (Option-cases (get_elem? items i)) [
      | inl e ↦ rw (get_elem?-map other_item items i, e) refl
      | inr (o, e) ↦ rw (get_elem?-map other_item items i, e) refl
    ]

    payload_of-same :
        (v : QuizVariant) (seed : ℕ) (k : QuizKind)
        → payload_of draw (other_variant v) seed locale k ≡ payload_of draw v seed locale k
    payload_of-same v seed QuizKind.single_choice =
        rw
          (
            length-map other_option v.options,
            traverse-same _ _ (shuffled draw (length v.options) seed 0)
                (option_entry-same v.options),
          )
          refl
    payload_of-same v seed QuizKind.multi_select =
        rw
          (
            length-map other_option v.options,
            traverse-same _ _ (shuffled draw (length v.options) seed 0)
                (option_entry-same v.options),
          )
          refl
    payload_of-same v seed QuizKind.ordering =
        rw
          (
            length-map other_item v.items,
            traverse-same _ _ (shuffled draw (length v.items) seed 0) (item_entry-same v.items),
          )
          refl
    payload_of-same v seed QuizKind.true_false = refl
    payload_of-same v seed QuizKind.matching = refl

    -- Which options are correct, the positions of items, the truth of a claim and the explanation do
    -- not show in a question: another solution generates the same instance from the same seed.
    pub generate-other_variant :
        (config : QuizConfig) (seed : ℕ)
        → generate draw (record { variants = map other_variant config.variants }) seed locale
          ≡ generate draw config seed locale
    unfolding generate variant
    generate-other_variant config seed =
        elim (Option-cases (get_elem? config.variants (draw seed 0 % length config.variants))) [
          | inl e ↦
              rw
                (
                  length-map other_variant config.variants,
                  get_elem?-map other_variant config.variants
                      (draw seed 0 % length config.variants),
                  e,
                )
                refl
          | inr (v, e) ↦
              rw
                (
                  length-map other_variant config.variants,
                  get_elem?-map other_variant config.variants
                      (draw seed 0 % length config.variants),
                  e,
                  payload_of-same v seed v.kind,
                )
                refl
        ]
