-- ===== src/Exercises/Random.antt =====
-- backend/src/tradeschool/exercises/base.py, `rng_for`, and what the generators use of `random.Random`: a
-- seed stands for a sequence of numbers, which is a parameter; `choice` and `shuffle` are the library's.
use tradeschool.Base.{
  ℕ, zero, suc, ◌+◌, ◌-◌, ◌%◌, ◌≡◌, refl, Bool, Option, none, some, List, [], ◌∷◌, length,
  get_elem?, Result, Failure, or_raise, count_if, arith, inl, inr, if◌then◌else◌, ap, ◌⊎◌, ◌∙◌,
}

module _ {ℓ} {A : Type ℓ} where
  -- `xs[i] = a`
  abbrev pub set_at : ℕ → A → List A → List A
  set_at i a [] = []
  set_at zero a (x ∷ xs) = a ∷ xs
  set_at (suc i) a (x ∷ xs) = x ∷ set_at i a xs

  -- `xs[i], xs[j] = xs[j], xs[i]`, with what was read at `i` and at `j`.
  abbrev pub write_both : Option A → Option A → ℕ → ℕ → List A → List A
  write_both (some a) (some b) i j xs = set_at j a (set_at i b xs)
  write_both none b i j xs = xs
  write_both (some a) none i j xs = xs

  pub swap : ℕ → ℕ → List A → List A
  swap i j xs = write_both (get_elem? xs i) (get_elem? xs j) i j xs

  -- The loop of `shuffle`, from the last place down to the second.
  unfoldable pub shuffle_down : (draws : ℕ → ℕ) → (step place : ℕ) → List A → List A
  unfolding swap
  shuffle_down draws step zero xs = xs
  shuffle_down draws step (suc i) xs =
      shuffle_down draws (suc step) i (swap (suc i) (draws step % suc (suc i)) xs)

  abbrev pub shuffle : (draws : ℕ → ℕ) → List A → List A
  shuffle draws xs = shuffle_down draws 0 (length xs - 1) xs

  -- `choice(xs)`
  abbrev pub choice : (draws : ℕ → ℕ) → List A → Result A
  choice draws xs = or_raise (get_elem? xs (draws 0 % length xs)) (Failure.other "IndexError")

  set_at-count :
      (test : A → Bool) (i : ℕ) (a b : A) (xs : List A)
      → get_elem? xs i ≡ some a
      → count_if test (set_at i b xs) + (if test a then 1 else 0)
        ≡ count_if test xs + (if test b then 1 else 0)
  set_at-count test i a b [] h = cc h
  set_at-count test zero a b (x ∷ xs) h = ground arith
  set_at-count test (suc i) a b (x ∷ xs) h = omega (arith, set_at-count test i a b xs h)

  -- What stands at a place after a write at another or at the same one.
  get_elem?-set_at :
      (i j : ℕ) (a b x : A) (xs : List A)
      → get_elem? xs i ≡ some a
      → get_elem? xs j ≡ some x
      → (get_elem? (set_at i b xs) j ≡ some x) ⊎ ((i ≡ j) × (get_elem? (set_at i b xs) j ≡ some b))
  get_elem?-set_at i j a b x [] h k = cc
  get_elem?-set_at zero zero a b x (y ∷ ys) h k = inr (refl, refl)
  get_elem?-set_at zero (suc j) a b x (y ∷ ys) h k = inl k
  get_elem?-set_at (suc i) zero a b x (y ∷ ys) h k = inl k
  get_elem?-set_at (suc i) (suc j) a b x (y ∷ ys) h k = elim (get_elem?-set_at i j a b x ys h k) [
    | inl e ↦ inl e
    | inr (e, f) ↦ inr (ap suc e, f)
  ]

  write_both-count :
      (test : A → Bool) (read_i read_j : Option A) (i j : ℕ) (xs : List A)
      → get_elem? xs i ≡ read_i
      → get_elem? xs j ≡ read_j
      → count_if test (write_both read_i read_j i j xs) ≡ count_if test xs
  write_both-count test none read_j i j xs h k = refl
  write_both-count test (some a) none i j xs h k = refl
  write_both-count test (some a) (some b) i j xs h k =
      let first = set_at-count test i a b xs h in
      elim (get_elem?-set_at i j a b b xs h k) [
        | inl f ↦ omega (arith, first, set_at-count test j b a (set_at i b xs) f)
        | inr (same, f) ↦ omega (arith, first, set_at-count test j b a (set_at i b xs) f)
      ]

  -- A shuffle keeps every element as often as it is there.
  pub shuffle_down-count :
      (test : A → Bool) (draws : ℕ → ℕ) (step place : ℕ) (xs : List A)
      → count_if test (shuffle_down draws step place xs) ≡ count_if test xs
  unfolding shuffle_down swap
  shuffle_down-count test draws step zero xs = refl
  shuffle_down-count test draws step (suc i) xs =
      shuffle_down-count test draws (suc step) i (swap (suc i) (draws step % suc (suc i)) xs)
      ∙ write_both-count test _ _ (suc i) (draws step % suc (suc i)) xs refl refl
