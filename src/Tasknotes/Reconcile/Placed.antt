-- ===== src/Tasknotes/Reconcile/Placed.antt =====
-- The dictionaries, the sorting and the filter of the composition, as tests of their steps
-- (`_compose_reconcile_steps_impl` of scripts/tasknotes_mcp_core.py).
use josemar_assistente.Base.{
  String, ◌≡◌, refl, ap, ◌∙◌, Bool, true, false, not, ◌&&◌, ◌||◌, List, [], ◌∷◌, ◌++◌, any, all,
  keep_if, arith, eq_iff, Bool-cases, inl, inr,
}
use josemar_assistente.Tasknotes.Reconcile.Compose.{
  ComposedStep, is_at, put_step, is_ensure, place_step, place_steps, precedes, insert_step,
  sort_steps, has_at,
}

or_twice : (a c : Bool) → (a || c) ≡ (a || (a || c))
or_twice a c = ground arith

or_swap : (a b c : Bool) → (a || (b || c)) ≡ (b || (a || c))
or_swap a b c = ground arith

pub or_false : (a : Bool) → (a || false) ≡ a
or_false a = ground arith

or_move : (a b c : Bool) → (a || (b || c)) ≡ ((b || a) || c)
or_move a b c = ground arith

is_at-same :
    (target slug : String) (x y : ComposedStep)
    → is_at y.target_relative y.slug x ≡ true
    → is_at target slug x ≡ is_at target slug y
is_at-same target slug x y e =
    ground (arith, eq_iff x.target_relative y.target_relative, eq_iff x.slug y.slug)

has_at-put_step :
    (target slug : String) (step : ComposedStep) (xs : List ComposedStep)
    → has_at target slug (put_step step xs) ≡ (is_at target slug step || has_at target slug xs)
unfolding has_at put_step
has_at-put_step target slug step [] = refl
has_at-put_step target slug step (x ∷ xs) =
    elim (Bool-cases (is_at step.target_relative step.slug x)) [
      | inl same ↦ rw same (
          rw (is_at-same target slug x step same)
            (or_twice (is_at target slug step) (any (is_at target slug) xs)))
      | inr other ↦ rw other (
          rw (has_at-put_step target slug step xs)
            (or_swap (is_at target slug x) (is_at target slug step) (any (is_at target slug) xs)))
    ]

-- A test of the elements is not affected by sorting.
any-insert_step :
    (test : ComposedStep → Bool) (step : ComposedStep) (xs : List ComposedStep)
    → any test (insert_step step xs) ≡ (test step || any test xs)
unfolding insert_step
any-insert_step test step [] = refl
any-insert_step test step (x ∷ xs) = elim (Bool-cases (precedes x step)) [
  | inl first ↦
      rw first (rw (any-insert_step test step xs) (or_swap (test x) (test step) (any test xs)))
  | inr after ↦ rw after refl
]

pub any-sort_steps :
    (test : ComposedStep → Bool) (xs : List ComposedStep) → any test (sort_steps xs) ≡ any test xs
unfolding sort_steps
any-sort_steps test [] = refl
any-sort_steps test (x ∷ xs) =
    any-insert_step test x (sort_steps xs) ∙ ap (λ (b : Bool). test x || b) (any-sort_steps test xs)

pub all-put_step :
    (test : ComposedStep → Bool) (step : ComposedStep) (xs : List ComposedStep)
    → test step ≡ true
    → all test xs ≡ true
    → all test (put_step step xs) ≡ true
unfolding put_step
all-put_step test step [] t a = rw t refl
all-put_step test step (x ∷ xs) t a = ground (arith, all-put_step test step xs t)

all-insert_step :
    (test : ComposedStep → Bool) (step : ComposedStep) (xs : List ComposedStep)
    → test step ≡ true
    → all test xs ≡ true
    → all test (insert_step step xs) ≡ true
unfolding insert_step
all-insert_step test step [] t a = rw t refl
all-insert_step test step (x ∷ xs) t a = ground (arith, all-insert_step test step xs t)

pub all-sort_steps :
    (test : ComposedStep → Bool) (xs : List ComposedStep)
    → all test xs ≡ true
    → all test (sort_steps xs) ≡ true
unfolding sort_steps
all-sort_steps test [] a = refl
all-sort_steps test (x ∷ xs) a =
    all-insert_step test x (sort_steps xs) (ground arith) (all-sort_steps test xs (ground arith))

pub all-keep_if :
    (test keep : ComposedStep → Bool) (xs : List ComposedStep)
    → all test xs ≡ true
    → all test (keep_if keep xs) ≡ true
all-keep_if test keep [] a = refl
all-keep_if test keep (x ∷ xs) a = ground (arith, all-keep_if test keep xs)

pub any-append :
    (test : ComposedStep → Bool) (xs ys : List ComposedStep)
    → any test (xs ++ ys) ≡ (any test xs || any test ys)
any-append test [] ys = refl
any-append test (x ∷ xs) ys = ground (arith, any-append test xs ys)

pub any-all :
    (test f : ComposedStep → Bool) (xs : List ComposedStep)
    → all test xs ≡ true
    → any (λ x. test x && f x) xs ≡ any f xs
any-all test f [] a = refl
any-all test f (x ∷ xs) a = ground (arith, any-all test f xs)

pub any-none :
    (test f : ComposedStep → Bool) (xs : List ComposedStep)
    → all (λ x. not (test x)) xs ≡ true
    → any (λ x. test x && f x) xs ≡ false
any-none test f [] a = refl
any-none test f (x ∷ xs) a = ground (arith, any-none test f xs)

abbrev pub is_remove : ComposedStep → Bool
is_remove step = not (is_ensure step)

-- Some step ensures the link of the slug in the target, or removes it.
abbrev pub ensures_at : String → String → List ComposedStep → Bool
ensures_at target slug steps = any (λ x. is_ensure x && is_at target slug x) steps

abbrev pub removes_at : String → String → List ComposedStep → Bool
removes_at target slug steps = any (λ x. is_remove x && is_at target slug x) steps

module _ (target slug : String) where
  has_at-is_at :
      (ensures : List ComposedStep) (x : ComposedStep)
      → is_at target slug x ≡ true
      → has_at x.target_relative x.slug ensures ≡ has_at target slug ensures
  has_at-is_at ensures x e =
      ap (λ (t : String). has_at t x.slug ensures)
        ((eq_iff x.target_relative target).0 (ground arith))
      ∙ ap (λ (s : String). has_at target s ensures) ((eq_iff x.slug slug).0 (ground arith))

  pub has_at-keep_if :
      (ensures xs : List ComposedStep)
      → has_at target slug (keep_if (λ x. not (has_at x.target_relative x.slug ensures)) xs)
        ≡ (has_at target slug xs && not (has_at target slug ensures))
  unfolding has_at
  has_at-keep_if ensures [] = refl
  has_at-keep_if ensures (x ∷ xs) =
      ground (arith, has_at-keep_if ensures xs, has_at-is_at ensures x)

  -- A step that is put in its dictionary, after the steps that follow
  own :
      (others : Bool) (step : ComposedStep) (xs : List ComposedStep)
      → (others || has_at target slug (put_step step xs))
        ≡ ((is_at target slug step || others) || has_at target slug xs)
  own others step xs =
      ap (λ (b : Bool). others || b) (has_at-put_step target slug step xs)
      ∙ or_move others (is_at target slug step) (has_at target slug xs)

  has_at-place_step :
      (b : Bool) (step : ComposedStep) (first second : Bool)
      (placed : List ComposedStep × List ComposedStep)
      → ((first || has_at target slug (place_step b step placed).0)
          ≡ (((b && is_at target slug step) || first) || has_at target slug placed.0))
        × ((second || has_at target slug (place_step b step placed).1)
            ≡ (((not b && is_at target slug step) || second) || has_at target slug placed.1))
  unfolding place_step
  has_at-place_step true step first second placed = (own first step placed.0, refl)
  has_at-place_step false step first second placed = (refl, own second step placed.1)

  pub has_at-place_steps :
      (steps : List ComposedStep) (placed : List ComposedStep × List ComposedStep)
      → (has_at target slug (place_steps steps placed).0
          ≡ (ensures_at target slug steps || has_at target slug placed.0))
        × (has_at target slug (place_steps steps placed).1
            ≡ (removes_at target slug steps || has_at target slug placed.1))
  unfolding place_steps
  has_at-place_steps [] placed = (refl, refl)
  has_at-place_steps (step ∷ steps) placed =
      let later = has_at-place_steps steps (place_step (is_ensure step) step placed) in
      let here =
        has_at-place_step (is_ensure step) step (ensures_at target slug steps)
          (removes_at target slug steps) placed in
      (later.0 ∙ here.0, later.1 ∙ here.1)
