-- ===== src/Tasknotes/Reconcile/Composed.antt =====
-- What the composition keeps of the steps: for each target and slug an ensure wins over a remove,
-- ensures come before removes, and the bound holds (`_compose_reconcile_steps_impl` of
-- scripts/tasknotes_mcp_core.py).
use josemar_assistente.Base.{
  String, ◌≡◌, refl, sym, ap, ◌∙◌, Bool, true, false, not, ◌&&◌, ◌||◌, Option, List, [], ◌∷◌, ◌++◌,
  any, all, length, ltb, keep_if, arith, Bool-cases, inl, inr,
}
use josemar_assistente.Base.Dict.{Dict}
use josemar_assistente.Base.Result.{Result, ok, >>=-ok}
use josemar_assistente.Tasknotes.Reconcile.Net.{NetChange}
use josemar_assistente.Tasknotes.Reconcile.Batch.{max_daily_projection_targets}
use josemar_assistente.Tasknotes.Reconcile.Compose.{
  DailyNotesConfig, ComposedStep, ComposeError, differs_from, raw_steps, resolve_steps, is_at,
  is_ensure, place_step, place_steps, sort_steps, has_at, order_steps, within_bound,
  compose_reconcile_steps_impl,
}
use josemar_assistente.Tasknotes.Reconcile.Placed.{
  is_remove, ensures_at, removes_at, or_false, all-put_step, all-sort_steps, all-keep_if,
  any-append, any-all, any-none, any-sort_steps, has_at-keep_if, has_at-place_steps,
}

all-place_step :
    (b : Bool) (step : ComposedStep) (placed : List ComposedStep × List ComposedStep)
    → is_ensure step ≡ b
    → all is_ensure placed.0 ≡ true
    → all is_remove placed.1 ≡ true
    → (all is_ensure (place_step b step placed).0 ≡ true)
      × (all is_remove (place_step b step placed).1 ≡ true)
unfolding place_step
all-place_step true step placed one e r = (all-put_step is_ensure step placed.0 one e, r)
all-place_step false step placed one e r = (e, all-put_step is_remove step placed.1 (ap not one) r)

-- The two dictionaries hold only steps of their own kind.
all-place_steps :
    (steps : List ComposedStep) (placed : List ComposedStep × List ComposedStep)
    → all is_ensure placed.0 ≡ true
    → all is_remove placed.1 ≡ true
    → (all is_ensure (place_steps steps placed).0 ≡ true)
      × (all is_remove (place_steps steps placed).1 ≡ true)
unfolding place_steps
all-place_steps [] placed e r = (e, r)
all-place_steps (step ∷ steps) placed e r =
    let here = all-place_step (is_ensure step) step placed refl e r in
    all-place_steps steps (place_step (is_ensure step) step placed) here.0 here.1

all-not_remove :
    (xs : List ComposedStep) → all is_ensure xs ≡ true → all (λ x. not (is_remove x)) xs ≡ true
all-not_remove [] a = refl
all-not_remove (x ∷ xs) a = ground (arith, all-not_remove xs)

abbrev kept_removes : List ComposedStep × List ComposedStep → List ComposedStep
kept_removes placed = keep_if (λ x. not (has_at x.target_relative x.slug placed.0)) placed.1

module _ (target slug : String) (placed : List ComposedStep × List ComposedStep) where
  abbrev kept : List ComposedStep
  kept = kept_removes placed

  -- A test of the ordered steps is a test of the two dictionaries.
  any-order_steps :
      (test : ComposedStep → Bool)
      → any test (order_steps placed) ≡ (any test placed.0 || any test kept)
  unfolding order_steps
  any-order_steps test =
      any-append test (sort_steps placed.0) (sort_steps kept)
      ∙ (ap (λ (b : Bool). b || any test (sort_steps kept)) (any-sort_steps test placed.0)
          ∙ ap (λ (b : Bool). any test placed.0 || b) (any-sort_steps test kept))

  order_steps-at :
      all is_ensure placed.0 ≡ true
      → all is_remove placed.1 ≡ true
      → (ensures_at target slug (order_steps placed) ≡ has_at target slug placed.0)
        × (removes_at target slug (order_steps placed)
            ≡ (has_at target slug placed.1 && not (has_at target slug placed.0)))
  unfolding has_at
  order_steps-at e r =
      let no_ensure =
        any-none is_ensure (is_at target slug) kept (all-keep_if is_remove _ placed.1 r) in
      let no_remove = any-none is_remove (is_at target slug) placed.0 (all-not_remove placed.0 e) in
      (
        any-order_steps (λ x. is_ensure x && is_at target slug x)
            ∙ rw no_ensure (rw (any-all is_ensure (is_at target slug) placed.0 e) (or_false _)),
        any-order_steps (λ x. is_remove x && is_at target slug x)
            ∙ rw no_remove (
                any-all is_remove (is_at target slug) kept (all-keep_if is_remove _ placed.1 r)
                ∙ has_at-keep_if target slug placed.0 placed.1),
      )

within_bound-ok :
    (enforce : Bool) (steps composed : List ComposedStep)
    → within_bound enforce steps ≡ ok composed
    → (steps ≡ composed) × ((enforce && ltb max_daily_projection_targets (length composed)) ≡ false)
unfolding within_bound
within_bound-ok enforce steps composed e =
    elim (Bool-cases (enforce && ltb max_daily_projection_targets (length steps))) [
      | inl over ↦ let refused = (rw over at e) in grind arith
      | inr within ↦
          let passed = (rw within at e) in
          let unchanged : steps ≡ composed = grind arith in
          (
            unchanged,
            ap (λ (xs : List ComposedStep). enforce && ltb max_daily_projection_targets (length xs))
                  (sym unchanged)
                ∙ within,
          )
    ]

-- Where the composition succeeds, it ensures the link of a slug in a target exactly when some resolved
-- step does, and removes it exactly when some resolved step does and none ensures it.
pub compose_final :
    (resolve : DailyNotesConfig → String → Result ComposeError String) (config : DailyNotesConfig)
    (old : Option DailyNotesConfig) (nets : Dict NetChange) (enforce : Bool)
    (composed : List ComposedStep) (target slug : String)
    → compose_reconcile_steps_impl resolve config old nets enforce ≡ ok composed
    → (steps : List ComposedStep) × (resolve_steps resolve config old
          (raw_steps (differs_from config old) nets)
        ≡ ok steps)
      × (ensures_at target slug composed ≡ ensures_at target slug steps)
      × (removes_at target slug composed
          ≡ (removes_at target slug steps && not (ensures_at target slug steps)))
unfolding compose_reconcile_steps_impl has_at
compose_final resolve config old nets enforce composed target slug e =
    let raws = raw_steps (differs_from config old) nets in
    let parts = >>=-ok (resolve_steps resolve config old raws) _ composed e in
    let steps : List ComposedStep = parts.0 in
    let bounded = within_bound-ok enforce _ composed parts.2 in
    let own = all-place_steps steps ([], []) refl refl in
    let there = has_at-place_steps target slug steps ([], []) in
    let ordered = order_steps-at target slug (place_steps steps ([], [])) own.0 own.1 in
    let first = there.0 ∙ or_false (ensures_at target slug steps) in
    let second = there.1 ∙ or_false (removes_at target slug steps) in
    (
      steps,
      parts.1,
      ap (ensures_at target slug) (sym bounded.0) ∙ (ordered.0 ∙ first),
      ap (removes_at target slug) (sym bounded.0)
          ∙ (ordered.1
              ∙ (ap (λ (b : Bool). b && not (has_at target slug (place_steps steps ([], [])).0))
                    second
                  ∙ ap (λ (b : Bool). removes_at target slug steps && not b) first)),
    )

-- A composition that succeeds is the ensures, then the removes, and within the bound where that is
-- enforced.
pub compose_ordered :
    (resolve : DailyNotesConfig → String → Result ComposeError String) (config : DailyNotesConfig)
    (old : Option DailyNotesConfig) (nets : Dict NetChange) (enforce : Bool)
    (composed : List ComposedStep)
    → compose_reconcile_steps_impl resolve config old nets enforce ≡ ok composed
    → (ensures : List ComposedStep) × (removes : List ComposedStep) × (composed
        ≡ ensures ++ removes)
      × (all is_ensure ensures ≡ true)
      × (all is_remove removes ≡ true)
      × ((enforce && ltb max_daily_projection_targets (length composed)) ≡ false)
unfolding compose_reconcile_steps_impl order_steps
compose_ordered resolve config old nets enforce composed e =
    let raws = raw_steps (differs_from config old) nets in
    let parts = >>=-ok (resolve_steps resolve config old raws) _ composed e in
    let placed : List ComposedStep × List ComposedStep = place_steps parts.0 ([], []) in
    let bounded = within_bound-ok enforce _ composed parts.2 in
    let own = all-place_steps parts.0 ([], []) refl refl in
    (
      sort_steps placed.0,
      sort_steps (kept_removes placed),
      sym bounded.0,
      all-sort_steps is_ensure placed.0 own.0,
      all-sort_steps is_remove _ (all-keep_if is_remove _ placed.1 own.1),
      bounded.1,
    )
