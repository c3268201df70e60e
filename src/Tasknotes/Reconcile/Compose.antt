-- ===== src/Tasknotes/Reconcile/Compose.antt =====
-- The composition of net changes into steps (`compose_reconcile_steps` and
-- `_compose_reconcile_steps_impl` of scripts/tasknotes_mcp_core.py). `resolve` is
-- `resolve_daily_note_path` with the collision test, for one routing and one date: the target
-- relative to the vault, or the error. The checks that arguments have their types are left to the
-- types here.
use josemar_assistente.Base.{
  String, Bool, true, false, not, ◌&&◌, ◌||◌, Option, none, some, List, [], ◌∷◌, ◌++◌, any, length,
  ltb, keep_if, str_eq, if◌then◌else◌,
}
use josemar_assistente.Base.Dict.{Dict, lookup, keys}
use josemar_assistente.Base.Order.{lt_text, sort}
use josemar_assistente.Base.Result.{Result, ok, err, ◌>>=◌}
use josemar_assistente.Tasknotes.Reconcile.Net.{NetClass, archive_move, unchanged, NetChange}
use josemar_assistente.Tasknotes.Reconcile.Batch.{max_daily_projection_targets}

pub record DailyNotesConfig : Type 0 where
  pub folder : String
  pub format : String
  pub template : Option String

-- `DAILY_PROJECTION_OP_ENSURE` and `DAILY_PROJECTION_OP_REMOVE`
pub data Operation : Type 0 where
  ensure remove : Operation

-- `RECONCILE_ROUTING_CURRENT` and `RECONCILE_ROUTING_PRIOR`
pub data Routing : Type 0 where
  current prior : Routing

-- An entry of the list `raw`
pub record RawStep : Type 0 where
  pub operation : Operation
  pub slug : String
  pub date : String
  pub routing : Routing

pub record ComposedStep : Type 0 where
  pub operation : Operation
  pub slug : String
  pub date : String
  pub routing : Routing
  pub target_relative : String

-- `ValidationError`, `CoreError`, and what the resolution raises
pub data ComposeError : Type 0 where
  validation_error core_error path_error : String → ComposeError

abbrev pub differs_from : DailyNotesConfig → Option DailyNotesConfig → Bool
differs_from config none = false
differs_from config (some old) =
    not (str_eq old.folder config.folder && str_eq old.format config.format)

abbrev pub is_kept : NetClass → Bool
is_kept unchanged = true
is_kept archive_move = true
is_kept cls = false

abbrev raw_step : Operation → Routing → String → String → RawStep
raw_step operation routing slug date = record {
  operation = operation;
  slug = slug;
  date = date;
  routing = routing;
}

-- A date that is absent or empty is none.
abbrev pub on_date : Option String → (String → List RawStep) → List RawStep
on_date none steps = []
on_date (some date) steps = if str_eq date "" then [] else steps date

unfoldable pub raw_of_net : Bool → String → NetChange → List RawStep
raw_of_net routing_changed slug net =
    let rehome =
      on_date net.current_scheduled
        (λ date. raw_step remove prior slug date ∷ raw_step ensure current slug date ∷ []) in
    on_date net.ensure_date (λ date. raw_step ensure current slug date ∷ [])
    ++ (on_date net.remove_date (λ date. raw_step remove prior slug date ∷ [])
        ++ (if routing_changed && is_kept net.cls then rehome else []))

-- `for slug in sorted(nets)`
unfoldable pub raw_steps_of : Bool → List String → Dict NetChange → List RawStep
raw_steps_of routing_changed [] nets = []
raw_steps_of routing_changed (slug ∷ slugs) nets =
    elim (lookup slug nets) [ none ↦ [] | some net ↦ raw_of_net routing_changed slug net ]
    ++ raw_steps_of routing_changed slugs nets

unfoldable pub raw_steps : Bool → Dict NetChange → List RawStep
raw_steps routing_changed nets = raw_steps_of routing_changed (sort (keys nets)) nets

unfoldable pub routing_of :
    DailyNotesConfig → Option DailyNotesConfig → Routing → Result ComposeError DailyNotesConfig
routing_of config old current = ok config
routing_of config none prior = err (validation_error "reconcile remove requires a prior routing")
routing_of config (some cfg) prior = ok cfg

module _ (resolve : DailyNotesConfig → String → Result ComposeError String) where
  unfoldable pub resolve_step :
      DailyNotesConfig → Option DailyNotesConfig → RawStep → Result ComposeError ComposedStep
  resolve_step config old raw = do
    cfg ← routing_of config old raw.routing
    target ← resolve cfg raw.date
    ok (record {
      operation = raw.operation;
      slug = raw.slug;
      date = raw.date;
      routing = raw.routing;
      target_relative = target;
    })

  unfoldable pub resolve_steps :
      DailyNotesConfig
      → Option DailyNotesConfig
      → List RawStep
      → Result ComposeError (List ComposedStep)
  resolve_steps config old [] = ok []
  resolve_steps config old (raw ∷ raws) = do
    step ← resolve_step config old raw
    steps ← resolve_steps config old raws
    ok (step ∷ steps)

-- The key `(target_relative, slug)`
abbrev pub is_at : String → String → ComposedStep → Bool
is_at target slug step = str_eq step.target_relative target && str_eq step.slug slug

-- `steps[key] = step`, in insertion order
unfoldable pub put_step : ComposedStep → List ComposedStep → List ComposedStep
put_step step [] = step ∷ []
put_step step (x ∷ xs) =
    let later = put_step step xs in
    if is_at step.target_relative step.slug x then step ∷ xs else x ∷ later

abbrev pub is_ensure : ComposedStep → Bool
is_ensure step = elim (step.operation) [ ensure ↦ true | remove ↦ false ]

-- A step goes to the dictionary `ensures` or to `removes`.
unfoldable pub place_step :
    Bool
    → ComposedStep
    → List ComposedStep × List ComposedStep
    → List ComposedStep × List ComposedStep
place_step true step placed = (put_step step placed.0, placed.1)
place_step false step placed = (placed.0, put_step step placed.1)

unfoldable pub place_steps :
    List ComposedStep
    → List ComposedStep × List ComposedStep
    → List ComposedStep × List ComposedStep
place_steps [] placed = placed
place_steps (step ∷ steps) placed = place_steps steps (place_step (is_ensure step) step placed)

abbrev pub precedes : ComposedStep → ComposedStep → Bool
precedes x y =
    lt_text x.target_relative y.target_relative
    || (str_eq x.target_relative y.target_relative && lt_text x.slug y.slug)

unfoldable pub insert_step : ComposedStep → List ComposedStep → List ComposedStep
insert_step step [] = step ∷ []
insert_step step (x ∷ xs) =
    let later = insert_step step xs in if precedes x step then x ∷ later else step ∷ x ∷ xs

-- `sorted(..., key=lambda s: (s.target_relative, s.slug))`
unfoldable pub sort_steps : List ComposedStep → List ComposedStep
sort_steps [] = []
sort_steps (x ∷ xs) = insert_step x (sort_steps xs)

unfoldable pub has_at : String → String → List ComposedStep → Bool
has_at target slug steps = any (is_at target slug) steps

unfoldable pub order_steps : List ComposedStep × List ComposedStep → List ComposedStep
order_steps placed =
    sort_steps placed.0
    ++ sort_steps (keep_if (λ x. not (has_at x.target_relative x.slug placed.0)) placed.1)

unfoldable pub within_bound : Bool → List ComposedStep → Result ComposeError (List ComposedStep)
within_bound enforce composed =
    if enforce && ltb max_daily_projection_targets (length composed)
    then err (core_error "reconcile transitions exceed target bound")
    else ok composed

unfoldable pub compose_reconcile_steps_impl :
    (DailyNotesConfig → String → Result ComposeError String)
    → DailyNotesConfig
    → Option DailyNotesConfig
    → Dict NetChange
    → Bool
    → Result ComposeError (List ComposedStep)
compose_reconcile_steps_impl resolve config old nets enforce = do
  steps ← resolve_steps resolve config old (raw_steps (differs_from config old) nets)
  within_bound enforce (order_steps (place_steps steps ([], [])))

unfoldable pub compose_reconcile_steps :
    (DailyNotesConfig → String → Result ComposeError String)
    → DailyNotesConfig
    → Option DailyNotesConfig
    → Dict NetChange
    → Result ComposeError (List ComposedStep)
compose_reconcile_steps resolve config old nets =
    compose_reconcile_steps_impl resolve config old nets true
