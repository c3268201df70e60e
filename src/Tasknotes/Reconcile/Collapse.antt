-- ===== src/Tasknotes/Reconcile/Collapse.antt =====
-- Two tasks whose dates share one target, as with a weekly note (scripts/tasknotes_mcp_core.py).
use josemar_assistente.Base.{
  String, ◌≡◌, refl, true, false, not, ◌&&◌, none, some, List, [], ◌∷◌, ◌++◌, all, ltb, length,
}
use josemar_assistente.Base.Dict.{Dict, lookup, keys}
use josemar_assistente.Base.Order.{insert_text, sort}
use josemar_assistente.Base.Result.{Result, ok}
use josemar_assistente.Tasknotes.Reconcile.Net.{NetChange, net_change, rescheduled, removed}
use josemar_assistente.Tasknotes.Reconcile.Batch.{max_daily_projection_targets}
use josemar_assistente.Tasknotes.Reconcile.Compose.{
  DailyNotesConfig, ensure, remove, current, prior, ComposedStep, ComposeError, raw_of_net,
  raw_steps_of, raw_steps, routing_of, resolve_step, resolve_steps, put_step, is_ensure, place_step,
  place_steps, insert_step, sort_steps, has_at, order_steps, within_bound, differs_from,
  compose_reconcile_steps_impl,
}
use josemar_assistente.Tasknotes.Reconcile.Placed.{is_remove, ensures_at, removes_at}
use josemar_assistente.Tasknotes.Reconcile.Composed.{compose_final, compose_ordered}

abbrev weekly : DailyNotesConfig
weekly = record { folder = "weekly"; format = "YYYY-ww"; template = none }

abbrev resolve : DailyNotesConfig → String → Result ComposeError String
resolve config date = ok config.folder

abbrev nets : Dict NetChange
nets =
    ("b", record (net_change removed) { remove_date = some "2026-03-02" })
    ∷ (
      "a",
      record (net_change rescheduled) {
        current_scheduled = some "2026-03-03";
        ensure_date = some "2026-03-03";
        remove_date = some "2026-03-02";
      },
    )
    ∷ []

abbrev ensured : ComposedStep
ensured = record {
  operation = ensure;
  slug = "a";
  date = "2026-03-03";
  routing = current;
  target_relative = "weekly";
}

abbrev dropped : ComposedStep
dropped = record {
  operation = remove;
  slug = "b";
  date = "2026-03-02";
  routing = prior;
  target_relative = "weekly";
}

composed :
    compose_reconcile_steps_impl resolve weekly (some weekly) nets true
    ≡ ok (ensured ∷ dropped ∷ [])
unfolding compose_reconcile_steps_impl raw_of_net raw_steps_of raw_steps routing_of resolve_step
    resolve_steps put_step place_step place_steps insert_step sort_steps has_at order_steps
    within_bound lookup keys sort insert_text
composed = refl

compose_final_example :
    (steps : List ComposedStep) × (resolve_steps resolve weekly
        (some weekly)
        (raw_steps (differs_from weekly (some weekly)) nets)
      ≡ ok steps)
    × (ensures_at "weekly" "a" (ensured ∷ dropped ∷ []) ≡ ensures_at "weekly" "a" steps)
    × (removes_at "weekly" "a" (ensured ∷ dropped ∷ [])
        ≡ (removes_at "weekly" "a" steps && not (ensures_at "weekly" "a" steps)))
compose_final_example =
    compose_final resolve weekly (some weekly) nets true (ensured ∷ dropped ∷ []) "weekly" "a"
      composed

compose_ordered_example :
    (ensures : List ComposedStep) × (removes : List ComposedStep) × (ensured ∷ dropped ∷ []
      ≡ ensures ++ removes)
    × (all is_ensure ensures ≡ true)
    × (all is_remove removes ≡ true)
    × ((true && ltb max_daily_projection_targets (length (ensured ∷ dropped ∷ []))) ≡ false)
compose_ordered_example =
    compose_ordered resolve weekly (some weekly) nets true (ensured ∷ dropped ∷ []) composed
