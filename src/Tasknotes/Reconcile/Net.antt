-- ===== src/Tasknotes/Reconcile/Net.antt =====
-- The net change of one task between two commits (`classify_reconcile_net_change` and its data
-- classes in scripts/tasknotes_mcp_core.py). The check that the arguments have their types is left
-- to the types here.
use josemar_assistente.Base.{String, Bool, true, false, Option, none, some, str_eq, if◌then◌else◌}

-- `RECONCILE_NET_ADDED` and the others
pub data NetClass : Type 0 where
  added removed tag_loss rescheduled unscheduled archive_move unchanged : NetClass

pub record TaskState : Type 0 where
  pub slug : String
  pub present : Bool
  pub is_task : Bool
  pub location : Option String
  pub scheduled : Option String
  pub archived : Bool

pub record NetChange : Type 0 where
  pub cls : NetClass
  pub current_scheduled : Option String
  pub ensure_date : Option String
  pub remove_date : Option String

-- `ReconcileNetChange(cls=cls)`
abbrev pub net_change : NetClass → NetChange
net_change cls = record {
  cls = cls;
  current_scheduled = none;
  ensure_date = none;
  remove_date = none;
}

abbrev pub same_text : Option String → Option String → Bool
same_text none none = true
same_text (some a) (some b) = str_eq a b
same_text _ _ = false

-- `ReconcileTaskState(slug="", present=False)` in the place of None
unfoldable pub normalize : Option TaskState → TaskState
normalize none = record {
  slug = "";
  present = false;
  is_task = false;
  location = none;
  scheduled = none;
  archived = false;
}
normalize (some state) = state

-- Both sides are managed tasks with different dates.
unfoldable pub net_of_dates : Option String → Option String → NetChange
net_of_dates none new = record (net_change rescheduled) {
  current_scheduled = new;
  ensure_date = new;
}
net_of_dates (some old) none = record (net_change unscheduled) { remove_date = some old }
net_of_dates (some old) (some new) = record {
  cls = rescheduled;
  current_scheduled = some new;
  ensure_date = some new;
  remove_date = some old;
}

-- Both sides are managed tasks.
unfoldable pub net_of_tasks : TaskState → TaskState → NetChange
net_of_tasks old new =
    if same_text old.scheduled new.scheduled
    then record (net_change
        (if same_text old.location new.location then unchanged else archive_move)) {
          current_scheduled = new.scheduled;
        }
    else net_of_dates old.scheduled new.scheduled

-- The first seven branches, by `old.present`, `old.is_task`, `new.present` and `new.is_task`.
unfoldable pub net_of_states : Bool → Bool → Bool → Bool → TaskState → TaskState → NetChange
net_of_states false _ false _ old new = net_change unchanged
net_of_states false _ true true old new = record (net_change added) {
  current_scheduled = new.scheduled;
  ensure_date = new.scheduled;
}
net_of_states false _ true false old new = net_change unchanged
net_of_states true old_task false _ old new = record (net_change removed) {
  remove_date = if old_task then old.scheduled else none;
}
net_of_states true true true false old new = record (net_change tag_loss) {
  remove_date = old.scheduled;
}
net_of_states true false true true old new = record (net_change added) {
  current_scheduled = new.scheduled;
  ensure_date = new.scheduled;
}
net_of_states true false true false old new = net_change unchanged
net_of_states true true true true old new = net_of_tasks old new

unfoldable pub classify_reconcile_net_change : Option TaskState → Option TaskState → NetChange
classify_reconcile_net_change old_state new_state =
    let old = normalize old_state in
    let new = normalize new_state in
    net_of_states old.present old.is_task new.present new.is_task old new
