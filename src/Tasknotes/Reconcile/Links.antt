-- ===== src/Tasknotes/Reconcile/Links.antt =====
-- What a net change does to the link of a task (`classify_reconcile_net_change` in
-- scripts/tasknotes_mcp_core.py), against an independent reading of the states.
use josemar_assistente.Base.{
  String, ◌≡◌, refl, sym, ap, ◌∙◌, ◌⊎◌, inl, inr, Bool, true, false, not, ◌&&◌, ◌||◌, Option, none,
  some, arith, str_eq, eq_iff, if◌then◌else◌, Bool-cases,
}
use josemar_assistente.Tasknotes.Reconcile.Net.{
  NetClass, archive_move, unchanged, TaskState, NetChange, same_text, normalize, net_of_dates,
  net_of_tasks, net_of_states, classify_reconcile_net_change,
}

-- The date whose daily note links to the task: that of a present, managed, scheduled task.
abbrev pub link_of : TaskState → Option String
link_of state = if state.present && state.is_task then state.scheduled else none

abbrev pub link : Option TaskState → Option String
link state = link_of (normalize state)

-- Whether the date is the one.
abbrev pub has : Option String → String → Bool
has none date = false
has (some d) date = str_eq d date

-- Whether the note of a date links to the task once the change is applied to the notes of a task
-- that has the link `old` alone: the ensured link is there, and the removed one is not.
abbrev pub links_after : NetChange → Option String → String → Bool
links_after net old date =
    has net.ensure_date date || (has old date && not (has net.remove_date date))

same_text_sound : (a b : Option String) → same_text a b ≡ true → a ≡ b
same_text_sound none none e = refl
same_text_sound none (some b) e = ground arith
same_text_sound (some a) none e = ground arith
same_text_sound (some a) (some b) e = ap (λ (t : String). some t) ((eq_iff a b).0 e)

same_text_self : (a : Option String) → same_text a a ≡ true
same_text_self none = refl
same_text_self (some a) = (eq_iff a a).1 refl

-- What a change says of the links before and after.
abbrev Links : NetChange → Option String → Option String → Type 0
Links net old new =
    ((date : String) → links_after net old date ≡ has new date)
    × ((net.remove_date ≡ none) ⊎ (net.remove_date ≡ old))

or_and_false : (b c : Bool) → (b || (false && c)) ≡ b
or_and_false true c = refl
or_and_false false c = refl

and_not_self : (b : Bool) → (b && not b) ≡ false
and_not_self true = refl
and_not_self false = refl

and_true : (b : Bool) → (b && true) ≡ b
and_true true = refl
and_true false = refl

or_and_not_self : (b c : Bool) → (b || (c && not c)) ≡ b
or_and_not_self true c = refl
or_and_not_self false c = and_not_self c

Links-dates :
    (old new : Option String) → same_text old new ≡ false → Links (net_of_dates old new) old new
unfolding net_of_dates
Links-dates none none e = ground arith
Links-dates none (some new) e = (λ date. or_and_false (str_eq new date) true, inl refl)
Links-dates (some old) none e = (λ date. and_not_self (str_eq old date), inr refl)
Links-dates (some old) (some new) e =
    (λ date. or_and_not_self (str_eq new date) (str_eq old date), inr refl)

Links-tasks : (old new : TaskState) → Links (net_of_tasks old new) old.scheduled new.scheduled
unfolding net_of_tasks
Links-tasks old new = elim (Bool-cases (same_text old.scheduled new.scheduled)) [
  | inl same ↦ rw same (
    (λ date.
        and_true (has old.scheduled date)
        ∙ ap (λ (o : Option String). has o date)
            (same_text_sound old.scheduled new.scheduled same)),
    inl refl,
  )
  | inr other ↦ rw other (Links-dates old.scheduled new.scheduled other)
]

Links-states :
    (old_present old_task new_present new_task : Bool) (old new : TaskState)
    → Links
        (net_of_states old_present old_task new_present new_task old new)
        (if old_present && old_task then old.scheduled else none)
        (if new_present && new_task then new.scheduled else none)
unfolding net_of_states
Links-states false t false u old new = (λ date. refl, inl refl)
Links-states false t true true old new =
    (λ date. or_and_false (has new.scheduled date) true, inl refl)
Links-states false t true false old new = (λ date. refl, inl refl)
Links-states true true false u old new = (λ date. and_not_self (has old.scheduled date), inr refl)
Links-states true false false u old new = (λ date. refl, inl refl)
Links-states true true true false old new =
    (λ date. and_not_self (has old.scheduled date), inr refl)
Links-states true false true true old new =
    (λ date. or_and_false (has new.scheduled date) true, inl refl)
Links-states true false true false old new = (λ date. refl, inl refl)
Links-states true true true true old new = Links-tasks old new

-- Applied to daily notes that link to the task as its old state asks, the change leaves exactly the
-- links that its new state asks for, whatever the date; and it removes no link but the old one. A
-- state asks for a link at its scheduled date when the task is present and managed, and an absent
-- state asks for none.
pub classify_reconcile_net_change-relinks :
    (old new : Option TaskState)
    → ((date : String)
        → links_after (classify_reconcile_net_change old new) (link old) date ≡ has (link new) date)
      × (((classify_reconcile_net_change old new).remove_date ≡ none)
          ⊎ ((classify_reconcile_net_change old new).remove_date ≡ link old))
unfolding classify_reconcile_net_change
classify_reconcile_net_change-relinks old new =
    Links-states (normalize old).present (normalize old).is_task (normalize new).present
      (normalize new).is_task (normalize old) (normalize new)

Idle : NetChange → Type 0
Idle net = (net.ensure_date ≡ none) × (net.remove_date ≡ none)

Idle-states :
    (old_present old_task new_present new_task : Bool) (old new : TaskState)
    → (if old_present && old_task then old.scheduled else none)
      ≡ (if new_present && new_task then new.scheduled else none)
    → Idle (net_of_states old_present old_task new_present new_task old new)
unfolding net_of_states net_of_tasks Idle
Idle-states false t false u old new e = (refl, refl)
Idle-states false t true true old new e = (sym e, refl)
Idle-states false t true false old new e = (refl, refl)
Idle-states true true false u old new e = (refl, e)
Idle-states true false false u old new e = (refl, refl)
Idle-states true true true false old new e = (refl, e)
Idle-states true false true true old new e = (sym e, refl)
Idle-states true false true false old new e = (refl, refl)
Idle-states true true true true old new e = rw (e, same_text_self new.scheduled) (refl, refl)

-- When the two states ask for the same link, the change neither ensures nor removes one.
pub classify_reconcile_net_change-idle :
    (old new : Option TaskState)
    → link old ≡ link new
    → ((classify_reconcile_net_change old new).ensure_date ≡ none)
      × ((classify_reconcile_net_change old new).remove_date ≡ none)
unfolding classify_reconcile_net_change Idle
classify_reconcile_net_change-idle old new e =
    Idle-states (normalize old).present (normalize old).is_task (normalize new).present
      (normalize new).is_task (normalize old) (normalize new) e

-- The classes that a change of the routing re-homes.
abbrev pub in_place : NetClass → Bool
in_place unchanged = true
in_place archive_move = true
in_place _ = false

rehomes-dates : (old new : Option String) → in_place (net_of_dates old new).cls ≡ false
unfolding net_of_dates
rehomes-dates none new = refl
rehomes-dates (some old) none = refl
rehomes-dates (some old) (some new) = refl

rehomes-states :
    (old_present old_task new_present new_task : Bool) (old new : TaskState)
    → in_place (net_of_states old_present old_task new_present new_task old new).cls ≡ true
    → (net_of_states old_present old_task new_present new_task old new).current_scheduled
      ≡ (if new_present && new_task then new.scheduled else none)
unfolding net_of_states net_of_tasks
rehomes-states false t false u old new e = refl
rehomes-states false t true true old new e = refl
rehomes-states false t true false old new e = refl
rehomes-states true true false u old new e = refl
rehomes-states true false false u old new e = refl
rehomes-states true true true false old new e = refl
rehomes-states true false true true old new e = refl
rehomes-states true false true false old new e = refl
rehomes-states true true true true old new e =
    ground (arith, rehomes-dates old.scheduled new.scheduled)

-- The date that a change carries for the re-homing of an unchanged or moved task is the date of the
-- link that the new state asks for.
pub classify_reconcile_net_change-rehomes :
    (old new : Option TaskState)
    → in_place (classify_reconcile_net_change old new).cls ≡ true
    → (classify_reconcile_net_change old new).current_scheduled ≡ link new
unfolding classify_reconcile_net_change
classify_reconcile_net_change-rehomes old new e =
    rehomes-states (normalize old).present (normalize old).is_task (normalize new).present
      (normalize new).is_task (normalize old) (normalize new) e
