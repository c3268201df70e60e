-- ===== src/Tasknotes/Engine/Marks.antt =====
-- Reasoning on the record of events that the code of scripts/tasknotes_mcp_core.py leaves: what a
-- piece of code adds to it, and where a piece of code ends.
use josemar_assistente.Base.{
  Bool, true, false, ◌&&◌, if◌then◌else◌, List, [], ◌∷◌, ◌++◌, ◌≡◌, refl, ap, ◌∙◌,
}
use josemar_assistente.Base.Result.{Result, ok, err}
use josemar_assistente.Tasknotes.Engine.Effects.{
  EngineError, Event, EngineState, M, pure, raise, lift, call, continue, resume, attempt, ◌>>=◌,
  ◌>>◌, note_if, guard,
}

-- The record after a result: with these events where there is one, as it was where the code raised
abbrev pub after : {A : Type 0} → List Event → Result EngineError A → List Event → List Event
after events (ok a) log = events ++ log
after events (err e) log = log

-- The code records these events where it returns and none where it raises.
pub record Marks {W A : Type 0} (events : List Event) (m : M W A) : Type 0 where
  pub record_of : (s : EngineState W) → (m s).1.1 ≡ after events (m s).0 s.1

abbrev pub Silent : {W A : Type 0} → M W A → Type 0
Silent m = Marks [] m

unchanged_by : {A : Type 0} (r : Result EngineError A) (log : List Event) → log ≡ after [] r log
unchanged_by (ok a) log = refl
unchanged_by (err e) log = refl

module _ {W A : Type 0} where
  pub pure-Silent : (a : A) → Silent {W = W} (pure a)
  unfolding pure
  pure-Silent a = record { record_of = λ s. refl }

  pub raise-Silent : (e : EngineError) → Silent {W = W} {A = A} (raise e)
  unfolding raise
  raise-Silent e = record { record_of = λ s. refl }

  pub lift-Silent : (r : Result EngineError A) → Silent {W = W} (lift r)
  unfolding lift
  lift-Silent r = record { record_of = λ s. unchanged_by r s.1 }

  pub call-Silent : (f : W → Result EngineError A × W) → Silent (call f)
  unfolding call
  call-Silent f = record { record_of = λ s. unchanged_by (f s.0).0 s.1 }

module _ {W : Type 0} where
  pub guard-Silent : (b : Bool) (e : EngineError) → Silent {W = W} (guard b e)
  unfolding guard
  guard-Silent true e = record { record_of = λ s. refl }
  guard-Silent false e = record { record_of = λ s. refl }

  -- The event that both guards lead to
  pub guarded_note-Marks :
      (event : Event) (a b : Bool) (e x : EngineError)
      → Marks {W = W} (event ∷ []) (guard a e >> (guard b x >> note_if (a && b) event))
  unfolding guard note_if ◌>>=◌ continue
  guarded_note-Marks event true true e x = record { record_of = λ s. refl }
  guarded_note-Marks event true false e x = record { record_of = λ s. refl }
  guarded_note-Marks event false b e x = record { record_of = λ s. refl }

pub if-Marks :
    {W A : Type 0} {events : List Event} (b : Bool) {m k : M W A}
    → Marks events m
    → Marks events k
    → Marks events (if b then m else k)
if-Marks true hm hk = hm
if-Marks false hm hk = hk

module _ {W A B : Type 0} where
  continue-after :
      {events : List Event} (f : A → M W B) (r : Result EngineError A × EngineState W)
      (log : List Event)
      → r.1.1 ≡ after [] r.0 log
      → ((a : A) → Marks events (f a))
      → (continue f r).1.1 ≡ after events (continue f r).0 log
  unfolding continue
  continue-after {events} f (ok a, s) log h hf = (hf a).record_of s ∙ ap (after events (f a s).0) h
  continue-after f (err e, s) log h hf = h

  pub bind-Marks :
      {events : List Event} {m : M W A} {f : A → M W B}
      → Silent m
      → ((a : A) → Marks events (f a))
      → Marks events (m >>= f)
  unfolding ◌>>=◌
  bind-Marks {events} {m} {f} hm hf = record {
    record_of = λ s. continue-after f (m s) s.1 (hm.record_of s) hf;
  }

  resume-after :
      {events : List Event} (h : EngineError → M W B) (f : A → M W B)
      (r : Result EngineError A × EngineState W) (log : List Event)
      → r.1.1 ≡ after [] r.0 log
      → ((e : EngineError) → Marks events (h e))
      → ((a : A) → Marks events (f a))
      → (resume h f r).1.1 ≡ after events (resume h f r).0 log
  unfolding resume
  resume-after {events} h f (ok a, s) log e hh hf =
      (hf a).record_of s ∙ ap (after events (f a s).0) e
  resume-after {events} h f (err x, s) log e hh hf =
      (hh x).record_of s ∙ ap (after events (h x s).0) e

  pub attempt-Marks :
      {events : List Event} {m : M W A} {h : EngineError → M W B} {f : A → M W B}
      → Silent m
      → ((e : EngineError) → Marks events (h e))
      → ((a : A) → Marks events (f a))
      → Marks events (attempt m h f)
  unfolding attempt
  attempt-Marks {events} {m} {h} {f} hm hh hf = record {
    record_of = λ s. resume-after h f (m s) s.1 (hm.record_of s) hh hf;
  }

-- A test of what a piece of code ends with: its result and the record
abbrev pub Account : Type 0 → Type 0
Account A = Result EngineError A → List Event → Bool

-- From a given record on, the end passes the test in every world.
pub record Ends {W A : Type 0} (test : Account A) (log : List Event) (m : M W A) : Type 0 where
  pub end_of : (w : W) → test (m (w, log)).0 (m (w, log)).1.1 ≡ true

-- The end of an answer that has been computed
pub record EndsAt {W A : Type 0} (test : Account A) (r : Result EngineError A × EngineState W)
    : Type 0 where
  pub at_end : test r.0 r.1.1 ≡ true

-- From a record that equals the given one
from_equal :
    {W A : Type 0} (test : Account A) (m : M W A) (log : List Event) (s : EngineState W)
    → s.1 ≡ log
    → Ends test log m
    → EndsAt test (m s)
from_equal test m log (w, other) e h = record {
  at_end = ap (λ l. test (m (w, l)).0 (m (w, l)).1.1) e ∙ h.end_of w;
}

module _ {W A : Type 0} {test : Account A} {log : List Event} where
  pub pure-Ends : (a : A) → test (ok a) log ≡ true → Ends {W = W} test log (pure a)
  unfolding pure
  pure-Ends a h = record { end_of = λ w. h }

  pub raise-Ends : (e : EngineError) → test (err e) log ≡ true → Ends {W = W} test log (raise e)
  unfolding raise
  raise-Ends e h = record { end_of = λ w. h }

  pub if-Ends :
      (b : Bool) {m k : M W A}
      → Ends test log m
      → Ends test log k
      → Ends test log (if b then m else k)
  if-Ends true hm hk = hm
  if-Ends false hm hk = hk

module _ {W A B : Type 0} {test : Account B} where
  resume-EndsAt :
      (events log : List Event) (h : EngineError → M W B) (f : A → M W B)
      (r : Result EngineError A × EngineState W)
      → r.1.1 ≡ after events r.0 log
      → ((e : EngineError) → Ends test log (h e))
      → ((a : A) → Ends test (events ++ log) (f a))
      → EndsAt test (resume h f r)
  unfolding resume
  resume-EndsAt events log h f (ok a, s) e hh hf = from_equal test (f a) (events ++ log) s e (hf a)
  resume-EndsAt events log h f (err x, s) e hh hf = from_equal test (h x) log s e (hh x)

  pub attempt-Ends :
      {events log : List Event} {m : M W A} {h : EngineError → M W B} {f : A → M W B}
      → Marks events m
      → ((e : EngineError) → Ends test log (h e))
      → ((a : A) → Ends test (events ++ log) (f a))
      → Ends test log (attempt m h f)
  unfolding attempt
  attempt-Ends {events} {log} {m} {h} {f} hm hh hf = record {
    end_of = λ w. (resume-EndsAt events log h f (m (w, log)) (hm.record_of (w, log)) hh hf).at_end;
  }

  continue-EndsAt :
      (events log : List Event) (f : A → M W B) (r : Result EngineError A × EngineState W)
      → r.1.1 ≡ after events r.0 log
      → ((e : EngineError) → test (err e) log ≡ true)
      → ((a : A) → Ends test (events ++ log) (f a))
      → EndsAt test (continue f r)
  unfolding continue
  continue-EndsAt events log f (ok a, s) e hh hf = from_equal test (f a) (events ++ log) s e (hf a)
  continue-EndsAt events log f (err x, s) e hh hf = record { at_end = ap (test (err x)) e ∙ hh x }

  pub bind-Ends :
      {events log : List Event} {m : M W A} {f : A → M W B}
      → Marks events m
      → ((e : EngineError) → test (err e) log ≡ true)
      → ((a : A) → Ends test (events ++ log) (f a))
      → Ends test log (m >>= f)
  unfolding ◌>>=◌
  bind-Ends {events} {log} {m} {f} hm hh hf = record {
    end_of = λ w. (continue-EndsAt events log f (m (w, log)) (hm.record_of (w, log)) hh hf).at_end;
  }

module _ {W A : Type 0} {test : Account A} where
  marked_end :
      (events log : List Event) (r : Result EngineError A × EngineState W)
      → r.1.1 ≡ after events r.0 log
      → ((e : EngineError) → test (err e) log ≡ true)
      → ((a : A) → test (ok a) (events ++ log) ≡ true)
      → EndsAt test r
  marked_end events log (ok a, s) e hh hf = record { at_end = ap (test (ok a)) e ∙ hf a }
  marked_end events log (err x, s) e hh hf = record { at_end = ap (test (err x)) e ∙ hh x }

  pub Marks-Ends :
      {events log : List Event} {m : M W A}
      → Marks events m
      → ((e : EngineError) → test (err e) log ≡ true)
      → ((a : A) → test (ok a) (events ++ log) ≡ true)
      → Ends test log m
  Marks-Ends {events} {log} {m} hm hh hf = record {
    end_of = λ w. (marked_end events log (m (w, log)) (hm.record_of (w, log)) hh hf).at_end;
  }

-- The same record
pub moved-Ends :
    {W A : Type 0} {test : Account A} {m : M W A} {l log : List Event}
    → l ≡ log
    → Ends test log m
    → Ends test l m
moved-Ends {test = test} {m = m} e h = record {
  end_of = λ w. ap (λ l. test (m (w, l)).0 (m (w, l)).1.1) e ∙ h.end_of w;
}

-- One test leads to another.
module _ {W A B : Type 0} {test : Account A} {other : Account B} where
  then-EndsAt :
      (f : A → M W B) (r : Result EngineError A × EngineState W)
      → EndsAt test r
      → ((e : EngineError) (l : List Event) → test (err e) l ≡ true → other (err e) l ≡ true)
      → ((a : A) (l : List Event) → test (ok a) l ≡ true → Ends other l (f a))
      → EndsAt other (continue f r)
  unfolding continue
  then-EndsAt f (ok a, s) h hh hf = record { at_end = (hf a s.1 h.at_end).end_of s.0 }
  then-EndsAt f (err e, s) h hh hf = record { at_end = hh e s.1 h.at_end }

  pub then-Ends :
      {log : List Event} {m : M W A} {f : A → M W B}
      → Ends test log m
      → ((e : EngineError) (l : List Event) → test (err e) l ≡ true → other (err e) l ≡ true)
      → ((a : A) (l : List Event) → test (ok a) l ≡ true → Ends other l (f a))
      → Ends other log (m >>= f)
  unfolding ◌>>=◌
  then-Ends {log} {m} {f} h hh hf = record {
    end_of = λ w. (then-EndsAt f (m (w, log)) (record { at_end = h.end_of w }) hh hf).at_end;
  }

  try-EndsAt :
      (h : EngineError → M W B) (f : A → M W B) (r : Result EngineError A × EngineState W)
      → EndsAt test r
      → ((e : EngineError) (l : List Event) → test (err e) l ≡ true → Ends other l (h e))
      → ((a : A) (l : List Event) → test (ok a) l ≡ true → Ends other l (f a))
      → EndsAt other (resume h f r)
  unfolding resume
  try-EndsAt h f (ok a, s) t hh hf = record { at_end = (hf a s.1 t.at_end).end_of s.0 }
  try-EndsAt h f (err e, s) t hh hf = record { at_end = (hh e s.1 t.at_end).end_of s.0 }

  pub try-Ends :
      {log : List Event} {m : M W A} {h : EngineError → M W B} {f : A → M W B}
      → Ends test log m
      → ((e : EngineError) (l : List Event) → test (err e) l ≡ true → Ends other l (h e))
      → ((a : A) (l : List Event) → test (ok a) l ≡ true → Ends other l (f a))
      → Ends other log (attempt m h f)
  unfolding attempt
  try-Ends {log} {m} {h} {f} t hh hf = record {
    end_of = λ w. (try-EndsAt h f (m (w, log)) (record { at_end = t.end_of w }) hh hf).at_end;
  }

pub ruleset silent_rules = (
  pure-Silent, raise-Silent, lift-Silent, call-Silent, guard-Silent, if-Marks, bind-Marks,
  attempt-Marks,
)
