-- ===== src/Tasknotes/Reconcile/Targets.antt =====
-- Where the transitions of one target are after the batching (`_batch_reconcile_transitions` in
-- scripts/tasknotes_mcp_core.py).
use mathlib.Core.Path.{subst}
use mathlib.Core.List.{append-nil, append_assoc}
use josemar_assistente.Base.{
  ℕ, ◌-◌, ◌<◌, String, ◌≡◌, refl, sym, ap, ◌∙◌, true, false, Option, none, some, List, [], ◌∷◌,
  ◌++◌, length, length-append, ◌==◌, if◌then◌else◌, keep_if, arith, str_eq, eq_iff, Option-cases,
  Bool-cases, inl, inr, lt→ltb, ltb→lt,
}
use josemar_assistente.Base.Dict.{lookup, lookup-insert}
use josemar_assistente.Tasknotes.Reconcile.Batch.{
  Batching, last_has_room, with_room, claim_batch, place_target, put_transition, batch_from,
  batch_reconcile_transitions,
}
use josemar_assistente.Tasknotes.Reconcile.Places.{
  nth, nth-append_to, nth-new, with_room-index, length-count_target, length-append_to, either_same,
  lookup-claim_batch, index-with_room, in_range-more, here, seen, in_range,
}

module _ {T : Type 0} (target_relative : T → String) where
  -- The transitions of one target, in order.
  abbrev pub of_target : String → List T → List T
  of_target target = keep_if (λ transition. str_eq (target_relative transition) target)

  of_target-append :
      (target : String) (xs : List T) (x : T)
      → of_target target (xs ++ x ∷ []) ≡ (
          if str_eq (target_relative x) target
          then of_target target xs ++ x ∷ []
          else of_target target xs)
  of_target-append target [] x = ground arith
  of_target-append target (y ∷ ys) x = ground (arith, of_target-append target ys x)

  -- After the transitions `done`: each target's are in the batch that the index says, and the two
  -- lists of batches have the same length.
  record Tracks (done : List T) (b : Batching T) : Type 0 where
    tracked :
        (target : String) (j : ℕ)
        → of_target target (nth j b.batches)
          ≡ (if here (lookup target b.batch_of_target) j then of_target target done else [])
    unseen :
        (target : String)
        → of_target target done
          ≡ (if seen (lookup target b.batch_of_target) then of_target target done else [])
    ranged :
        (target : String) → in_range (lookup target b.batch_of_target) (length b.batches) ≡ true
    counted : length b.targets_per_batch ≡ length b.batches

  Tracks-with_room : (done : List T) (b : Batching T) → Tracks done b → Tracks done (with_room b)
  unfolding with_room
  Tracks-with_room done b t = elim (Bool-cases (last_has_room b.targets_per_batch)) [
    | inl room ↦ rw room t
    | inr full ↦ rw full (record {
      tracked = λ target j. ap (of_target target) (nth-new j b.batches) ∙ t.tracked target j;
      unseen = t.unseen;
      ranged = λ target.
          in_range-more (lookup target b.batch_of_target) (length b.batches)
            (length (b.batches ++ [] ∷ [])) (omega (arith, length-append b.batches ([] ∷ [])))
            (t.ranged target);
      counted = omega (
        arith,
        length-append b.batches ([] ∷ []),
        length-append b.targets_per_batch (0 ∷ []),
        t.counted,
      );
    })
  ]

  Tracks-claim_batch :
      (done : List T) (target : String) (b : Batching T)
      → lookup target b.batch_of_target ≡ none
      → length b.batches - 1 < length b.batches
      → Tracks done b
      → Tracks done (claim_batch target b)
  unfolding claim_batch
  Tracks-claim_batch done target b new lt t =
      let last = length b.batches - 1 in
      let no_done : of_target target done ≡ [] = t.unseen target ∙ rw new refl in
      let no_batch : (j : ℕ) → of_target target (nth j b.batches) ≡ [] =
        λ j. t.tracked target j ∙ rw new refl in
      let tracked_target : (j : ℕ)
          → of_target target (nth j b.batches)
            ≡ (if here (some last) j then of_target target done else []) =
        λ j. no_batch j ∙ rw no_done (sym (either_same (j == last) [])) in
      record {
        tracked = λ other j.
            rw (lookup-insert target other last b.batch_of_target)
              (elim (Bool-cases (str_eq target other)) [
                | inl same ↦ rw same (
                    subst
                      (λ (o : String).
                        of_target o (nth j b.batches)
                        ≡ (if here (some last) j then of_target o done else []))
                      ((eq_iff target other).0 same) (tracked_target j))
                | inr apart ↦ rw apart (t.tracked other j)
              ]);
        unseen = λ other.
            rw (lookup-insert target other last b.batch_of_target)
              (elim (Bool-cases (str_eq target other)) [
                | inl same ↦ rw same refl
                | inr apart ↦ rw apart (t.unseen other)
              ]);
        ranged = λ other.
            rw (lookup-insert target other last b.batch_of_target)
              (elim (Bool-cases (str_eq target other)) [
                | inl same ↦ rw same (lt→ltb last (length b.batches) lt)
                | inr apart ↦ rw apart (t.ranged other)
              ]);
        counted = length-count_target last b.targets_per_batch ∙ t.counted;
      }

  of_own :
      (x : T) (xs : List T)
      → of_target (target_relative x) (xs ++ x ∷ []) ≡ of_target (target_relative x) xs ++ x ∷ []
  of_own x xs =
      of_target-append (target_relative x) xs x
      ∙ rw ((eq_iff (target_relative x) (target_relative x)).1 refl) refl

  of_other :
      (other : String) (x : T) (xs : List T)
      → str_eq (target_relative x) other ≡ false
      → of_target other (xs ++ x ∷ []) ≡ of_target other xs
  of_other other x xs e = of_target-append other xs x ∙ rw e refl

  -- The appended transition and the batches, for its own target and for another.
  tracked_own :
      (done : List T) (x : T) (index j : ℕ) (b : Batching T)
      → lookup (target_relative x) b.batch_of_target ≡ some index
      → Tracks done b
      → of_target
          (target_relative x)
          (if j == index then nth j b.batches ++ x ∷ [] else nth j b.batches)
        ≡ (if here (lookup (target_relative x) b.batch_of_target) j
            then of_target (target_relative x) (done ++ x ∷ [])
            else [])
  tracked_own done x index j b at t = elim (Bool-cases (j == index)) [
    | inl e ↦
        rw (at, e)
          (of_own x (nth j b.batches)
            ∙ (ap (λ (xs : List T). xs ++ x ∷ [])
                  (t.tracked (target_relative x) j ∙ rw (at, e) refl)
                ∙ sym (of_own x done)))
    | inr e ↦ rw (at, e) (t.tracked (target_relative x) j ∙ rw (at, e) refl)
  ]

  tracked_other :
      (done : List T) (x : T) (index j : ℕ) (other : String) (b : Batching T)
      → str_eq (target_relative x) other ≡ false
      → Tracks done b
      → of_target other (if j == index then nth j b.batches ++ x ∷ [] else nth j b.batches)
        ≡ (if here (lookup other b.batch_of_target) j then of_target other (done ++ x ∷ []) else [])
  tracked_other done x index j other b apart t =
      rw (of_other other x done apart) (elim (Bool-cases (j == index)) [
        | inl e ↦ rw e (of_other other x (nth j b.batches) apart ∙ t.tracked other j)
        | inr e ↦ rw e (t.tracked other j)
      ])

  Tracks-append :
      (done : List T) (x : T) (index : ℕ) (b : Batching T)
      → lookup (target_relative x) b.batch_of_target ≡ some index
      → Tracks done b
      → Tracks (done ++ x ∷ []) (put_transition (index, b) x)
  unfolding put_transition
  Tracks-append done x index b at t =
      let lt : index < length b.batches = ltb→lt index (length b.batches) (
        subst (λ (o : Option ℕ). in_range o (length b.batches) ≡ true) at
          (t.ranged (target_relative x))) in
      record {
        tracked = λ other j.
            ap (of_target other) (nth-append_to index j x b.batches lt)
            ∙ elim (Bool-cases (str_eq (target_relative x) other)) [
              | inl same ↦
                  subst
                    (λ (o : String).
                      of_target o
                        (if j == index then nth j b.batches ++ x ∷ [] else nth j b.batches)
                      ≡ (if here (lookup o b.batch_of_target) j
                          then of_target o (done ++ x ∷ [])
                          else []))
                    ((eq_iff (target_relative x) other).0 same) (tracked_own done x index j b at t)
              | inr apart ↦ tracked_other done x index j other b apart t
            ];
        unseen = λ other. elim (Bool-cases (str_eq (target_relative x) other)) [
          | inl same ↦
              subst
                (λ (o : String). of_target o (done ++ x ∷ []) ≡ (
                  if seen (lookup o b.batch_of_target) then of_target o (done ++ x ∷ []) else []))
                ((eq_iff (target_relative x) other).0 same) (rw at refl)
          | inr apart ↦ rw (of_other other x done apart) (t.unseen other)
        ];
        ranged = λ other. rw (length-append_to index x b.batches) (t.ranged other);
        counted = t.counted ∙ sym (length-append_to index x b.batches);
      }

  Tracks-place_target :
      (done : List T) (x : T) (b : Batching T)
      → Tracks done b
      → Tracks (done ++ x ∷ []) (put_transition (place_target (target_relative x) b) x)
  unfolding place_target
  Tracks-place_target done x b t =
      elim (Option-cases (lookup (target_relative x) b.batch_of_target)) [
        | inr (index, at) ↦ rw (at, place_target) (Tracks-append done x index b at t)
        | inl new ↦
            let room = Tracks-with_room done b t in
            rw (new, place_target)
              (Tracks-append done x (length (with_room b).batches - 1)
                (claim_batch (target_relative x) (with_room b))
                (lookup-claim_batch (target_relative x) (with_room b))
                (Tracks-claim_batch done (target_relative x) (with_room b)
                  (index-with_room (target_relative x) b ∙ new) (with_room-index b t.counted) room))
      ]

  Tracks-batch_from :
      (done rest : List T) (b : Batching T)
      → Tracks done b
      → Tracks (done ++ rest) (batch_from target_relative rest b)
  unfolding batch_from
  Tracks-batch_from done [] b t = subst (λ (xs : List T). Tracks xs b) (sym (append-nil done)) t
  Tracks-batch_from done (x ∷ rest) b t =
      subst
        (λ (xs : List T).
          Tracks xs (
            batch_from target_relative rest
              (put_transition (place_target (target_relative x) b) x)))
        (append_assoc done (x ∷ []) rest)
        (Tracks-batch_from (done ++ x ∷ []) rest
          (put_transition (place_target (target_relative x) b) x) (Tracks-place_target done x b t))

  in_one :
      (o : Option ℕ) (xs : List T)
      → xs ≡ (if seen o then xs else [])
      → (i : ℕ) × ((j : ℕ) → (if here o j then xs else []) ≡ (if j == i then xs else []))
  in_one none xs e = (0, λ j. rw e (sym (either_same (j == 0) [])))
  in_one (some i) xs e = (i, λ j. refl)

  together :
      (done : List T) (target : String) (b : Batching T)
      → Tracks done b
      → (i : ℕ) × ((j : ℕ)
          → of_target target (nth j b.batches) ≡ (if j == i then of_target target done else []))
  together done target b t =
      let one =
        in_one (lookup target b.batch_of_target) (of_target target done) (t.unseen target) in
      (one.0, λ j. t.tracked target j ∙ one.1 j)

  -- The transitions of a target are together: all in one batch, in the order of the input, and none
  -- in another batch.
  pub batch_reconcile_transitions-together :
      (transitions : List T) (target : String)
      → (i : ℕ) × ((j : ℕ)
          → of_target target (nth j (batch_reconcile_transitions target_relative transitions))
            ≡ (if j == i then of_target target transitions else []))
  unfolding batch_reconcile_transitions lookup
  batch_reconcile_transitions-together transitions target =
      together transitions target
        (batch_from target_relative transitions
          (record { batches = []; targets_per_batch = []; batch_of_target = [] }))
        (Tracks-batch_from [] transitions
          (record { batches = []; targets_per_batch = []; batch_of_target = [] })
          (record {
            tracked = λ other j. refl;
            unseen = λ other. refl;
            ranged = λ other. refl;
            counted = refl;
          }))
