-- ===== src/Tasknotes/Reconcile/Places.antt =====
-- Single steps of the batching (`_batch_reconcile_transitions` in
-- scripts/tasknotes_mcp_core.py).
use josemar_assistente.Base.{
  ℕ, zero, suc, ◌-◌, ◌<◌, ◌≤◌, String, ◌≡◌, refl, ◌∙◌, Bool, true, false, Option, none, some, List,
  [], ◌∷◌, ◌++◌, length, length-append, ltb, ◌==◌, if◌then◌else◌, arith, eq_iff, Bool-cases, inl,
  inr,
}
use josemar_assistente.Base.Dict.{lookup, lookup-insert}
use josemar_assistente.Tasknotes.Reconcile.Batch.{
  Batching, last_has_room, count_target, append_to, with_room, claim_batch,
}

-- `xs[index]`, empty out of range.
abbrev pub nth {ℓ} : {A : Type ℓ} → ℕ → List (List A) → List A
nth index [] = []
nth zero (xs ∷ xss) = xs
nth (suc index) (xs ∷ xss) = nth index xss

-- The index says batch `j`.
abbrev pub here : Option ℕ → ℕ → Bool
here none j = false
here (some index) j = j == index

abbrev pub seen : Option ℕ → Bool
seen none = false
seen (some index) = true

abbrev pub in_range : Option ℕ → ℕ → Bool
in_range none n = true
in_range (some index) n = ltb index n

pub in_range-more : (o : Option ℕ) (m n : ℕ) → m ≤ n → in_range o m ≡ true → in_range o n ≡ true
in_range-more none m n le e = refl
in_range-more (some index) m n le e = ground arith

has_room_pos : (counts : List ℕ) → last_has_room counts ≡ true → 0 < length counts
unfolding last_has_room
has_room_pos [] e = ground arith
has_room_pos (n ∷ counts) e = omega arith

pub length-count_target :
    (index : ℕ) (counts : List ℕ) → length (count_target index counts) ≡ length counts
unfolding count_target
length-count_target index [] = refl
length-count_target zero (n ∷ counts) = refl
length-count_target (suc index) (n ∷ counts) = omega (arith, length-count_target index counts)

module _ {T : Type 0} where
  pub nth-append_to :
      (index j : ℕ) (x : T) (bs : List (List T))
      → index < length bs
      → nth j (append_to index x bs) ≡ (if j == index then nth j bs ++ x ∷ [] else nth j bs)
  unfolding append_to
  nth-append_to index j x [] lt = ground arith
  nth-append_to zero zero x (b ∷ bs) lt = refl
  nth-append_to zero (suc j) x (b ∷ bs) lt = ground arith
  nth-append_to (suc index) zero x (b ∷ bs) lt = ground arith
  nth-append_to (suc index) (suc j) x (b ∷ bs) lt =
      nth-append_to index j x bs (omega (arith, lt)) ∙ ground arith

  pub nth-new : (j : ℕ) (bs : List (List T)) → nth j (bs ++ [] ∷ []) ≡ nth j bs
  nth-new zero [] = refl
  nth-new (suc j) [] = refl
  nth-new zero (b ∷ bs) = refl
  nth-new (suc j) (b ∷ bs) = nth-new j bs

  pub with_room-index :
      (b : Batching T)
      → length b.targets_per_batch ≡ length b.batches
      → length (with_room b).batches - 1 < length (with_room b).batches
  unfolding with_room
  with_room-index b e = elim (Bool-cases (last_has_room b.targets_per_batch)) [
    | inl room ↦ rw room (omega (arith, e, has_room_pos b.targets_per_batch room))
    | inr full ↦ rw full (omega (arith, length-append b.batches ([] ∷ [])))
  ]

  pub length-append_to :
      (index : ℕ) (x : T) (bs : List (List T)) → length (append_to index x bs) ≡ length bs
  unfolding append_to
  length-append_to index x [] = refl
  length-append_to zero x (b ∷ bs) = refl
  length-append_to (suc index) x (b ∷ bs) = omega (arith, length-append_to index x bs)

  pub either_same : (c : Bool) (xs : List T) → (if c then xs else xs) ≡ xs
  either_same true xs = refl
  either_same false xs = refl

  pub lookup-claim_batch :
      (target : String) (b : Batching T)
      → lookup target (claim_batch target b).batch_of_target ≡ some (length b.batches - 1)
  unfolding claim_batch
  lookup-claim_batch target b =
      lookup-insert target target (length b.batches - 1) b.batch_of_target
      ∙ rw ((eq_iff target target).1 refl) refl

  pub index-with_room :
      (target : String) (b : Batching T)
      → lookup target (with_room b).batch_of_target ≡ lookup target b.batch_of_target
  unfolding with_room
  index-with_room target b = elim (Bool-cases (last_has_room b.targets_per_batch)) [
    | inl room ↦ rw room refl
    | inr full ↦ rw full refl
  ]
