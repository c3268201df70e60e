-- ===== src/SkillState/Policy.antt =====
-- The skill policy of the configuration (`POLICY_KEYS`, `enforce_policy` and `policy_violations` of
-- scripts/josemar_skill_state.py).
use josemar_assistente.Base.{
  String, ◌≡◌, refl, sym, ap, ◌∙◌, Bool, true, false, not, ◌||◌, Option, none, some, List, [], ◌∷◌,
  ◌≢◌, ◌⊎◌, inl, inr, arith, if◌then◌else◌,
}
use josemar_assistente.Base.Fields.{get, same}
use josemar_assistente.Base.Json.{Json, null, bool, num, str, arr, obj, Fields}
use josemar_assistente.SkillState.Config.{or_default, get_or}
use josemar_assistente.SkillState.Nested.{
  child_of, differs, put_nested, set_nested, set_all, get_nested, diverges,
}
use josemar_assistente.SkillState.Reads.{
  get_nested-put_nested_other, differs-put_nested_self, differs-get_nested, put_nested-same,
}

abbrev pub policy_keys : List (List String × Json)
policy_keys =
    ("skills" ∷ "creation_nudge_interval" ∷ [], num 0)
    ∷ ("skills" ∷ "write_approval" ∷ [], bool true)
    ∷ ("curator" ∷ "enabled" ∷ [], bool false)
    ∷ []

unfoldable pub enforce_policy : Fields → Fields × Bool
enforce_policy config = set_all policy_keys (config, false)

-- Whether the walk ends at no mapping, or at another value.
unfoldable pub violates : List String → Json → Option Json → Bool
violates (k ∷ []) value (some (obj node)) = not (same (get_or k null node) value)
violates (k ∷ j ∷ path) value (some (obj node)) = violates (j ∷ path) value (get k node)
violates path value other = true

-- The violated keys, as paths; the source joins each by dots.
unfoldable pub violations_from : List (List String × Json) → Fields → List (List String)
violations_from [] config = []
violations_from (w ∷ ws) config =
    let rest = violations_from ws config in
    if violates w.0 w.1 (some (obj config)) then w.0 ∷ rest else rest

unfoldable pub policy_violations : Fields → List (List String)
policy_violations config = violations_from policy_keys config

-- For a value other than None, a walk that ends at no mapping is one that finds nothing.
violates-child :
    (j : String) (value : Json) (o : Option Json)
    → same null value ≡ false
    → violates (j ∷ []) value o ≡ not (same (get_or j null (child_of o)) value)
unfolding violates get
violates-child j value (some (obj fs)) e = refl
violates-child j value none e = rw e refl
violates-child j value (some null) e = rw e refl
violates-child j value (some (bool b)) e = rw e refl
violates-child j value (some (num n)) e = rw e refl
violates-child j value (some (str s)) e = rw e refl
violates-child j value (some (arr xs)) e = rw e refl

violates-differs :
    (k j : String) (value : Json) (config : Fields)
    → same null value ≡ false
    → violates (k ∷ j ∷ []) value (some (obj config)) ≡ differs (k ∷ j ∷ []) value config
unfolding violates differs
violates-differs k j value config e = violates-child j value (get k config) e

-- Writing at a diverging path does not change a difference.
differs-put_nested_other :
    (p q : List String) (k : String) (v w : Json) (node : Fields)
    → diverges p (k ∷ q) ≡ true
    → differs (k ∷ q) w (put_nested p v node) ≡ differs (k ∷ q) w node
differs-put_nested_other p q k v w node d =
    differs-get_nested k q w (put_nested p v node)
    ∙ (ap (λ (o : Option Json). not (same (or_default null o) w))
          (get_nested-put_nested_other p (k ∷ q) v node d)
        ∙ sym (differs-get_nested k q w node))

-- The configuration after each of the three writes
abbrev after_interval : Fields → Fields
after_interval config = put_nested ("skills" ∷ "creation_nudge_interval" ∷ []) (num 0) config

abbrev after_approval : Fields → Fields
after_approval config =
    put_nested ("skills" ∷ "write_approval" ∷ []) (bool true) (after_interval config)

abbrev enforced : Fields → Fields
enforced config = put_nested ("curator" ∷ "enabled" ∷ []) (bool false) (after_approval config)

enforced-eq : (config : Fields) → (enforce_policy config).0 ≡ enforced config
unfolding enforce_policy set_all set_nested
enforced-eq config = refl

abbrev interval_differs : Fields → Bool
interval_differs config = differs ("skills" ∷ "creation_nudge_interval" ∷ []) (num 0) config

abbrev approval_differs : Fields → Bool
approval_differs config = differs ("skills" ∷ "write_approval" ∷ []) (bool true) config

abbrev enabled_differs : Fields → Bool
enabled_differs config = differs ("curator" ∷ "enabled" ∷ []) (bool false) config

-- The violated paths, by the three differences
abbrev paths_of : Bool → Bool → Bool → List (List String)
paths_of a b c =
    let third = if c then ("curator" ∷ "enabled" ∷ []) ∷ [] else [] in
    let second = if b then ("skills" ∷ "write_approval" ∷ []) ∷ third else third in
    if a then ("skills" ∷ "creation_nudge_interval" ∷ []) ∷ second else second

violations-eq :
    (config : Fields)
    → policy_violations config
      ≡ paths_of (interval_differs config) (approval_differs config) (enabled_differs config)
unfolding policy_violations violations_from same
violations-eq config =
    rw
      (
        violates-differs "skills" "creation_nudge_interval" (num 0) config refl,
        violates-differs "skills" "write_approval" (bool true) config refl,
        violates-differs "curator" "enabled" (bool false) config refl,
      )
      refl

violations_none :
    (config : Fields)
    → interval_differs config ≡ false
    → approval_differs config ≡ false
    → enabled_differs config ≡ false
    → policy_violations config ≡ []
violations_none config a b c = violations-eq config ∙ rw (a, b, c) refl

-- The later writes do not change what the earlier keys differ in.
approval_after :
    (config : Fields) → approval_differs (after_interval config) ≡ approval_differs config
approval_after config =
    differs-put_nested_other ("skills" ∷ "creation_nudge_interval" ∷ []) ("write_approval" ∷ [])
      "skills" (num 0) (bool true) config refl

enabled_after : (config : Fields) → enabled_differs (after_approval config) ≡ enabled_differs config
enabled_after config =
    differs-put_nested_other ("skills" ∷ "write_approval" ∷ []) ("enabled" ∷ []) "curator"
      (bool true) (bool false) (after_interval config) refl
    ∙ differs-put_nested_other ("skills" ∷ "creation_nudge_interval" ∷ []) ("enabled" ∷ [])
        "curator" (num 0) (bool false) config refl

flag-eq :
    (config : Fields)
    → (enforce_policy config).1
      ≡ (((false || interval_differs config) || approval_differs config) || enabled_differs config)
unfolding enforce_policy set_all set_nested
flag-eq config = rw (← approval_after config, ← enabled_after config) refl

-- After the policy is enforced, no key is violated.
pub policy_violations-enforce_policy :
    (config : Fields) → policy_violations (enforce_policy config).0 ≡ []
unfolding same
policy_violations-enforce_policy config =
    ap policy_violations (enforced-eq config)
    ∙ violations_none (enforced config)
        (differs-put_nested_other ("curator" ∷ "enabled" ∷ []) ("creation_nudge_interval" ∷ [])
            "skills" (bool false) (num 0) (after_approval config) refl
          ∙ (differs-put_nested_other ("skills" ∷ "write_approval" ∷ [])
                ("creation_nudge_interval" ∷ []) "skills" (bool true) (num 0)
                (after_interval config) refl
              ∙ differs-put_nested_self ("skills" ∷ "creation_nudge_interval" ∷ []) (num 0) config
                  refl))
        (differs-put_nested_other ("curator" ∷ "enabled" ∷ []) ("write_approval" ∷ []) "skills"
            (bool false) (bool true) (after_approval config) refl
          ∙ differs-put_nested_self ("skills" ∷ "write_approval" ∷ []) (bool true)
              (after_interval config) refl)
        (differs-put_nested_self ("curator" ∷ "enabled" ∷ []) (bool false) (after_approval config)
          refl)

-- A value at a path that diverges from the three policy paths stays what it was.
pub enforce_policy_others :
    (config : Fields) (q : List String)
    → diverges ("skills" ∷ "creation_nudge_interval" ∷ []) q ≡ true
    → diverges ("skills" ∷ "write_approval" ∷ []) q ≡ true
    → diverges ("curator" ∷ "enabled" ∷ []) q ≡ true
    → get_nested q (enforce_policy config).0 ≡ get_nested q config
enforce_policy_others config q a b c =
    ap (get_nested q) (enforced-eq config)
    ∙ (get_nested-put_nested_other ("curator" ∷ "enabled" ∷ []) q (bool false)
          (after_approval config) c
        ∙ (get_nested-put_nested_other ("skills" ∷ "write_approval" ∷ []) q (bool true)
              (after_interval config) b
            ∙ get_nested-put_nested_other ("skills" ∷ "creation_nudge_interval" ∷ []) q (num 0)
                config a))

enforced_same :
    (config : Fields)
    → interval_differs config ≡ false
    → approval_differs config ≡ false
    → enabled_differs config ≡ false
    → enforced config ≡ config
unfolding same
enforced_same config a b c =
    let one : after_interval config ≡ config = put_nested-same _ (num 0) config refl a in
    let two : after_approval config ≡ config =
      ap (put_nested ("skills" ∷ "write_approval" ∷ []) (bool true)) one
      ∙ put_nested-same _ (bool true) config refl b in
    ap (put_nested ("curator" ∷ "enabled" ∷ []) (bool false)) two
    ∙ put_nested-same _ (bool false) config refl c

-- What the flag tells, by the three differences
flag_tells :
    (config : Fields) (a b c : Bool)
    → interval_differs config ≡ a
    → approval_differs config ≡ b
    → enabled_differs config ≡ c
    → ((enforce_policy config).1 ≡ true) × (policy_violations config ≢ [])
      ⊎ ((enforce_policy config ≡ (config, false)) × (policy_violations config ≡ []))
flag_tells config true b c ea eb ec =
    inl (ground (arith, flag-eq config), ground (arith, violations-eq config))
flag_tells config false true c ea eb ec =
    inl (ground (arith, flag-eq config), ground (arith, violations-eq config))
flag_tells config false false true ea eb ec =
    inl (ground (arith, flag-eq config), ground (arith, violations-eq config))
flag_tells config false false false ea eb ec =
    let unset : (enforce_policy config).1 ≡ false = ground (arith, flag-eq config) in
    let kept = enforced-eq config ∙ enforced_same config ea eb ec in
    inr (λ i. (kept i, unset i), violations_none config ea eb ec)

-- Either the flag of enforcing the policy is set and some key was violated before, or it is not set,
-- no key was violated, and the configuration is wholly unchanged.
pub enforce_policy_flag :
    (config : Fields)
    → ((enforce_policy config).1 ≡ true) × (policy_violations config ≢ [])
      ⊎ ((enforce_policy config ≡ (config, false)) × (policy_violations config ≡ []))
enforce_policy_flag config = flag_tells config _ _ _ refl refl refl
