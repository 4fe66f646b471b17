-- ===== src/Sources/Decisions.antt =====
-- internal/sources/resolve.go: the switch of `resolveField`, taken again after its own write,
-- decides the same.
use file_fin.Prelude.{
  ◌≡◌, refl, ◌∙◌, ◌⊎◌, inl, inr, Bool, true, false, not, ◌&&◌, Bool-cases, Option, Option-cases,
  none, some, List, [], ◌∷◌, if◌then◌else◌, ◌==◌, length, Str, str_eq, str_eq_self, contains, Map,
  lookup, arith,
}
use file_fin.Sources.Field.{Policy, Field, choice_union}
use file_fin.Sources.Compare.{Unicode, Class, fold, same_values, same_set, subset, fold_all}
use file_fin.Sources.Resolve.{
  Status, single, agrees, conflict, rule, kept_local, is_nil, is_agree, is_field, is_manual_choice,
  values_at, order_first, fill, settle_agreed, settle_compared, settle_prose, settle_union,
  settle_policy, union, derived, equals_some, spread, decide,
}

subset-cons : (k : Str) (a b : List Str) → subset a b ≡ true → subset a (k ∷ b) ≡ true
unfolding subset contains
subset-cons k [] b h = refl
subset-cons k (x ∷ a) b h = ground (arith, subset-cons k a b)

subset_self : (a : List Str) → subset a a ≡ true
unfolding subset contains
subset_self [] = refl
subset_self (x ∷ a) = rw (str_eq_self x, subset-cons x a a (subset_self a)) refl

order_first-lookup :
    (m : Map (List Str)) → is_nil m ≡ false → (src : Str) × (lookup src m ≡ some (order_first m))
unfolding lookup
order_first-lookup [] h = cc
order_first-lookup ((src, v) ∷ m) h = (src, rw (str_eq_self src) refl)

module _ (uni : Unicode) where
  pub same_values_self : (a : List Str) (list : Bool) → same_values uni a a list ≡ true
  unfolding same_values same_set
  same_values_self a true = ground (arith, subset_self (fold_all a (fold uni)))
  same_values_self a false = str_eq_self _

  equals_some-lookup :
      (vals : Map (List Str)) (src : Str) (v : List Str) (list : Bool)
      → lookup src vals ≡ some v
      → equals_some uni v vals list ≡ true
  unfolding equals_some lookup
  equals_some-lookup [] src v list h = cc
  equals_some-lookup ((k, w) ∷ vals) src v list h =
      ground (arith, same_values_self v list, equals_some-lookup vals src v list)

  module _ (f : Field) (vals : Map (List Str)) where
    -- Where a value that is set may come from.
    pub data Origin (v : List Str) : Type 0 where
      of_source : (src : Str) → lookup src vals ≡ some v → Origin v
      of_union : f.list ≡ true → is_nil vals ≡ false → v ≡ union uni vals → Origin v

    derived-Origin : (v : List Str) → Origin v → derived uni v vals f ≡ true
    unfolding derived
    derived-Origin v (of_source src h) = rw (equals_some-lookup vals src v f.list h) refl
    derived-Origin v (of_union l n e) =
        rw (l, e, same_values_self (union uni vals) true) (ground arith)

    values_at-Origin :
        (src : Str) → is_nil (values_at vals src) ≡ false → Origin (values_at vals src)
    unfolding values_at
    values_at-Origin src h = elim (Option-cases (lookup src vals)) [
      | inl e ↦ absurd (ground (arith, h, e))
      | inr (v, e) ↦ rw (e, values_at) (of_source src e)
    ]

    -- The two forms that the last cases of the switch have: a value that is set whatever stands
    -- there, or one that only fills an empty field.
    pub data Settles (g : List Str → Option (List Str) × Status) : Type 0 where
      always :
          (v : List Str) (st : Status)
          → Origin v
          → ((cur : List Str) → g cur ≡ (some v, st))
          → Settles g
      filling : (st : Status) → ((cur : List Str) → g cur ≡ (fill vals cur, st)) → Settles g

    -- A decision that sets nothing, or sets a value at which it is taken again.
    abbrev pub Repeats :
        (List Str → Option (List Str) × Status) → Option (List Str) × Status → Type 0
    Repeats g d =
        (d.0 ≡ none)
        ⊎ ((v : List Str) × (d.0 ≡ some v) × Origin v × ((g v ≡ d) ⊎ (g v ≡ (none, d.1))))

    unless_local : (List Str → Option (List Str) × Status) → List Str → Option (List Str) × Status
    unless_local g cur =
        if not (is_nil cur) && not (derived uni cur vals f) then (none, kept_local) else g cur

    unless_local-Origin :
        (g : List Str → Option (List Str) × Status) (v : List Str)
        → Origin v
        → unless_local g v ≡ g v
    unfolding unless_local
    unless_local-Origin g v o =
        let test : (not (is_nil v) && not (derived uni v vals f)) ≡ false =
          ground (arith, derived-Origin v o) in
        rw test refl

    fill-some : (cur : List Str) → is_nil cur ≡ true → fill vals cur ≡ some (order_first vals)
    unfolding fill
    fill-some cur h = rw h refl

    fill-none : (cur : List Str) → is_nil cur ≡ false → fill vals cur ≡ none
    unfolding fill
    fill-none cur h = rw h refl

    filling-Repeats :
        (g : List Str → Option (List Str) × Status) (st : Status) (cur : List Str)
        → is_nil vals ≡ false
        → ((c : List Str) → g c ≡ (fill vals c, st))
        → Repeats (unless_local g) (fill vals cur, st)
    filling-Repeats g st cur h e = elim (Bool-cases (is_nil cur)) [
      | inr full ↦ inl (fill-none cur full)
      | inl nil ↦
          let v = order_first vals in
          let (src, found) = order_first-lookup vals h in
          let o : Origin v = of_source src found in
          let again : unless_local g v ≡ (fill vals v, st) = unless_local-Origin g v o ∙ e v in
          rw (fill-some cur nil) (
            inr (
              v,
              refl,
              o,
              elim (Bool-cases (is_nil v)) [
                | inl a ↦ inl (rw (again, fill-some v a) refl)
                | inr a ↦ inr (rw (again, fill-none v a) refl)
              ],
            ))
    ]

    unless_local-Repeats :
        (g : List Str → Option (List Str) × Status) (cur : List Str)
        → is_nil vals ≡ false
        → Settles g
        → Repeats (unless_local g) (unless_local g cur)
    unless_local-Repeats g cur h s =
        elim (Bool-cases (not (is_nil cur) && not (derived uni cur vals f))) [
          | inl local ↦ inl (unfold unless_local in rw local refl)
          | inr open_field ↦
              let now : unless_local g cur ≡ g cur = unfold unless_local in rw open_field refl in
              rw now (settled s)
        ]
      where
        settled : Settles g → Repeats (unless_local g) (g cur)
        settled (always v st o e) =
            rw (e cur) (inr (v, refl, o, inl (unless_local-Origin g v o ∙ e v)))
        settled (filling st e) = rw (e cur) (filling-Repeats g st cur h e)

    module _ (first : Option Str) (class : Class)
        (has_value : (src : Str) → first ≡ some src → is_nil (values_at vals src) ≡ false)
        (some_source : is_nil vals ≡ false) (unions : f.policy ≡ Policy.union → f.list ≡ true) where
      settle_prose-Settles : (st : Status) → Settles (λ cur. (settle_prose vals first cur, st))
      unfolding settle_prose
      settle_prose-Settles st = elim (Option-cases first) [
        | inl e ↦ filling st (λ cur. rw e refl)
        | inr (src, e) ↦
            always (values_at vals src) st (values_at-Origin src (has_value src e))
              (λ cur. rw e refl)
      ]

      settle_compared-Settles : Settles (settle_compared vals first class)
      unfolding settle_compared
      settle_compared-Settles = elim (Option-cases first) [
        | inl e ↦ filling conflict (λ cur. rw e refl)
        | inr (src, e) ↦ elim (Bool-cases (is_field class)) [
          | inl c ↦
              always (values_at vals src) rule (values_at-Origin src (has_value src e))
                (λ cur. rw (e, c) refl)
          | inr c ↦ filling conflict (λ cur. rw (e, c) refl)
        ]
      ]

      comparing-Settles : Settles (λ cur.
          if is_agree class then settle_agreed vals cur else settle_compared vals first class cur)
      comparing-Settles = elim (Bool-cases (is_agree class)) [
        | inl c ↦ rw c (
            filling (if length vals == 1 then single else agrees)
              (λ cur. unfold settle_agreed in refl))
        | inr c ↦ rw c settle_compared-Settles
      ]

      settle_union-Settles :
          f.policy ≡ Policy.union
          → Settles (λ cur. (some (settle_union uni vals first), spread uni vals f))
      unfolding settle_union
      settle_union-Settles p = elim (Option-cases first) [
        | inl e ↦
            always (union uni vals) (spread uni vals f) (of_union (unions p) some_source refl)
              (λ cur. rw e refl)
        | inr (src, e) ↦
            always (values_at vals src) (spread uni vals f) (values_at-Origin src (has_value src e))
              (λ cur. rw e refl)
      ]

      settle_policy-Settles :
          (p : Policy) → f.policy ≡ p → Settles (settle_policy uni p f vals first class)
      unfolding settle_policy
      settle_policy-Settles Policy.union e = settle_union-Settles e
      settle_policy-Settles Policy.prose e = settle_prose-Settles (spread uni vals f)
      settle_policy-Settles Policy.fill e = settle_prose-Settles (spread uni vals f)
      settle_policy-Settles _ e = comparing-Settles

      -- Whatever stands in the field, the switch sets nothing, or sets a value of a source, or the
      -- union of the sources of a list, at which it decides the same again.
      pub decide-Repeats :
          (choice : Str) (cur : List Str)
          → Repeats
              (decide uni f vals choice first class)
              (decide uni f vals choice first class cur)
      unfolding decide
      decide-Repeats choice cur = elim (Bool-cases (is_manual_choice choice)) [
        | inl a ↦ rw a (inl refl)
        | inr a ↦
            rw a (elim (Bool-cases (str_eq choice choice_union && f.list && not (is_nil vals))) [
              | inl b ↦
                  rw b
                    (inr (union uni vals, refl, of_union (ground arith) some_source refl, inl refl))
              | inr b ↦
                  rw b
                    (elim (Bool-cases
                      (not (str_eq choice []) && not (is_nil (values_at vals choice)))) [
                        | inl c ↦ rw c (
                            inr (
                              values_at vals choice,
                              refl,
                              values_at-Origin choice (ground arith),
                              inl refl,
                            ))
                        | inr c ↦
                            rw (c, some_source)
                              (unfold unless_local in
                                unless_local-Repeats (settle_policy uni f.policy f vals first class)
                                  cur some_source (settle_policy-Settles f.policy refl))
                      ])
            ])
      ]
