-- ===== src/Sources/Pins.antt =====
-- internal/sources/resolve.go: what the merge never overwrites.
use file_fin.Prelude.{
  ℕ, zero, suc, ◌≡◌, refl, sym, subst, ap, ◌∙◌, true, false, Option, none, some, List, [], ◌∷◌,
  get_elem?, if◌then◌else◌, Str, str_eq, str_eq_iff, str_eq_self, Map, arith,
}
use file_fin.Sources.Field.{
  Field, Meta, slot, value, text_at, choice_manual, choice_union, all_fields,
}
use file_fin.Sources.Compare.{Unicode, Class}
use file_fin.Sources.Resolve.{is_nil, present, gather, derived, decide, current, resolve}
use file_fin.Sources.Stored.{apart_from, is_table, all_fields-is_table}
use file_fin.Sources.Unmoved.{Unmoved, write-Unmoved}
use file_fin.Sources.Settled.{decision, decision_at, resolved, unset, resolved-Fixed}
use file_fin.Sources.Idempotent.{
  all_resolved, all_resolved-Unmoved, end_state, end_ratings, resolve_lem, value_at-rated,
}

apart_from-get_elem? :
    (g f : Field) (fs : List Field) (i : ℕ)
    → apart_from g fs ≡ true
    → get_elem? fs i ≡ some f
    → str_eq f.key g.key ≡ false
apart_from-get_elem? g f [] i h e = cc
apart_from-get_elem? g f (k ∷ fs) zero h e =
    let same : k ≡ f = cc in
    let keys : k.key ≡ f.key = ap (λ x. x.key) same in
    ground (arith, h, keys, str_eq_iff f.key g.key, str_eq_iff g.key k.key)
apart_from-get_elem? g f (k ∷ fs) (suc i) h e = apart_from-get_elem? g f fs i (ground (arith, h)) e

module _ (uni : Unicode) (srcs : List Str) (rules : Map (List Str)) where
  -- A field for which nothing is decided keeps its value through the whole loop.
  all_resolved-unset :
      (m : Meta) (fs : List Field) (i : ℕ) (f : Field)
      → is_table fs ≡ true
      → get_elem? fs i ≡ some f
      → (decision_at uni srcs rules m f).0 ≡ none
      → current (all_resolved uni srcs rules m fs) f ≡ current m f
  unfolding all_resolved
  all_resolved-unset m [] i f t e d = cc
  all_resolved-unset m (g ∷ fs) zero f t e d =
      let same : g ≡ f = cc in
      let apart : apart_from f fs ≡ true =
        subst (λ k. apart_from k fs ≡ true) same (ground (arith, t)) in
      rw (same, resolved-Fixed uni srcs rules m f (unset d))
        ((all_resolved-Unmoved uni srcs rules f m fs apart).value)
  all_resolved-unset m (g ∷ fs) (suc i) f t e d =
      let apart = apart_from-get_elem? g f fs i (ground (arith, t)) e in
      let u : Unmoved f m (resolved uni srcs rules m g) =
        unfold resolved in write-Unmoved f g m (decision_at uni srcs rules m g).0 apart in
      all_resolved-unset (resolved uni srcs rules m g) fs i f (ground (arith, t)) e
        (unfold decision_at in rw (u.value, u.sources, u.choices) d)
      ∙ u.value

current-stored : (m : Meta) (f : Field) → f.virtual ≡ false → current m f ≡ value m f
unfolding current
current-stored m f h = rw h refl

decide-local :
    (uni : Unicode) (f : Field) (vals : Map (List Str)) (first : Option Str) (class : Class)
    (cur : List Str)
    → is_nil cur ≡ false
    → derived uni cur vals f ≡ false
    → (decide uni f vals [] first class cur).0 ≡ none
unfolding decide str_eq choice_manual choice_union
decide-local uni f vals first class cur full foreign = rw (full, foreign) (ground arith)

resolve-unset :
    (uni : Unicode) (m : Meta) (rules : Map (List Str)) (i : ℕ) (f : Field)
    → get_elem? all_fields i ≡ some f
    → f.virtual ≡ false
    → (decision_at uni (present m) rules m f).0 ≡ none
    → value (resolve uni m rules).0 f ≡ value m f
unfolding value end_state
resolve-unset uni m rules i f at stored d = rw (resolve_lem uni m rules) (
    value_at-rated (end_state uni m rules) (end_ratings uni m rules) (slot f.key) f.joined
    ∙ sym (current-stored (end_state uni m rules) f stored)
    ∙ all_resolved-unset uni (present m) rules m all_fields i f all_fields-is_table at d
    ∙ current-stored m f stored)

-- A field that is pinned to "manual" keeps its value, whatever the sources and the rules say.
pub resolve-manual :
    (uni : Unicode) (m : Meta) (rules : Map (List Str)) (i : ℕ) (f : Field)
    → get_elem? all_fields i ≡ some f
    → f.pickable ≡ true
    → f.virtual ≡ false
    → text_at m.choices f.key ≡ choice_manual
    → value (resolve uni m rules).0 f ≡ value m f
resolve-manual uni m rules i f at pick stored manual =
    resolve-unset uni m rules i f at stored
      (unfold decision_at decision decide in rw (pick, manual, str_eq_self choice_manual) refl)

-- A value that no source has, nor the union of the sources for a list, is not overwritten, unless
-- the field is pinned to a source or to the union.
pub resolve-local :
    (uni : Unicode) (m : Meta) (rules : Map (List Str)) (i : ℕ) (f : Field)
    → get_elem? all_fields i ≡ some f
    → f.virtual ≡ false
    → text_at m.choices f.key ≡ []
    → is_nil (value m f) ≡ false
    → derived uni (value m f) (gather m.sources f (present m)) f ≡ false
    → value (resolve uni m rules).0 f ≡ value m f
resolve-local uni m rules i f at stored free full foreign =
    let cur : current m f ≡ value m f = current-stored m f stored in
    let choice : (if f.pickable then text_at m.choices f.key else []) ≡ [] = ground (arith, free) in
    resolve-unset uni m rules i f at stored (
      unfold decision_at decision in
      rw (choice, cur)
        (decide-local uni f (gather m.sources f (present m)) _ _ (value m f) full foreign))
