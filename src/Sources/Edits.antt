-- ===== src/Sources/Edits.antt =====
-- internal/sources/fields.go, `PinEdits`: the pins that an edit by hand leaves.
use file_fin.Prelude.{
  ℕ, zero, suc, ◌≡◌, refl, ◌∙◌, Bool, true, false, not, ◌&&◌, Bool-cases, inl, inr, some, List, [],
  ◌∷◌, get_elem?, Str, str_eq, str_eq_self, Map, insert, lookup-insert, if◌then◌else◌, arith,
}
use file_fin.Sources.Field.{
  Field, Meta, Slot, title, year, description, actors, genres, metadata, slot, value, value_at,
  text_at, choice_manual, all_fields,
}
use file_fin.Sources.Compare.{Unicode, same_values}
use file_fin.Sources.Resolve.{resolve}
use file_fin.Sources.Pins.{resolve-manual}

module _ (uni : Unicode) where
  unfoldable pub edited : Meta → Meta → Field → Bool
  edited before after f =
      f.pickable && not (same_values uni (value before f) (value after f) f.list)

  unfoldable pub pin_from : Meta → Meta → List Field → Map Str → Map Str
  pin_from before after [] out = out
  pin_from before after (f ∷ fs) out =
      pin_from before after fs
        (if edited before after f then insert f.key choice_manual out else out)

  unfoldable pub pin_edits : Meta → Meta → Map Str
  pin_edits before after = pin_from before after all_fields after.choices

text_at-insert :
    (m : Map Str) (k j v : Str) → text_at (insert k v m) j ≡ (if str_eq k j then v else text_at m j)
unfolding text_at
text_at-insert m k j v = elim (Bool-cases (str_eq k j)) [
  | inl e ↦ rw (e, text_at, lookup-insert k j v m, e) refl
  | inr e ↦ rw (e, text_at, lookup-insert k j v m, e) refl
]

pub value_at-choices :
    (m : Meta) (choices : Map Str) (s : Slot) (joined : Bool)
    → value_at (record m { choices = choices }) s joined ≡ value_at m s joined
unfolding value_at
value_at-choices m choices title joined = refl
value_at-choices m choices year joined = refl
value_at-choices m choices description joined = refl
value_at-choices m choices actors joined = refl
value_at-choices m choices genres joined = refl
value_at-choices m choices (metadata key) joined = refl

module _ (uni : Unicode) (before after : Meta) where
  pin_from-manual :
      (fs : List Field) (out : Map Str) (k : Str)
      → text_at out k ≡ choice_manual
      → text_at (pin_from uni before after fs out) k ≡ choice_manual
  unfolding pin_from
  pin_from-manual [] out k h = h
  pin_from-manual (f ∷ fs) out k h =
      pin_from-manual fs _ k (elim (Bool-cases (edited uni before after f)) [
        | inr e ↦ rw e h
        | inl e ↦ rw e (text_at-insert out f.key k choice_manual ∙ ground (arith, h))
      ])

  pin_from-edited :
      (fs : List Field) (out : Map Str) (i : ℕ) (f : Field)
      → get_elem? fs i ≡ some f
      → edited uni before after f ≡ true
      → text_at (pin_from uni before after fs out) f.key ≡ choice_manual
  unfolding pin_from
  pin_from-edited [] out i f at e = cc
  pin_from-edited (g ∷ fs) out (suc i) f at e = pin_from-edited fs _ i f at e
  pin_from-edited (g ∷ fs) out zero f at e =
      let same : g ≡ f = cc in
      pin_from-manual fs _ f.key
        (rw (same, e) (text_at-insert out f.key f.key choice_manual ∙ rw (str_eq_self f.key) refl))

  -- What an edit by hand changed keeps its typed value through a merge under any rules, since the
  -- edit pins the field.
  pub resolve-pin_edits :
      (rules : Map (List Str)) (i : ℕ) (f : Field)
      → get_elem? all_fields i ≡ some f
      → f.pickable ≡ true
      → f.virtual ≡ false
      → same_values uni (value before f) (value after f) f.list ≡ false
      → value (resolve uni (record after { choices = pin_edits uni before after }) rules).0 f
        ≡ value after f
  unfolding pin_edits edited
  resolve-pin_edits rules i f at pick stored changed =
      let m : Meta = record after { choices = pin_edits uni before after } in
      resolve-manual uni m rules i f at pick stored
        (pin_from-edited all_fields after.choices i f at (ground (arith, pick, changed)))
      ∙ (unfold value in value_at-choices after (pin_edits uni before after) (slot f.key) f.joined)
