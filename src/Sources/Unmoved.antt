-- ===== src/Sources/Unmoved.antt =====
-- internal/sources: merging one field leaves what the merge of another reads as it is.
use file_fin.Prelude.{
  ◌≡◌, ◌≢◌, refl, sym, ap, subst, ◌∙◌, inl, inr, false, Bool-cases, Option, none, some, List, [],
  ◌∷◌, if◌then◌else◌, Str, str_eq, str_eq_iff, bytes, Map, arith,
}
use file_fin.Sources.Field.{
  Field, Meta, Slot, title, year, description, actors, genres, metadata, slot, value, value_at,
  set_at, set_value,
}
use file_fin.Sources.Resolve.{is_nil, rule_first, values_at, current, write}
use file_fin.Sources.Values.{Written}
use file_fin.Sources.Places.{value_at-set_at, Written-set_at}

pub sources-set_at : (m : Meta) (p : Slot) (v : List Str) → (set_at m p v).sources ≡ m.sources
unfolding set_at
sources-set_at m p v = ground arith

pub choices-set_at : (m : Meta) (p : Slot) (v : List Str) → (set_at m p v).choices ≡ m.choices
unfolding set_at
choices-set_at m p v = ground arith

key_of : Slot → Str
key_of title = bytes "title"
key_of year = bytes "year"
key_of description = bytes "description"
key_of actors = bytes "actors"
key_of genres = bytes "genres"
key_of (metadata k) = k

key_of-if :
    (k t : Str) (p q : Slot)
    → key_of p ≡ t
    → key_of q ≡ k
    → key_of (if str_eq k t then p else q) ≡ k
key_of-if k t p q a b = elim (Bool-cases (str_eq k t)) [
  | inl e ↦ rw e (a ∙ sym ((str_eq_iff k t).0 e))
  | inr e ↦ rw e b
]

key_of-slot : (k : Str) → key_of (slot k) ≡ k
unfolding slot key_of
key_of-slot k = key_of-if k (bytes "title") title _ refl (
    key_of-if k (bytes "year") year _ refl (
      key_of-if k (bytes "description") description _ refl (
        key_of-if k (bytes "actors") actors _ refl
          (key_of-if k (bytes "genres") genres (metadata k) refl refl))))

slot-apart : (j k : Str) → str_eq j k ≡ false → slot j ≢ slot k
slot-apart j k h e =
    let same : j ≡ k = sym (key_of-slot j) ∙ ap key_of e ∙ key_of-slot k in
    ground (arith, (str_eq_iff j k).1 same)

pub rule_first-values :
    (vals : Map (List Str)) (srcs : List Str) (src : Str)
    → rule_first vals srcs ≡ some src
    → is_nil (values_at vals src) ≡ false
unfolding rule_first
rule_first-values vals [] src h = cc
rule_first-values vals (s ∷ srcs) src h = elim (Bool-cases (is_nil (values_at vals s))) [
  | inl e ↦ rule_first-values vals srcs src (rw e at h)
  | inr e ↦
      let found : some s ≡ some src = rw e at h in
      let same : s ≡ src = cc in subst (λ k. is_nil (values_at vals k) ≡ false) same e
]

-- What the merge of one field reads and writes is the same in two states.
pub record Unmoved (f : Field) (m n : Meta) : Type 0 where
  pub sources : n.sources ≡ m.sources
  pub choices : n.choices ≡ m.choices
  pub value : current n f ≡ current m f
  pub written : (v : List Str) → Written m (slot f.key) v → Written n (slot f.key) v

pub Unmoved-refl : (f : Field) (m : Meta) → Unmoved f m m
Unmoved-refl f m = record { sources = refl; choices = refl; value = refl; written = λ v w. w }

pub Unmoved-trans : (f : Field) (k m n : Meta) → Unmoved f k m → Unmoved f m n → Unmoved f k n
Unmoved-trans f k m n a b = record {
  sources = b.sources ∙ a.sources;
  choices = b.choices ∙ a.choices;
  value = b.value ∙ a.value;
  written = λ v w. b.written v (a.written v w);
}

pub current-cong :
    (f : Field) (m n : Meta)
    → value_at n (slot f.key) f.joined ≡ value_at m (slot f.key) f.joined
    → current n f ≡ current m f
unfolding current value
current-cong f m n e = rw e refl

pub write-Unmoved :
    (f g : Field) (m : Meta) (o : Option (List Str))
    → str_eq f.key g.key ≡ false
    → Unmoved f m (write m g o)
unfolding write set_value
write-Unmoved f g m none h = Unmoved-refl f m
write-Unmoved f g m (some v) h = elim (Bool-cases g.virtual) [
  | inl e ↦ rw e (Unmoved-refl f m)
  | inr e ↦
      let apart : slot g.key ≢ slot f.key = λ p. slot-apart f.key g.key h (sym p) in
      rw e (record {
        sources = sources-set_at m (slot g.key) v;
        choices = choices-set_at m (slot g.key) v;
        value =
            current-cong f m (set_at m (slot g.key) v)
              (value_at-set_at m (slot g.key) (slot f.key) f.joined v apart);
        written = λ w k. Written-set_at m (slot g.key) (slot f.key) v w apart k;
      })
]
