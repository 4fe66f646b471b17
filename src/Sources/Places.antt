-- ===== src/Sources/Places.antt =====
-- internal/sources/fields.go: writing twice, and writing to another place.
use file_fin.Prelude.{
  ◌≡◌, ◌≢◌, refl, ap, ◌∙◌, inl, inr, Bool, false, Bool-cases, some, List, [], ◌∷◌, Str, str_eq,
  str_eq_iff, Map, lookup, insert, lookup-insert, lookup-delete, arith,
}
use file_fin.Strings.{join}
use file_fin.Sources.Field.{
  Meta, Slot, title, year, description, actors, genres, metadata, clean, comma_space, split_raw,
  value_at, set_at,
}
use file_fin.Sources.Values.{Written, text_at-cong, year_text}

insert_same : (k : Str) (v : Str) (m : Map Str) → lookup k m ≡ some v → insert k v m ≡ m
unfolding insert lookup
insert_same k v [] h = cc
insert_same k v ((j, w) ∷ m) h = ground (arith, str_eq_iff j k, insert_same k v m)

-- Writing again what is written changes nothing.
pub set_at-same : (m : Meta) (p : Slot) (v : List Str) → Written m p v → set_at m p v ≡ m
unfolding set_at
set_at-same m actors v w = rw (← w) refl
set_at-same m genres v w = rw (← w) refl
set_at-same m year v w = rw (← w) refl
set_at-same m title v w = rw (← w) refl
set_at-same m description v w = rw (← w) refl
set_at-same m (metadata k) v w = rw (w.1, insert_same k (join comma_space v) m.metadata w.0) refl

module _ (m : Meta) (v : List Str) where
  title-set_at : (p : Slot) → p ≢ title → (set_at m p v).title ≡ m.title
  unfolding set_at
  title-set_at p ne = ground arith

  year-set_at : (p : Slot) → p ≢ year → (set_at m p v).year ≡ m.year
  unfolding set_at
  year-set_at p ne = ground arith

  description-set_at : (p : Slot) → p ≢ description → (set_at m p v).description ≡ m.description
  unfolding set_at
  description-set_at p ne = ground arith

  actors-set_at : (p : Slot) → p ≢ actors → (set_at m p v).actors ≡ m.actors
  unfolding set_at
  actors-set_at p ne = ground arith

  genres-set_at : (p : Slot) → p ≢ genres → (set_at m p v).genres ≡ m.genres
  unfolding set_at
  genres-set_at p ne = ground arith

  lookup-set_at :
      (p : Slot) (j : Str) → p ≢ metadata j → lookup j (set_at m p v).metadata ≡ lookup j m.metadata
  unfolding set_at
  lookup-set_at (metadata k) j ne =
      let other : str_eq k j ≡ false = ground (arith, str_eq_iff k j) in
      elim (Bool-cases (str_eq (join comma_space v) [])) [
        | inl e ↦ rw e (rw (lookup-delete k j m.metadata, other) refl)
        | inr e ↦ rw e (rw (lookup-insert k j (join comma_space v) m.metadata, other) refl)
      ]
  lookup-set_at p j ne = refl

-- A write to one place leaves the others as they are.
pub value_at-set_at :
    (m : Meta) (p q : Slot) (joined : Bool) (v : List Str)
    → p ≢ q
    → value_at (set_at m p v) q joined ≡ value_at m q joined
unfolding value_at
value_at-set_at m p title joined v ne = ap (split_raw joined) (title-set_at m v p ne)
value_at-set_at m p year joined v ne =
    ap (λ y. split_raw joined (year_text y)) (year-set_at m v p ne)
value_at-set_at m p description joined v ne = ap (split_raw joined) (description-set_at m v p ne)
value_at-set_at m p actors joined v ne = ap clean (actors-set_at m v p ne)
value_at-set_at m p genres joined v ne = ap clean (genres-set_at m v p ne)
value_at-set_at m p (metadata k) joined v ne =
    ap (split_raw joined)
      (text_at-cong (set_at m p v).metadata m.metadata k (lookup-set_at m v p k ne))

pub Written-set_at :
    (m : Meta) (p q : Slot) (v w : List Str) → p ≢ q → Written m q w → Written (set_at m p v) q w
Written-set_at m p title v w ne h = title-set_at m v p ne ∙ h
Written-set_at m p year v w ne h = year-set_at m v p ne ∙ h
Written-set_at m p description v w ne h = description-set_at m v p ne ∙ h
Written-set_at m p actors v w ne h = actors-set_at m v p ne ∙ h
Written-set_at m p genres v w ne h = genres-set_at m v p ne ∙ h
Written-set_at m p (metadata k) v w ne h = (lookup-set_at m v p k ne ∙ h.0, h.1)
