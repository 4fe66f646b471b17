-- ===== src/Sources/Ratings.antt =====
-- internal/sources/resolve.go: filling in the ratings a second time adds nothing.
use file_fin.Prelude.{
  ◌≡◌, refl, sym, ap, subst, Bool, Option, ◌⊎◌, inl, inr, true, false, none, some, List, [], ◌∷◌,
  All, if◌then◌else◌, Str, str_eq, str_eq_iff, Map, lookup, insert, lookup-insert, arith,
}
use file_fin.Sources.Field.{Snapshot, text_at}
use file_fin.Sources.Resolve.{add_rating, add_ratings, fill_ratings}

abbrev Rated : Map Str → Str → Type 0
Rated r k = str_eq (text_at r k) [] ≡ false

-- Nothing to add for an entry: it is empty, or the item has a rating of its name.
abbrev Done : Map Str → Str × Str → Type 0
Done r e = (str_eq e.1 [] ≡ true) ⊎ Rated r e.0

abbrev or_nil : Option Str → Str
or_nil none = []
or_nil (some v) = v

or_nil-if :
    (b : Bool) (v : Str) (o : Option Str)
    → or_nil (if b then some v else o) ≡ (if b then v else or_nil o)
or_nil-if true v o = refl
or_nil-if false v o = refl

text_at-lookup : (r : Map Str) (k : Str) → text_at r k ≡ or_nil (lookup k r)
unfolding text_at
text_at-lookup r k = same (lookup k r)
  where
    same : (o : Option Str) → (elim o [ none ↦ [] | some v ↦ v ]) ≡ or_nil o
    same none = refl
    same (some v) = refl

text_at-insert :
    (k j v : Str) (r : Map Str) → text_at (insert k v r) j ≡ (if str_eq k j then v else text_at r j)
text_at-insert k j v r =
    rw (text_at-lookup (insert k v r) j, lookup-insert k j v r, text_at-lookup r j)
      (or_nil-if (str_eq k j) v (lookup j r))

add_rating-Rated : (k v : Str) (r : Map Str) (j : Str) → Rated r j → Rated (add_rating k v r) j
unfolding add_rating
add_rating-Rated k v r j h = ground (arith, text_at-insert k j v r, str_eq_iff k j)

add_rating-Done : (k v : Str) (r : Map Str) → Done (add_rating k v r) (k, v)
unfolding add_rating
add_rating-Done k v r = ground (arith, text_at-insert k k v r, str_eq_iff k k)

add_ratings-Rated : (es : Map Str) (r : Map Str) (j : Str) → Rated r j → Rated (add_ratings es r) j
unfolding add_ratings
add_ratings-Rated [] r j h = h
add_ratings-Rated ((k, v) ∷ es) r j h =
    add_ratings-Rated es (add_rating k v r) j (add_rating-Rated k v r j h)

Done-later : (es : Map Str) (r : Map Str) (e : Str × Str) → Done r e → Done (add_ratings es r) e
Done-later es r e (inl a) = inl a
Done-later es r e (inr a) = inr (add_ratings-Rated es r e.0 a)

add_ratings-Done : (es : Map Str) (r : Map Str) → All (Done (add_ratings es r)) es
unfolding add_ratings
add_ratings-Done [] r = tt
add_ratings-Done ((k, v) ∷ es) r = (
  Done-later es (add_rating k v r) (k, v) (add_rating-Done k v r),
  add_ratings-Done es (add_rating k v r),
)

add_rating-same : (k v : Str) (r : Map Str) → Done r (k, v) → add_rating k v r ≡ r
unfolding add_rating
add_rating-same k v r d = ground arith

add_ratings-same : (es : Map Str) (r : Map Str) → All (Done r) es → add_ratings es r ≡ r
unfolding add_ratings
add_ratings-same [] r d = refl
add_ratings-same ((k, v) ∷ es) r d = rw (add_rating-same k v r d.0) (add_ratings-same es r d.1)

abbrev ratings_of : Map Snapshot → Str → Map Str
ratings_of sources src = elim (lookup src sources) [ none ↦ [] | some s ↦ s.ratings ]

add_of :
    (o : Option Snapshot) (r : Map Str)
    → (elim o [ none ↦ r | some s ↦ add_ratings s.ratings r ])
      ≡ add_ratings (elim o [ none ↦ [] | some s ↦ s.ratings ]) r
unfolding add_ratings
add_of none r = refl
add_of (some s) r = refl

fill_step :
    (sources : Map Snapshot) (src : Str) (srcs : List Str) (r : Map Str)
    → fill_ratings sources (src ∷ srcs) r
      ≡ fill_ratings sources srcs (add_ratings (ratings_of sources src) r)
unfolding fill_ratings
fill_step sources src srcs r = ap (fill_ratings sources srcs) (add_of (lookup src sources) r)

fill_ratings-Rated :
    (sources : Map Snapshot) (srcs : List Str) (r : Map Str) (j : Str)
    → Rated r j
    → Rated (fill_ratings sources srcs r) j
fill_ratings-Rated sources [] r j h = unfold fill_ratings in h
fill_ratings-Rated sources (src ∷ srcs) r j h = rw (fill_step sources src srcs r) (
    fill_ratings-Rated sources srcs (add_ratings (ratings_of sources src) r) j
      (add_ratings-Rated (ratings_of sources src) r j h))

All-Done-later :
    (sources : Map Snapshot) (srcs : List Str) (r : Map Str) (es : Map Str)
    → All (Done r) es
    → All (Done (fill_ratings sources srcs r)) es
All-Done-later sources srcs r [] h = tt
All-Done-later sources srcs r (e ∷ es) h = (one h.0, All-Done-later sources srcs r es h.1)
  where
    one : Done r e → Done (fill_ratings sources srcs r) e
    one (inl a) = inl a
    one (inr a) = inr (fill_ratings-Rated sources srcs r e.0 a)

fill_ratings-Done :
    (sources : Map Snapshot) (srcs : List Str) (r : Map Str)
    → All (λ src. All (Done (fill_ratings sources srcs r)) (ratings_of sources src)) srcs
fill_ratings-Done sources [] r = tt
fill_ratings-Done sources (src ∷ srcs) r =
    let r' = add_ratings (ratings_of sources src) r in
    subst (λ t. All (λ k. All (Done t) (ratings_of sources k)) (src ∷ srcs))
      (sym (fill_step sources src srcs r))
      (
        All-Done-later sources srcs r' (ratings_of sources src)
            (add_ratings-Done (ratings_of sources src) r),
        fill_ratings-Done sources srcs r',
      )

fill_ratings-same :
    (sources : Map Snapshot) (srcs : List Str) (r : Map Str)
    → All (λ src. All (Done r) (ratings_of sources src)) srcs
    → fill_ratings sources srcs r ≡ r
fill_ratings-same sources [] r h = unfold fill_ratings in refl
fill_ratings-same sources (src ∷ srcs) r h =
    rw (fill_step sources src srcs r, add_ratings-same (ratings_of sources src) r h.0)
      (fill_ratings-same sources srcs r h.1)

pub fill_ratings_twice :
    (sources : Map Snapshot) (srcs : List Str) (r : Map Str)
    → fill_ratings sources srcs (fill_ratings sources srcs r) ≡ fill_ratings sources srcs r
fill_ratings_twice sources srcs r =
    fill_ratings-same sources srcs (fill_ratings sources srcs r) (fill_ratings-Done sources srcs r)
