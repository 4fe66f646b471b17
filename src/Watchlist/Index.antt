-- ===== src/Watchlist/Index.antt =====
-- internal/watchlist/match.go: the index of the library by normalized title.
use file_fin.Prelude.{
  ℕ, zero, suc, ◌≡◌, refl, ap, sym, ◌∙◌, ◌⊎◌, subst, inl, inr, Bool, true, false, Bool-cases, some,
  List, [], ◌∷◌, ◌++◌, Str, str_eq, str_eq_iff, Map, lookup, insert, lookup-insert, get_elem?, keep,
  if◌then◌else◌, arith,
}
use file_fin.Sources.Compare.{Unicode}
use file_fin.Watchlist.{
  Entry, LibraryItem, Ratios, items_at, index_from, or_else, first_candidates, candidates,
  match_one,
}
use file_fin.Watchlist.Key.{normalize}
use file_fin.Watchlist.Years.{Among}
use file_fin.Watchlist.Preselected.{Preselects, Trusted, match_one-Trusted}

-- The items of the library that have this key.
abbrev pub with_key : Unicode → Str → List LibraryItem → List LibraryItem
with_key uni key lib = keep (λ it. str_eq (normalize uni it.title) key) lib

items_at-insert :
    (idx : Map (List LibraryItem)) (k j : Str) (cands : List LibraryItem)
    → items_at (insert k cands idx) j ≡ (if str_eq k j then cands else items_at idx j)
unfolding items_at
items_at-insert idx k j cands =
    rw (items_at, lookup-insert k j cands idx)
      (elim (Bool-cases (str_eq k j)) [ inl h ↦ rw h refl | inr h ↦ rw h refl ])

append_assoc : (xs ys zs : List LibraryItem) → (xs ++ ys) ++ zs ≡ xs ++ (ys ++ zs)
append_assoc [] ys zs = refl
append_assoc (x ∷ xs) ys zs = ap (λ l. x ∷ l) (append_assoc xs ys zs)

append_nil : (xs : List LibraryItem) → xs ++ [] ≡ xs
append_nil [] = refl
append_nil (x ∷ xs) = ap (λ l. x ∷ l) (append_nil xs)

Among-or_else :
    (xs ys : List LibraryItem) (it : LibraryItem)
    → Among it (or_else xs ys)
    → Among it xs ⊎ Among it ys
Among-or_else [] ys it h = inr h
Among-or_else (x ∷ xs) ys it h = inl h

Among-nil : (it : LibraryItem) → ¬ Among it []
Among-nil it (j, h) = cc

Among-cons :
    (x : LibraryItem) (xs : List LibraryItem) (it : LibraryItem)
    → Among it (x ∷ xs)
    → (x ≡ it) ⊎ Among it xs
Among-cons x xs it (zero, h) = inl cc
Among-cons x xs it (suc j, h) = inr (j, h)

Among-keep :
    (p : LibraryItem → Bool) (xs : List LibraryItem) (it : LibraryItem)
    → Among it (keep p xs)
    → p it ≡ true
unfolding keep
Among-keep p [] it (j, h) = cc
Among-keep p (x ∷ xs) it h = elim (Bool-cases (p x)) [
  | inr e ↦ Among-keep p xs it (subst (λ l. Among it l) (rw e refl) h)
  | inl e ↦
      elim (Among-cons x (keep p xs) it
        (subst (λ l. Among it l) {y = x ∷ keep p xs} (rw e refl) h)) [
          | inl same ↦ subst (λ y. p y ≡ true) same e
          | inr g ↦ Among-keep p xs it g
        ]
]

module _ (uni : Unicode) where
  items_at-index_from :
      (idx : Map (List LibraryItem)) (lib : List LibraryItem) (key : Str)
      → str_eq key [] ≡ false
      → items_at (index_from uni idx lib) key ≡ items_at idx key ++ with_key uni key lib
  unfolding index_from keep
  items_at-index_from idx [] key h = sym (append_nil (items_at idx key))
  items_at-index_from idx (it ∷ lib) key h =
      let k = normalize uni it.title in
      let cands = items_at idx k ++ it ∷ [] in
      let inserted = items_at-index_from (insert k cands idx) lib key h in
      elim (Bool-cases (str_eq k [])) [
        | inl e ↦
            let f : str_eq k key ≡ false =
              ground (arith, e, h, str_eq_iff k [], str_eq_iff key [], str_eq_iff k key) in
            rw (e, f, index_from) (items_at-index_from idx lib key h)
        | inr e ↦ elim (Bool-cases (str_eq k key)) [
          | inr f ↦
              rw (e, f, index_from)
                (inserted
                  ∙ ap (λ l. l ++ with_key uni key lib)
                      (items_at-insert idx k key cands ∙ rw f refl))
          | inl f ↦
              rw (e, f, index_from)
                (inserted
                  ∙ ap (λ l. l ++ with_key uni key lib)
                      (items_at-insert idx k key cands ∙ rw f refl)
                  ∙ append_assoc (items_at idx k) (it ∷ []) (with_key uni key lib)
                  ∙ ap (λ j. items_at idx j ++ it ∷ with_key uni key lib) ((str_eq_iff k key).0 f))
        ]
      ]

  items_at-index_nil :
      (idx : Map (List LibraryItem)) (lib : List LibraryItem)
      → items_at (index_from uni idx lib) [] ≡ items_at idx []
  unfolding index_from
  items_at-index_nil idx [] = refl
  items_at-index_nil idx (it ∷ lib) = elim (Bool-cases (str_eq (normalize uni it.title) [])) [
    | inl e ↦ rw (e, index_from) (items_at-index_nil idx lib)
    | inr e ↦
        rw (e, index_from)
          (items_at-index_nil
              (insert (normalize uni it.title) (items_at idx (normalize uni it.title) ++ it ∷ [])
                idx)
              lib
            ∙ items_at-insert idx (normalize uni it.title) []
                (items_at idx (normalize uni it.title) ++ it ∷ [])
            ∙ rw e refl)
  ]

  -- Under a key the index holds the items of the library with that key, in the order of the
  -- library, and under the empty key it holds none.
  pub items_at-index :
      (lib : List LibraryItem) (key : Str)
      → items_at (index_from uni [] lib) key ≡ (if str_eq key [] then [] else with_key uni key lib)
  items_at-index lib key = elim (Bool-cases (str_eq key [])) [
    | inl e ↦
        rw (e, (str_eq_iff key []).0 e)
          (items_at-index_nil [] lib ∙ (unfold items_at lookup in refl))
    | inr e ↦ rw e (items_at-index_from [] lib key e ∙ (unfold items_at lookup in refl))
  ]

  titled :
      (lib : List LibraryItem) (key : Str) (it : LibraryItem)
      → Among it (items_at (index_from uni [] lib) key)
      → normalize uni it.title ≡ key
  titled lib key it h =
      let g = subst (λ l. Among it l) (items_at-index lib key) h in
      elim (Bool-cases (str_eq key [])) [
        | inl e ↦ absurd (
            Among-nil it
              (subst (λ (b : Bool). Among it (if b then [] else with_key uni key lib)) e g))
        | inr e ↦ (str_eq_iff (normalize uni it.title) key).0 (
            Among-keep (λ d. str_eq (normalize uni d.title) key) lib it
              (subst (λ (b : Bool). Among it (if b then [] else with_key uni key lib)) e g))
      ]

  first_candidates-titled :
      (lib : List LibraryItem) (titles : List Str) (it : LibraryItem)
      → Among it (first_candidates uni (index_from uni [] lib) titles)
      → (i : ℕ) × (t : Str) × (get_elem? titles i ≡ some t)
        × (normalize uni it.title ≡ normalize uni t)
  unfolding first_candidates
  first_candidates-titled lib [] it (j, h) = cc
  first_candidates-titled lib (t ∷ titles) it h =
      elim (Among-or_else (items_at (index_from uni [] lib) (normalize uni t)) _ it h) [
        | inr g ↦ let (i, u, e, f) = first_candidates-titled lib titles it g in (suc i, u, e, f)
        | inl g ↦ (0, t, refl, titled lib (normalize uni t) it g)
      ]

  Trusted-Among :
      (e : Entry) (cands : List LibraryItem) (it : LibraryItem)
      → Trusted e cands it
      → Among it cands
  Trusted-Among e cands it (inl (h, g)) = (0, rw h refl)
  Trusted-Among e cands it (inr (h, p, g)) = h

  -- An exact or a confident match pairs the entry with an item whose normalized title is that of
  -- the entry or of one of its aliases.
  pub match_one-titled :
      (fl : Ratios) (lib : List LibraryItem) (keys : List Str) (e : Entry) (it : LibraryItem)
      → Preselects (match_one uni fl (index_from uni [] lib) keys e) it
      → (i : ℕ) × (t : Str) × (get_elem? (e.title ∷ e.aliases) i ≡ some t)
        × (normalize uni it.title ≡ normalize uni t)
  unfolding candidates
  match_one-titled fl lib keys e it h =
      let idx = index_from uni [] lib in
      first_candidates-titled lib (e.title ∷ e.aliases) it
        (Trusted-Among e (candidates uni idx e) it (match_one-Trusted uni fl idx keys e it h))
