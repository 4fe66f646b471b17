-- ===== src/Watchlist/Order.antt =====
-- internal/watchlist/match.go, `fuzzyMatch`: the range over the index, whose order Go leaves open.
use file_fin.Prelude.{
  ℕ, ◌≡◌, refl, sym, ap, ◌∙◌, ◌⊎◌, inl, inr, true, List, [], ◌∷◌, Str, Map, ltb, arith,
}
use mathlib.Core.List.{Permᴰ}
use file_fin.Sources.Compare.{Unicode}
use file_fin.Watchlist.{
  LibraryItem, Entry, Ratios, Scan, note, score, scan_keys, rejected, fuzzy_answer, fuzzy_match,
  similar,
}
use file_fin.Watchlist.Key.{normalize}

module _ (uni : Unicode) (fl : Ratios) (rank : fl.Ratio → ℕ)
    (lt_rank : (x y : fl.Ratio) → fl.lt x y ≡ ltb (rank x) (rank y))
    (rank-injective : (x y : fl.Ratio) → rank x ≡ rank y → x ≡ y)
    (lt-sub_self : (x : fl.Ratio) → fl.lt (fl.sub x x) fl.fuzzy_separation ≡ true) where
  -- Two states of the loop that agree but for the key, and in the key unless there is a tie.
  abbrev Alike : Scan uni fl → Scan uni fl → Type 0
  Alike s t =
      (s.best ≡ t.best) × (s.second ≡ t.second) × ((s.best_key ≡ t.best_key) ⊎ (s.best ≡ s.second))

  Alike-note :
      (s t : Scan uni fl) (k : Str) (x : fl.Ratio)
      → Alike s t
      → Alike (note uni fl s k x) (note uni fl t k x)
  unfolding note
  Alike-note s t k x h = ground (
    arith,
    ap rank h.0,
    ap rank h.1,
    lt_rank s.best x,
    lt_rank t.best x,
    lt_rank s.second x,
    lt_rank t.second x,
  )

  note-swap :
      (s : Scan uni fl) (j k : Str) (x y : fl.Ratio)
      → Alike (note uni fl (note uni fl s j x) k y) (note uni fl (note uni fl s k y) j x)
  unfolding note
  note-swap s j k x y = ground (
    arith,
    lt_rank s.best x,
    lt_rank s.best y,
    lt_rank s.second x,
    lt_rank s.second y,
    lt_rank x y,
    lt_rank y x,
    rank-injective x y,
  )

  Alike-trans : (s t u : Scan uni fl) → Alike s t → Alike t u → Alike s u
  Alike-trans s t u h k = ground arith

  Alike-score :
      (q : Str) (s t : Scan uni fl) (k : Str)
      → Alike s t
      → Alike (score uni fl q s k) (score uni fl q t k)
  unfolding score
  Alike-score q s t k h = ground (arith, Alike-note s t k (similar uni fl q k) h)

  score-swap :
      (q : Str) (s : Scan uni fl) (j k : Str)
      → Alike (score uni fl q (score uni fl q s j) k) (score uni fl q (score uni fl q s k) j)
  unfolding score
  score-swap q s j k = ground (arith, note-swap s j k (similar uni fl q j) (similar uni fl q k))

  Alike-scan_keys :
      (q : Str) (keys : List Str) (s t : Scan uni fl)
      → Alike s t
      → Alike (scan_keys uni fl q s keys) (scan_keys uni fl q t keys)
  unfolding scan_keys
  Alike-scan_keys q [] s t h = h
  Alike-scan_keys q (k ∷ keys) s t h =
      Alike-scan_keys q keys (score uni fl q s k) (score uni fl q t k) (Alike-score q s t k h)

  Alike-self : (s : Scan uni fl) → Alike s s
  Alike-self s = (refl, refl, inl refl)

  scan_keys-Perm :
      (q : Str) (s : Scan uni fl) {keys keys' : List Str}
      → Permᴰ keys keys'
      → Alike (scan_keys uni fl q s keys) (scan_keys uni fl q s keys')
  unfolding scan_keys
  scan_keys-Perm q s Permᴰ.nil = Alike-self s
  scan_keys-Perm q s (Permᴰ.cons {a} {b} {l₁} {l₂} e p) =
      rw (← e) (scan_keys-Perm q (score uni fl q s a) p)
  scan_keys-Perm q s (Permᴰ.swap {a} {b} {a'} {b'} {l} e f) =
      rw (← e, ← f)
        (Alike-scan_keys q l (score uni fl q (score uni fl q s a) b)
          (score uni fl q (score uni fl q s b) a) (score-swap q s a b))
  scan_keys-Perm q s (Permᴰ.trans {l₁} {l₂} {l₃} p r) =
      Alike-trans (scan_keys uni fl q s l₁) (scan_keys uni fl q s l₂) (scan_keys uni fl q s l₃)
        (scan_keys-Perm q s p) (scan_keys-Perm q s r)

  rejected-tie : (s : Scan uni fl) → s.best ≡ s.second → rejected uni fl s ≡ true
  unfolding rejected
  rejected-tie s h = rw (h, lt-sub_self s.second) ground arith

  rejected-Alike : (s t : Scan uni fl) → Alike s t → rejected uni fl s ≡ rejected uni fl t
  rejected-Alike s t (e, f, inl g) = unfold rejected in rw (e, f, g) refl
  rejected-Alike s t (e, f, inr g) = rejected-tie s g ∙ sym (rejected-tie t (sym e ∙ g ∙ f))

  fuzzy_answer-Alike :
      (idx : Map (List LibraryItem)) (e : Entry) (s t : Scan uni fl)
      → Alike s t
      → fuzzy_answer uni fl idx e s ≡ fuzzy_answer uni fl idx e t
  unfolding fuzzy_answer
  fuzzy_answer-Alike idx e s t (f, g, inl h) = rw (rejected-Alike s t (f, g, inl h), h) refl
  fuzzy_answer-Alike idx e s t (f, g, inr h) =
      rw (rejected-tie s h, rejected-tie t (sym f ∙ h ∙ g)) refl

  -- What `fuzzyMatch` offers does not depend on the order in which Go ranges over the index. The
  -- similarities are compared as a linear order without a NaN, and a difference of equal ones is
  -- below the separation.
  pub fuzzy_match-order :
      (idx : Map (List LibraryItem)) (keys keys' : List Str) (e : Entry)
      → Permᴰ keys keys'
      → fuzzy_match uni fl idx keys e ≡ fuzzy_match uni fl idx keys' e
  unfolding fuzzy_match
  fuzzy_match-order idx keys keys' e p =
      let first : Scan uni fl = record { best_key = []; best = fl.zero_r; second = fl.zero_r } in
      rw
        (fuzzy_answer-Alike idx e (scan_keys uni fl (normalize uni e.title) first keys)
          (scan_keys uni fl (normalize uni e.title) first keys')
          (scan_keys-Perm (normalize uni e.title) first p))
        refl
