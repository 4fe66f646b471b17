-- ===== src/Merge/Reapply.antt =====
-- internal/server/merge.go, `reapplyRules`: two atomic flags that are to keep one background pass
-- running and to schedule one more when the rules change under it. Every atomic operation is one
-- step, taken by any of the callers or by the goroutine, in any order.
use file_fin.Prelude.{ℕ, suc, ◌+◌, ◌<◌, ◌≤◌, ◌≡◌, refl, ◌⊎◌, ◌↔◌, Bool, true, false, arith}

-- The two flags, the goroutines, and what is needed to say what they have done: `rules` counts the
-- changes of the rules, and `applied` is that count when the last pass began. Callers have changed
-- the rules and are before their `CompareAndSwap` (`called`), or have seen it fail and are before
-- their `Store(true)` (`refused`). Goroutines are before `reapplyRulesPass` (`starting`), inside it
-- (`running`), before `reapplyAgain.Swap(false)` (`testing`), or before the deferred
-- `reapplying.Store(false)` (`stopping`). Each of these six is the number of those who stand there.
pub record Reapply : Type 0 where
  pub reapplying : Bool
  pub reapply_again : Bool
  pub starting : ℕ
  pub running : ℕ
  pub testing : ℕ
  pub stopping : ℕ
  pub rules : ℕ
  pub applied : ℕ
  pub called : ℕ
  pub refused : ℕ

pub data Step (s t : Reapply) : Type 0 where
  change : t ≡ record s { rules = s.rules + 1; called = s.called + 1 } → Step s t
  start :
      (c : ℕ)
      → s.called ≡ suc c
      → s.reapplying ≡ false
      → t ≡ record s { called = c; reapplying = true; starting = s.starting + 1 }
      → Step s t
  refuse :
      (c : ℕ)
      → s.called ≡ suc c
      → s.reapplying ≡ true
      → t ≡ record s { called = c; refused = s.refused + 1 }
      → Step s t
  mark : (r : ℕ) → s.refused ≡ suc r → t ≡ record s { refused = r; reapply_again = true } → Step s t
  begin_pass :
      (n : ℕ)
      → s.starting ≡ suc n
      → t ≡ record s { starting = n; running = s.running + 1; applied = s.rules }
      → Step s t
  end_pass :
      (n : ℕ) → s.running ≡ suc n → t ≡ record s { running = n; testing = s.testing + 1 } → Step s t
  go_on :
      (n : ℕ)
      → s.testing ≡ suc n
      → s.reapply_again ≡ true
      → t ≡ record s { testing = n; starting = s.starting + 1; reapply_again = false }
      → Step s t
  give_up :
      (n : ℕ)
      → s.testing ≡ suc n
      → s.reapply_again ≡ false
      → t ≡ record s { testing = n; stopping = s.stopping + 1 }
      → Step s t
  release :
      (n : ℕ) → s.stopping ≡ suc n → t ≡ record s { stopping = n; reapplying = false } → Step s t

pub data Reach (s : Reapply) : Reapply → Type 0 where
  here : Reach s s
  next : {t u : Reapply} → Reach s t → Step t u → Reach s u

abbrev pub init : Reapply
init = record {
  reapplying = false;
  reapply_again = false;
  starting = 0;
  running = 0;
  testing = 0;
  stopping = 0;
  rules = 0;
  applied = 0;
  called = 0;
  refused = 0;
}

abbrev pub goroutines : Reapply → ℕ
goroutines s = s.starting + s.running + s.testing + s.stopping

-- No goroutine, and no caller inside `reapplyRules`.
abbrev pub IsQuiet : Reapply → Type 0
IsQuiet s = (goroutines s ≡ 0) × (s.called ≡ 0) × (s.refused ≡ 0)

record Inv (s : Reapply) : Type 0 where
  one_pass :
      ((s.reapplying ≡ false) × (goroutines s ≡ 0)) ⊎ ((s.reapplying ≡ true) × (goroutines s ≡ 1))
  bounded : s.applied ≤ s.rules
  noticed :
      s.applied < s.rules
      → (0 < s.called) ⊎ ((0 < s.refused) ⊎ ((s.reapply_again ≡ true) ⊎ (0 < s.starting)))

Step-Inv : (s t : Reapply) → Step s t → Inv s → Inv t
Step-Inv s t (change e) h = ground arith
Step-Inv s t (start c a b e) h = ground arith
Step-Inv s t (refuse c a b e) h = ground arith
Step-Inv s t (mark r a e) h = ground arith
Step-Inv s t (begin_pass n a e) h = ground arith
Step-Inv s t (end_pass n a e) h = ground arith
Step-Inv s t (go_on n a b e) h = ground arith
Step-Inv s t (give_up n a b e) h = ground arith
Step-Inv s t (release n a e) h = ground arith

Reach-Inv : (t : Reapply) → Reach init t → Inv t
Reach-Inv t here = ground arith
Reach-Inv t (next {t = s} r st) = Step-Inv s t st (Reach-Inv s r)

-- In every reachable state there is at most one goroutine, so never two passes at once, and the
-- flag `reapplying` is clear exactly when there is none; and once no goroutine and no caller is
-- left, either every change of the rules has been applied by a pass that began after it, or
-- `reapplyAgain` is still set.
pub Reach-applied :
    (s : Reapply)
    → Reach init s
    → (goroutines s ≤ 1)
      × ((s.reapplying ≡ false) ↔ (goroutines s ≡ 0))
      × (IsQuiet s → (s.applied ≡ s.rules) ⊎ (s.reapply_again ≡ true))
Reach-applied s r =
    let h = Reach-Inv s r in
    (ground (arith, h.one_pass), ground (arith, h.one_pass), λ q. ground (arith, h))

-- A change of the rules can be lost: from every reachable state in which a goroutine is between its
-- last look at `reapplyAgain` and the clearing of `reapplying`, with no caller under way, a quiet
-- state can be reached with one more change and no pass that has applied it.
pub stopping-loses :
    (s : Reapply)
    → Reach init s
    → 0 < s.stopping
    → s.called ≡ 0
    → s.refused ≡ 0
    → (t : Reapply) × Reach s t × IsQuiet t × (t.rules ≡ s.rules + 1) × (t.applied < t.rules)
stopping-loses s r p c f =
    let h = Reach-Inv s r in
    let s₁ : Reapply = record s { rules = s.rules + 1; called = s.called + 1 } in
    let s₂ : Reapply = record s₁ { called = 0; refused = s.refused + 1 } in
    let s₃ : Reapply = record s₂ { refused = 0; reapply_again = true } in
    let s₄ : Reapply = record s₃ { stopping = 0; reapplying = false } in
    let r₃ : Reach s s₃ =
      next
        (next (next here (change refl)) (refuse 0 (omega arith) (ground (arith, h.one_pass)) refl))
        (mark 0 (omega arith) refl) in
    (
      s₄,
      next r₃ (release 0 (ground (arith, h.one_pass)) refl),
      ground (arith, h.one_pass),
      refl,
      omega (arith, h.bounded),
    )
