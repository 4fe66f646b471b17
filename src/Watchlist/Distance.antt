-- ===== src/Watchlist/Distance.antt =====
-- internal/watchlist/match.go, `levenshtein`: the edit distance of two keys.
use file_fin.Prelude.{
  ℕ, suc, ◌+◌, ◌≤◌, ◌≡◌, refl, subst, ◌++◌, ◌⊎◌, sym, ap, ◌∙◌, min, Bool-cases, inl, inr, List, [],
  ◌∷◌, Str, length, ◌==◌, ==_iff, if◌then◌else◌, arith,
}

-- `levenshtein`, with the two buffers as lists. The inner loop: `left` is `curr[j-1]`, and the row
-- before starts at `prev[j-1]`.
unfoldable pub next_row : ℕ → ℕ → Str → List ℕ → List ℕ
next_row left x (y ∷ ys) (diagonal ∷ above ∷ prev) =
    let cell = min (min (above + 1) (left + 1)) (diagonal + (if x == y then 0 else 1)) in
    cell ∷ next_row cell x ys (above ∷ prev)
next_row left x ys prev = []

-- The outer loop, from row `i`.
unfoldable pub rows_from : ℕ → Str → Str → List ℕ → List ℕ
unfolding next_row
rows_from i [] b prev = prev
rows_from i (x ∷ a) b prev = rows_from (i + 1) a b ((i + 1) ∷ next_row (i + 1) x b prev)

unfoldable pub upto : ℕ → Str → List ℕ
upto i [] = i ∷ []
upto i (y ∷ b) = i ∷ upto (i + 1) b

-- `row[len(b)]`, the last cell.
unfoldable pub last_cell : List ℕ → ℕ
last_cell [] = 0
last_cell (c ∷ []) = c
last_cell (c ∷ d ∷ row) = last_cell (d ∷ row)

unfoldable pub levenshtein : Str → Str → ℕ
unfolding rows_from upto last_cell
levenshtein a b = last_cell (rows_from 0 a b (upto 0 b))

-- One step of turning a string into another, from the left.
pub data Edit : Type 0 where
  same : ℕ → Edit
  change : ℕ → ℕ → Edit
  drop : ℕ → Edit
  add : ℕ → Edit

abbrev pub source : List Edit → Str
source [] = []
source (same x ∷ s) = x ∷ source s
source (change x y ∷ s) = x ∷ source s
source (drop x ∷ s) = x ∷ source s
source (add y ∷ s) = source s

abbrev pub target : List Edit → Str
target [] = []
target (same x ∷ s) = x ∷ target s
target (change x y ∷ s) = y ∷ target s
target (drop x ∷ s) = target s
target (add y ∷ s) = y ∷ target s

abbrev pub cost : List Edit → ℕ
cost [] = 0
cost (same x ∷ s) = cost s
cost (change x y ∷ s) = cost s + 1
cost (drop x ∷ s) = cost s + 1
cost (add y ∷ s) = cost s + 1

-- The distance by its recursion on the first characters.
abbrev distance : Str → Str → ℕ
distance [] b = length b
distance (x ∷ a) [] = suc (length a)
distance (x ∷ a) (y ∷ b) =
    min (min (distance a (y ∷ b) + 1) (distance (x ∷ a) b + 1))
      (distance a b + (if x == y then 0 else 1))

abbrev rev_onto {ℓ} : {A : Type ℓ} → List A → List A → List A
rev_onto [] r = r
rev_onto (x ∷ a) r = rev_onto a (x ∷ r)

-- The cells of a row of the table after the one that `rb` stands for.
abbrev row_rest : Str → Str → Str → List ℕ
row_rest ra rb [] = []
row_rest ra rb (y ∷ b) = distance ra (y ∷ rb) ∷ row_rest ra (y ∷ rb) b

next_row-row_rest :
    (x : ℕ) (ra rb b : Str)
    → next_row (distance (x ∷ ra) rb) x b (distance ra rb ∷ row_rest ra rb b)
      ≡ row_rest (x ∷ ra) rb b
unfolding next_row
next_row-row_rest x ra rb [] = refl
next_row-row_rest x ra rb (y ∷ b) =
    ap (λ row. distance (x ∷ ra) (y ∷ rb) ∷ row) (next_row-row_rest x ra (y ∷ rb) b)

succ : (n : ℕ) → n + 1 ≡ suc n
succ n = omega arith

upto-row_rest : (rb b : Str) → upto (length rb) b ≡ length rb ∷ row_rest [] rb b
unfolding upto
upto-row_rest rb [] = refl
upto-row_rest rb (y ∷ b) =
    rw (succ (length rb)) (ap (λ row. length rb ∷ row) (upto-row_rest (y ∷ rb) b))

distance-nil : (a : Str) → distance a [] ≡ length a
distance-nil [] = refl
distance-nil (x ∷ a) = refl

next_row-first :
    (x : ℕ) (ra b : Str)
    → next_row (suc (length ra)) x b (length ra ∷ row_rest ra [] b) ≡ row_rest (x ∷ ra) [] b
next_row-first x ra b =
    subst (λ n. next_row (suc (length ra)) x b (n ∷ row_rest ra [] b) ≡ row_rest (x ∷ ra) [] b)
      (distance-nil ra) (next_row-row_rest x ra [] b)

rows_from-row_rest :
    (a b ra : Str)
    → rows_from (length ra) a b (length ra ∷ row_rest ra [] b)
      ≡ length (rev_onto a ra) ∷ row_rest (rev_onto a ra) [] b
unfolding rows_from
rows_from-row_rest [] b ra = refl
rows_from-row_rest (x ∷ a) b ra =
    rw (succ (length ra), next_row-first x ra b) (rows_from-row_rest a b (x ∷ ra))

last_cell-row_rest :
    (b ra rb : Str) → last_cell (distance ra rb ∷ row_rest ra rb b) ≡ distance ra (rev_onto b rb)
unfolding last_cell
last_cell-row_rest [] ra rb = refl
last_cell-row_rest (y ∷ b) ra rb = last_cell-row_rest b ra (y ∷ rb)

levenshtein-distance : (a b : Str) → levenshtein a b ≡ distance (rev_onto a []) (rev_onto b [])
unfolding levenshtein
levenshtein-distance a b =
    rw (upto-row_rest [] b, rows_from-row_rest a b [], ← distance-nil (rev_onto a []))
      (last_cell-row_rest b (rev_onto a []) [])

distance-drop : (x : ℕ) (a b : Str) → distance (x ∷ a) b ≤ distance a b + 1
distance-drop x a [] = omega (arith, distance-nil a)
distance-drop x a (y ∷ b) = omega arith

distance-add : (y : ℕ) (a b : Str) → distance a (y ∷ b) ≤ distance a b + 1
distance-add y [] b = omega arith
distance-add y (x ∷ a) b = omega arith

distance-le_cost : (s : List Edit) → distance (source s) (target s) ≤ cost s
distance-le_cost [] = omega arith
distance-le_cost (same x ∷ s) = ground (arith, distance-le_cost s, ==_iff x x)
distance-le_cost (change x y ∷ s) = ground (arith, distance-le_cost s)
distance-le_cost (drop x ∷ s) =
    omega (arith, distance-le_cost s, distance-drop x (source s) (target s))
distance-le_cost (add y ∷ s) =
    omega (arith, distance-le_cost s, distance-add y (source s) (target s))

min3-cases : (k m n : ℕ) → (min (min k m) n ≡ k) ⊎ ((min (min k m) n ≡ m) ⊎ (min (min k m) n ≡ n))
min3-cases k m n = ground arith

abbrev Script : Str → Str → ℕ → Type 0
Script a b n = (s : List Edit) × (source s ≡ a) × (target s ≡ b) × (cost s ≡ n)

adds : (b : Str) → Script [] b (length b)
adds [] = ([], refl, refl, refl)
adds (y ∷ b) = let (s, e, f, g) = adds b in (add y ∷ s, e, ap (λ t. y ∷ t) f, omega (arith, g))

drops : (a : Str) → Script a [] (length a)
drops [] = ([], refl, refl, refl)
drops (x ∷ a) = let (s, e, f, g) = drops a in (drop x ∷ s, ap (λ t. x ∷ t) e, f, omega (arith, g))

replaces :
    (x y : ℕ) (a b : Str) (n : ℕ)
    → Script a b n
    → Script (x ∷ a) (y ∷ b) (n + (if x == y then 0 else 1))
replaces x y a b n (s, e, f, g) = elim (Bool-cases (x == y)) [
  | inl h ↦ (
    same x ∷ s,
    ap (λ t. x ∷ t) e,
    ap (λ t. x ∷ t) f ∙ ap (λ z. z ∷ b) ((==_iff x y).0 h),
    rw h (omega (arith, g)),
  )
  | inr h ↦ (change x y ∷ s, ap (λ t. x ∷ t) e, ap (λ t. y ∷ t) f, rw h (omega (arith, g)))
]

least : (a b : Str) → Script a b (distance a b)
least [] b = adds b
least (x ∷ a) [] = drops (x ∷ a)
least (x ∷ a) (y ∷ b) =
    let (s₁, e₁, f₁, g₁) = least a (y ∷ b) in
    let (s₂, e₂, f₂, g₂) = least (x ∷ a) b in
    let (s₃, e₃, f₃, g₃) = replaces x y a b (distance a b) (least a b) in
    elim (min3-cases (distance a (y ∷ b) + 1) (distance (x ∷ a) b + 1)
      (distance a b + (if x == y then 0 else 1))) [
        | inl h ↦ (drop x ∷ s₁, ap (λ t. x ∷ t) e₁, f₁, omega (arith, g₁, h))
        | inr (inl h) ↦ (add y ∷ s₂, e₂, ap (λ t. y ∷ t) f₂, omega (arith, g₂, h))
        | inr (inr h) ↦ (s₃, e₃, f₃, g₃ ∙ sym h)
      ]

source-rev_onto : (s t : List Edit) → source (rev_onto s t) ≡ rev_onto (source s) (source t)
source-rev_onto [] t = refl
source-rev_onto (same x ∷ s) t = source-rev_onto s (same x ∷ t)
source-rev_onto (change x y ∷ s) t = source-rev_onto s (change x y ∷ t)
source-rev_onto (drop x ∷ s) t = source-rev_onto s (drop x ∷ t)
source-rev_onto (add y ∷ s) t = source-rev_onto s (add y ∷ t)

target-rev_onto : (s t : List Edit) → target (rev_onto s t) ≡ rev_onto (target s) (target t)
target-rev_onto [] t = refl
target-rev_onto (same x ∷ s) t = target-rev_onto s (same x ∷ t)
target-rev_onto (change x y ∷ s) t = target-rev_onto s (change x y ∷ t)
target-rev_onto (drop x ∷ s) t = target-rev_onto s (drop x ∷ t)
target-rev_onto (add y ∷ s) t = target-rev_onto s (add y ∷ t)

cost-rev_onto : (s t : List Edit) → cost (rev_onto s t) ≡ cost s + cost t
cost-rev_onto [] t = omega arith
cost-rev_onto (same x ∷ s) t = omega (arith, cost-rev_onto s (same x ∷ t))
cost-rev_onto (change x y ∷ s) t = omega (arith, cost-rev_onto s (change x y ∷ t))
cost-rev_onto (drop x ∷ s) t = omega (arith, cost-rev_onto s (drop x ∷ t))
cost-rev_onto (add y ∷ s) t = omega (arith, cost-rev_onto s (add y ∷ t))

rev_onto-rev_onto : (a r t : Str) → rev_onto (rev_onto a r) t ≡ rev_onto r (a ++ t)
rev_onto-rev_onto [] r t = refl
rev_onto-rev_onto (x ∷ a) r t = rev_onto-rev_onto a (x ∷ r) t

append_nil : (a : Str) → a ++ [] ≡ a
append_nil [] = refl
append_nil (x ∷ a) = ap (λ t. x ∷ t) (append_nil a)

rev_onto-twice : (a : Str) → rev_onto (rev_onto a []) [] ≡ a
rev_onto-twice a = rev_onto-rev_onto a [] [] ∙ append_nil a

-- The distance is a lower bound of the steps that turn one key into another.
pub levenshtein-least :
    (a b : Str)
    → ((s : List Edit) → source s ≡ a → target s ≡ b → levenshtein a b ≤ cost s)
      × Script a b (levenshtein a b)
levenshtein-least a b = (
  λ s e f.
      rw (levenshtein-distance a b, ← e, ← f, ← source-rev_onto s [], ← target-rev_onto s [])
        (omega (arith, distance-le_cost (rev_onto s []), cost-rev_onto s [])),
  let (s, e, f, g) = least (rev_onto a []) (rev_onto b []) in
      (
        rev_onto s [],
        source-rev_onto s [] ∙ ap (λ t. rev_onto t []) e ∙ rev_onto-twice a,
        target-rev_onto s [] ∙ ap (λ t. rev_onto t []) f ∙ rev_onto-twice b,
        omega (arith, cost-rev_onto s [], g, levenshtein-distance a b),
      ),
)
