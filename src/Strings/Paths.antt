-- ===== src/Strings/Paths.antt =====
-- The functions of Go's `strings` and `path/filepath` that take a name apart, on a system whose
-- separator is the slash.
use file_fin.Prelude.{
  ℕ, ◌+◌, ◌≡◌, refl, Bool, true, false, not, ◌&&◌, ◌||◌, Option, none, some, [], ◌∷◌, ◌++◌, map,
  any, leb, ◌==◌, if◌then◌else◌, List, Str, bytes, str_eq, str_eq_iff, str_eq_self, length,
  length-append, ap, Bool-cases, inl, inr, arith,
}
use mathlib.Core.List.{reverse}
use file_fin.Strings.{split, join}

-- `strings.HasPrefix`
unfoldable pub has_prefix : Str → Str → Bool
has_prefix s [] = true
has_prefix [] (p ∷ pre) = false
has_prefix (c ∷ s) (p ∷ pre) = c == p && has_prefix s pre

-- What follows a prefix, none where the text has another start.
unfoldable pub cut_prefix : Str → Str → Option Str
cut_prefix s [] = some s
cut_prefix [] (p ∷ pre) = none
cut_prefix (c ∷ s) (p ∷ pre) = if c == p then cut_prefix s pre else none

-- `strings.HasSuffix`
unfoldable pub has_suffix : Str → Str → Bool
has_suffix [] suffix = str_eq [] suffix
has_suffix (c ∷ s) suffix = str_eq (c ∷ s) suffix || has_suffix s suffix

-- `strings.TrimSuffix`
unfoldable pub trim_suffix : Str → Str → Str
trim_suffix [] suffix = []
trim_suffix (c ∷ s) suffix = if str_eq (c ∷ s) suffix then [] else c ∷ trim_suffix s suffix

-- `strings.ToLower` on ASCII; the names that the program compares with have no other letters.
unfoldable pub to_lower : Str → Str
to_lower = map (λ c. if leb b'A' c && leb c b'Z' then c + 32 else c)

abbrev dot_or_slash : ℕ → Bool
dot_or_slash c = c == b'.' || c == b'/'

-- `filepath.Ext`: from the last dot of the last element on.
unfoldable pub ext : Str → Str
ext [] = []
ext (c ∷ s) = if c == b'.' && not (any dot_or_slash s) then c ∷ s else ext s

-- The name of a file without its extension, `strings.TrimSuffix(name, filepath.Ext(name))`.
unfoldable pub stem : Str → Str
stem name = trim_suffix name (ext name)

any-append-dot : (x e : Str) → any dot_or_slash (x ++ b'.' ∷ e) ≡ true
unfolding any
any-append-dot [] e = refl
any-append-dot (c ∷ x) e = ground (arith, any-append-dot x e)

pub ext-append :
    (x e : Str) → any (λ c. c == b'.' || c == b'/') e ≡ false → ext (x ++ b'.' ∷ e) ≡ b'.' ∷ e
unfolding ext
ext-append [] e h = rw h refl
ext-append (c ∷ x) e h = ground (arith, ext-append x e, any-append-dot x e)

longer : (c : ℕ) (x t : Str) → str_eq (c ∷ x ++ t) t ≡ false
longer c x t = elim (Bool-cases (str_eq (c ∷ x ++ t) t)) [
  | inl same ↦ absurd (
      omega (
        arith,
        ap (λ (s : Str). length s) ((str_eq_iff (c ∷ x ++ t) t).0 same),
        length-append {0} x t,
      ))
  | inr e ↦ e
]

pub trim_suffix-append : (x t : Str) → trim_suffix (x ++ t) t ≡ x
unfolding trim_suffix
trim_suffix-append [] [] = refl
trim_suffix-append [] (c ∷ t) = rw (str_eq_self (c ∷ t)) refl
trim_suffix-append (c ∷ x) t = rw (longer c x t, trim_suffix-append x t) refl

-- An extension of its own is all that `stem` takes away.
pub stem-append :
    (x e : Str) → any (λ c. c == b'.' || c == b'/') e ≡ false → stem (x ++ b'.' ∷ e) ≡ x
unfolding stem
stem-append x e h = rw (ext-append x e h) (trim_suffix-append x (b'.' ∷ e))

abbrev path_part : List Str → Str → Bool → List Str
path_part [] part rooted = if str_eq part (bytes "..") && rooted then [] else part ∷ []
path_part (p ∷ ps) part rooted =
    if str_eq part (bytes "..") && not (str_eq p (bytes "..")) then ps else part ∷ p ∷ ps

-- The elements of a path, the last one first, with `.` and `..` worked off.
unfoldable pub path_parts : Bool → List Str → List Str → List Str
path_parts rooted acc [] = acc
path_parts rooted acc (part ∷ parts) =
    path_parts rooted
      (if str_eq part [] || str_eq part (bytes ".") then acc else path_part acc part rooted) parts

-- `filepath.Clean`
unfoldable pub clean_path : Str → Str
unfolding path_parts
clean_path path =
    let rooted = has_prefix path (bytes "/") in
    let names = join (bytes "/") (reverse (path_parts rooted [] (split b'/' path))) in
    if rooted then b'/' ∷ names else if str_eq names [] then bytes "." else names

unfoldable pub trim_slashes : Str → Str
trim_slashes [] = []
trim_slashes (c ∷ s) =
    let rest = trim_slashes s in if str_eq rest [] && c == b'/' then [] else c ∷ rest

-- What stands behind the last slash, and what stands before it with the slash.
unfoldable pub last_element : Str → Str
last_element [] = []
last_element (c ∷ s) =
    let rest = last_element s in
    if any (λ x. x == b'/') s then rest else if c == b'/' then s else c ∷ s

unfoldable pub upto_last_slash : Str → Str
upto_last_slash [] = []
upto_last_slash (c ∷ s) = if c == b'/' || any (λ x. x == b'/') s then c ∷ upto_last_slash s else []

-- `filepath.Base`
unfoldable pub base_name : Str → Str
unfolding trim_slashes last_element
base_name [] = bytes "."
base_name (c ∷ s) =
    let whole = trim_slashes (c ∷ s) in if str_eq whole [] then bytes "/" else last_element whole

-- `filepath.Dir`
unfoldable pub dir_name : Str → Str
unfolding clean_path upto_last_slash
dir_name path = clean_path (upto_last_slash path)

-- `filepath.Join` of two elements
unfoldable pub join_path : Str → Str → Str
unfolding clean_path
join_path [] [] = []
join_path [] (c ∷ b) = clean_path (c ∷ b)
join_path (c ∷ a) [] = clean_path (c ∷ a)
join_path (c ∷ a) (d ∷ b) = clean_path ((c ∷ a) ++ (b'/' ∷ d ∷ b))
