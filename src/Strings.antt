-- ===== src/Strings.antt =====
-- The functions of Go's `strings`, `strconv` and `sort` that the program calls, over code points.
use file_fin.Prelude.{
  ℕ, zero, suc, ◌+◌, ◌-◌, ◌*◌, ◌/◌, ◌%◌, Bool, true, false, not, ◌&&◌, ◌||◌, Option, none, some,
  List, [], ◌∷◌, ◌++◌, ltb, leb, ◌==◌, if◌then◌else◌, Str, str_eq, ℤ, pos, negsuc, keep,
}
pub mod Trim
pub mod Split
pub mod Decimal
pub mod Paths

-- `unicode.IsSpace`
unfoldable pub is_space : ℕ → Bool
is_space c =
    (leb 9 c && leb c 13)
    || c == 32
    || c == 0x85
    || c == 0xa0
    || c == 0x1680
    || (leb 0x2000 c && leb c 0x200a)
    || c == 0x2028
    || c == 0x2029
    || c == 0x202f
    || c == 0x205f
    || c == 0x3000

unfoldable pub trim_left : Str → Str
trim_left [] = []
trim_left (c ∷ s) = if is_space c then trim_left s else c ∷ s

unfoldable pub trim_right : Str → Str
trim_right [] = []
trim_right (c ∷ s) =
    let rest = trim_right s in if str_eq rest [] && is_space c then [] else c ∷ rest

-- `strings.TrimSpace`
unfoldable pub trim_space : Str → Str
unfolding trim_left trim_right
trim_space s = trim_right (trim_left s)

-- A field is put in front of those that the rest of the text splits into.
abbrev pub prepend : ℕ → List Str → List Str
prepend c [] = (c ∷ []) ∷ []
prepend c (x ∷ xs) = (c ∷ x) ∷ xs

-- `strings.Split` at a separator of one character
unfoldable pub split : ℕ → Str → List Str
split sep [] = [] ∷ []
split sep (c ∷ s) = let rest = split sep s in if c == sep then [] ∷ rest else prepend c rest

-- `strings.Join`
unfoldable pub join : Str → List Str → Str
join sep [] = []
join sep (x ∷ []) = x
join sep (x ∷ y ∷ xs) = x ++ (sep ++ join sep (y ∷ xs))

-- `strings.Fields`: what stands between runs of white space. The flag says whether the character
-- before belongs to a field.
fields_from : Bool → Str → List Str
fields_from inside [] = if inside then [] ∷ [] else []
fields_from inside (c ∷ s) =
    if is_space c
    then if inside then [] ∷ fields_from false s else fields_from false s
    else prepend c (fields_from true s)

unfoldable pub fields : Str → List Str
unfolding fields_from
fields s = fields_from false s

-- `strings.EqualFold` where one side has only the letters n and a, which no letter outside of
-- ASCII folds to.
abbrev ascii_upper : ℕ → ℕ
ascii_upper c = if leb b'a' c && leb c b'z' then c - 32 else c

unfoldable pub equal_fold : Str → Str → Bool
equal_fold [] [] = true
equal_fold (a ∷ x) (b ∷ y) = ascii_upper a == ascii_upper b && equal_fold x y
equal_fold _ _ = false

-- `a < b` on strings
unfoldable pub str_lt : Str → Str → Bool
str_lt [] [] = false
str_lt [] (b ∷ y) = true
str_lt (a ∷ x) [] = false
str_lt (a ∷ x) (b ∷ y) = ltb a b || (a == b && str_lt x y)

insert_sorted : Str → List Str → List Str
insert_sorted x [] = x ∷ []
insert_sorted x (y ∷ ys) = if str_lt y x then y ∷ insert_sorted x ys else x ∷ y ∷ ys

-- `sort.Strings`
unfoldable pub sort_strings : List Str → List Str
unfolding insert_sorted
sort_strings [] = []
sort_strings (x ∷ xs) = insert_sorted x (sort_strings xs)

unfoldable pub is_digit : ℕ → Bool
is_digit c = leb b'0' c && leb c b'9'

unfoldable pub all_digits : Str → Bool
unfolding is_digit
all_digits [] = true
all_digits (c ∷ s) = is_digit c && all_digits s

-- `strconv.Itoa` of a number that is not negative; the fuel is one more than the number.
digits : ℕ → ℕ → Str → Str
digits zero n acc = acc
digits (suc f) n acc =
    let rest = digits f (n / 10) ((b'0' + n % 10) ∷ acc) in
    if ltb n 10 then (b'0' + n) ∷ acc else rest

unfoldable pub itoa : ℕ → Str
unfolding digits
itoa n = digits (suc n) n []

unfoldable pub parse_from : ℕ → Str → Option ℕ
unfolding is_digit
parse_from n [] = some n
parse_from n (c ∷ s) = if is_digit c then parse_from (n * 10 + (c - b'0')) s else none

parse_digits : Str → Option ℕ
parse_digits [] = none
parse_digits (c ∷ s) = parse_from 0 (c ∷ s)

abbrev signed : Bool → Option ℕ → ℤ
signed minus none = pos 0
signed false (some n) = pos n
signed true (some zero) = pos 0
signed true (some (suc n)) = negsuc n

-- `n, _ := strconv.Atoi(s)`: 0 on a syntax error. Numbers beyond the range of `int` are read as
-- they stand, where Go saturates.
unfoldable pub atoi : Str → ℤ
unfolding parse_digits
atoi [] = pos 0
atoi (c ∷ s) =
    if c == b'-'
    then signed true (parse_digits s)
    else if c == b'+'
    then signed false (parse_digits s)
    else signed false (parse_digits (c ∷ s))

abbrev in_int64 : Option ℤ → Option ℤ
in_int64 none = none
in_int64 (some (pos n)) = if ltb n 9223372036854775808 then some (pos n) else none
in_int64 (some (negsuc n)) = if ltb n 9223372036854775808 then some (negsuc n) else none

abbrev with_sign : Bool → Option ℕ → Option ℤ
with_sign minus none = none
with_sign minus (some n) = some (signed minus (some n))

-- `strconv.ParseInt(s, 10, 64)`, none for each of its errors
unfoldable pub parse_int : Str → Option ℤ
unfolding parse_digits
parse_int [] = none
parse_int (c ∷ s) = in_int64 (
    if c == b'-'
    then with_sign true (parse_digits s)
    else if c == b'+'
    then with_sign false (parse_digits s)
    else with_sign false (parse_digits (c ∷ s)))

abbrev in_front : ℕ → Option (Str × Str) → Option (Str × Str)
in_front c none = none
in_front c (some (a, b)) = some (c ∷ a, b)

-- `strings.Cut` at a separator of one character, none where it is not found
unfoldable pub cut_at : ℕ → Str → Option (Str × Str)
cut_at sep [] = none
cut_at sep (c ∷ s) = let rest = cut_at sep s in if c == sep then some ([], s) else in_front c rest

-- `len` of a string: the bytes of its UTF-8
unfoldable pub byte_length : Str → ℕ
byte_length [] = 0
byte_length (c ∷ s) =
    (if ltb c 0x80 then 1 else if ltb c 0x800 then 2 else if ltb c 0x10000 then 3 else 4)
    + byte_length s
