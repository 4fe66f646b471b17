-- ===== src/Predict/Seeds.antt =====
-- internal/server/importseeds.go: markers that speak before any import has been made.
use file_fin.Prelude.{
  ℕ, ◌-◌, Bool, true, false, ◌&&◌, ◌||◌, Option, none, some, List, [], ◌∷◌, ◌++◌, length, leb, ltb,
  ◌==◌, if◌then◌else◌, Str, bytes,
}
use file_fin.Strings.{trim_space}
use file_fin.Strings.Paths.{to_lower}
use file_fin.Library.{Category}
use file_fin.Predict.Text.{contains_word}

abbrev pub Seed : Type 0
Seed = Str × List Str

abbrev chinese : List Str
chinese = bytes "chinese" ∷ bytes "mandarin" ∷ bytes "china" ∷ bytes "cn" ∷ []

abbrev korean : List Str
korean = bytes "korean" ∷ bytes "korea" ∷ bytes "kr" ∷ []

abbrev japanese : List Str
japanese = bytes "japanese" ∷ bytes "japan" ∷ bytes "anime" ∷ bytes "jp" ∷ []

abbrev anime : List Str
anime = bytes "anime" ∷ []

unfoldable pub seeds : List Seed
seeds =
    (bytes "plat:iqiyi", chinese)
    ∷ (bytes "plat:youku", chinese)
    ∷ (bytes "plat:mgtv", chinese)
    ∷ (bytes "plat:tencent", chinese)
    ∷ (bytes "plat:wetv", chinese)
    ∷ (bytes "plat:bilibili", chinese)
    ∷ (bytes "plat:tving", korean)
    ∷ (bytes "plat:viu", korean)
    ∷ (bytes "plat:wavve", korean)
    ∷ (bytes "plat:kocowa", korean)
    ∷ (bytes "plat:coupang", korean)
    ∷ (bytes "plat:abema", japanese)
    ∷ (bytes "plat:u-next", japanese)
    ∷ (bytes "grp:subsplease", anime)
    ∷ (bytes "tag:subsplease", anime)
    ∷ (bytes "grp:horriblesubs", anime)
    ∷ (bytes "tag:horriblesubs", anime)
    ∷ (bytes "grp:erai-raws", anime)
    ∷ (bytes "tag:erai-raws", anime)
    ∷ (bytes "tag:judas", anime)
    ∷ (bytes "tag:ember", anime)
    ∷ (bytes "tag:asw", anime)
    ∷ []

-- `strings.EqualFold` with a text in ASCII: two letters outside of it fold to k and s.
abbrev fold : ℕ → ℕ
fold c =
    if leb b'a' c && leb c b'z'
    then c - 32
    else if c == 0x212a
    then b'K'
    else if c == 0x17f
    then b'S'
    else c

unfoldable pub equal_fold : Str → Str → Bool
equal_fold [] [] = true
equal_fold (a ∷ x) (b ∷ y) = fold a == fold b && equal_fold x y
equal_fold _ _ = false

any_declared : Str → List Str → Bool
any_declared hint [] = false
any_declared hint (d ∷ ds) = equal_fold (trim_space d) hint || any_declared hint ds

declared_hint : List Str → List Str → Option Str
declared_hint [] declared = none
declared_hint (h ∷ hints) declared =
    let rest = declared_hint hints declared in if any_declared h declared then some h else rest

named_hint : List Str → Str → Option Str
named_hint [] name = none
named_hint (h ∷ hints) name =
    let rest = named_hint hints name in
    if ltb 2 (length h) && contains_word name h then some h else rest

unfoldable pub seed_matches : Category → List Str → Option Str
unfolding any_declared declared_hint named_hint equal_fold
seed_matches c hints =
    let m = c.markers in
    elim (declared_hint hints ((m.languages ++ m.countries) ++ m.keywords)) [
      | some h ↦ some h
      | none ↦ named_hint hints (to_lower (c.leaf ++ (b' ' ∷ c.alias)))
    ]
