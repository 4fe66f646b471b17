-- ===== src/Subtitle/Cues.antt =====
-- internal/subtitle/subtitle.go: the cues that an ASS script is rendered to.
use file_fin.Prelude.{
  ℕ, ◌≤◌, ◌<◌, ◌≡◌, false, not, ◌||◌, Option, none, some, List, [], ◌∷◌, ◌++◌, All, length, get_or,
  ltb, leb, Bool-cases, inl, inr, Str, bytes, str_eq, arith,
}
use file_fin.Strings.{trim_space}
use file_fin.Strings.Paths.{has_prefix}
use file_fin.Subtitle.Ass.{
  Cue, Order, AssScript, ass_default_format, cue_of, dialogue, add_cue, dialogue_line, event_line,
  script_line, script_from, insert_cue, sort_cues, marked, ass_cues, cut_prefix_fold, ass_time,
  ass_text, split_n,
}

-- A cue that a player can show: it lasts, and it says something.
abbrev pub Shows : Cue → Type 0
Shows c = (c.begins < c.ends) × (str_eq c.text [] ≡ false)

abbrev pub IsSorted : List Cue → Type 0
IsSorted [] = Unit
IsSorted (c ∷ cs) = All (λ d. c.begins ≤ d.begins) cs × IsSorted cs

abbrev Kept : Option Cue → Type 0
Kept none = Unit
Kept (some c) = Shows c

cue_of-Kept : (b e : Option ℕ) (text : Str) → Kept (cue_of b e text)
cue_of-Kept none e text = tt
cue_of-Kept (some b) none text = tt
cue_of-Kept (some b) (some e) text = elim (Bool-cases (leb e b || str_eq text [])) [
  | inl h ↦ rw h tt
  | inr h ↦ rw h (ground arith, ground arith)
]

dialogue-Kept : (o : Order) (rest : Str) → Kept (dialogue o rest)
unfolding dialogue
dialogue-Kept o rest =
    let parts = split_n b',' o.fields rest in
    elim (Bool-cases (ltb (length parts) o.fields || leb (length parts) o.text_idx)) [
      | inl h ↦ rw h tt
      | inr h ↦ rw h (
          cue_of-Kept (ass_time (get_or parts o.start_idx []))
            (ass_time (get_or parts o.end_idx [])) (ass_text (get_or parts o.text_idx [])))
    ]

All-append {ℓ κ} :
    {A : Type ℓ} (P : A → Type κ) (xs ys : List A) → All P xs → All P ys → All P (xs ++ ys)
All-append P [] ys h k = k
All-append P (x ∷ xs) ys h k = (h.0, All-append P xs ys h.1 k)

add_cue-Shows :
    (st : AssScript) (c : Option Cue) → Kept c → All Shows st.cues → All Shows (add_cue st c).cues
add_cue-Shows st none k h = h
add_cue-Shows st (some c) k h = All-append Shows st.cues (c ∷ []) h (k, tt)

dialogue_line-Shows :
    (st : AssScript) (rest : Option Str)
    → All Shows st.cues
    → All Shows (dialogue_line st rest).cues
dialogue_line-Shows st none h = h
dialogue_line-Shows st (some rest) h =
    add_cue-Shows st (dialogue st.order rest) (dialogue-Kept st.order rest) h

event_line-Shows :
    (st : AssScript) (line : Str) (order : Option Str)
    → All Shows st.cues
    → All Shows (event_line st line order).cues
event_line-Shows st line none h =
    dialogue_line-Shows st (cut_prefix_fold line (bytes "dialogue:")) h
event_line-Shows st line (some rest) h = h

script_line-Shows :
    (st : AssScript) (text : Str) → All Shows st.cues → All Shows (script_line st text).cues
unfolding script_line
script_line-Shows st text h =
    let line = trim_space text in
    elim (Bool-cases (has_prefix line (bytes "["))) [
      | inl e ↦ rw e h
      | inr e ↦ elim (Bool-cases (not st.in_events)) [
        | inl o ↦ rw (e, o) h
        | inr o ↦ rw (e, o) (event_line-Shows st line (cut_prefix_fold line (bytes "format:")) h)
      ]
    ]

script_from-Shows :
    (st : AssScript) (lines : List Str) → All Shows st.cues → All Shows (script_from st lines).cues
unfolding script_from
script_from-Shows st [] h = h
script_from-Shows st (line ∷ lines) h =
    script_from-Shows (script_line st line) lines (script_line-Shows st line h)

insert_cue-All {κ} :
    (P : Cue → Type κ) (c : Cue) (cs : List Cue) → P c → All P cs → All P (insert_cue c cs)
unfolding insert_cue
insert_cue-All P c [] p h = (p, tt)
insert_cue-All P c (d ∷ cs) p h = elim (Bool-cases (ltb d.begins c.begins)) [
  | inl e ↦ rw e (h.0, insert_cue-All P c cs p h.1)
  | inr e ↦ rw e (p, h)
]

sort_cues-All {κ} : (P : Cue → Type κ) (cs : List Cue) → All P cs → All P (sort_cues cs)
unfolding sort_cues
sort_cues-All P [] h = tt
sort_cues-All P (c ∷ cs) h = insert_cue-All P c (sort_cues cs) h.0 (sort_cues-All P cs h.1)

at_least :
    (k n : ℕ) (cs : List Cue) → k ≤ n → All (λ d. n ≤ d.begins) cs → All (λ d. k ≤ d.begins) cs
at_least k n [] h a = tt
at_least k n (c ∷ cs) h a = (omega (arith, a.0), at_least k n cs h a.1)

insert_cue-IsSorted : (c : Cue) (cs : List Cue) → IsSorted cs → IsSorted (insert_cue c cs)
unfolding insert_cue
insert_cue-IsSorted c [] s = (tt, tt)
insert_cue-IsSorted c (d ∷ cs) s = elim (Bool-cases (ltb d.begins c.begins)) [
  | inl e ↦ rw e (
    insert_cue-All (λ x. d.begins ≤ x.begins) c cs (ground arith) s.0,
    insert_cue-IsSorted c cs s.1,
  )
  | inr e ↦ rw e ((ground arith, at_least c.begins d.begins cs (ground arith) s.0), s)
]

sort_cues-IsSorted : (cs : List Cue) → IsSorted (sort_cues cs)
unfolding sort_cues
sort_cues-IsSorted [] = tt
sort_cues-IsSorted (c ∷ cs) = insert_cue-IsSorted c (sort_cues cs) (sort_cues-IsSorted cs)

-- Whatever the script holds, the cues are written in the order of their starts, each of them ends
-- after it starts and has a text.
pub ass_cues-IsSorted : (lines : List Str) → IsSorted (ass_cues lines) × All Shows (ass_cues lines)
unfolding ass_cues
ass_cues-IsSorted lines =
    let read =
      script_from (record { in_events = false; order = ass_default_format; cues = [] })
        (marked lines) in
    (
      sort_cues-IsSorted read.cues,
      sort_cues-All Shows read.cues (
          script_from-Shows (record { in_events = false; order = ass_default_format; cues = [] })
            (marked lines) tt),
    )
