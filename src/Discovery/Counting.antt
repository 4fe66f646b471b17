-- ===== src/Discovery/Counting.antt =====
-- internal/server/discovery.go: what a sweep that is not cancelled leaves on the tracker.
use file_fin.Prelude.{
  ℕ, suc, ◌+◌, ◌≡◌, refl, Bool, true, false, Option, none, some, List, [], ◌∷◌, length, Str, arith,
}
use file_fin.Discovery.{
  SweepState, Surroundings, begin, set_total, advance, done, check_items, checked_item,
  repaired_with, sweep, discovery_tick, has_text, sweep_rolling,
}

abbrev one : Option ℕ → ℕ
one none = 0
one (some n) = 1

-- The number of items that are still on the disk.
unfoldable pub on_disk : (Str → Option ℕ) → List Str → ℕ
on_disk repaired_in [] = 0
on_disk repaired_in (id ∷ ids) = one (repaired_in id) + on_disk repaired_in ids

check_items-done :
    (cancelled : ℕ → Bool) (repaired_in : Str → Option ℕ) (ids : List Str) (i repaired : ℕ)
    (st : SweepState)
    → ((k : ℕ) → cancelled k ≡ false)
    → ((check_items cancelled repaired_in i repaired ids st).done_count
        ≡ st.done_count + on_disk repaired_in ids)
      × ((check_items cancelled repaired_in i repaired ids st).total ≡ st.total)
unfolding check_items on_disk advance
check_items-done cancelled repaired_in [] i repaired st h = (omega arith, refl)
check_items-done cancelled repaired_in (id ∷ ids) i repaired st h =
    let found = repaired_in id in
    let rest =
      check_items-done cancelled repaired_in ids (suc i) (repaired_with repaired found)
        (checked_item repaired found st) h in
    rw (h i) (go found rest)
  where
    go :
        (found : Option ℕ)
        → ((check_items cancelled repaired_in
              (suc i)
              (repaired_with repaired found)
              ids
              (checked_item repaired found st)).done_count
            ≡ (checked_item repaired found st).done_count + on_disk repaired_in ids)
          × ((check_items cancelled repaired_in
                (suc i)
                (repaired_with repaired found)
                ids
                (checked_item repaired found st)).total
              ≡ (checked_item repaired found st).total)
        → ((check_items cancelled repaired_in
              (suc i)
              (repaired_with repaired found)
              ids
              (checked_item repaired found st)).done_count
            ≡ st.done_count + (one found + on_disk repaired_in ids))
          × ((check_items cancelled repaired_in
                (suc i)
                (repaired_with repaired found)
                ids
                (checked_item repaired found st)).total
              ≡ st.total)
    go none (a, b) = (omega (arith, a), b)
    go (some n) (a, b) = (omega (arith, a), b)

-- A tick that finds no sweep running, no failure and no cancellation leaves the tracker free again,
-- finished, with the number of the items that were due and of those among them that are still on
-- the disk.
pub discovery_tick-counts :
    (s : Surroundings) (st : SweepState) (ids : List Str)
    → st.running ≡ false
    → s.has_db ≡ true
    → has_text s.data_dir ≡ true
    → s.has_refs ≡ true
    → s.due ≡ some ids
    → ((k : ℕ) → s.cancelled k ≡ false)
    → ((discovery_tick s st).running ≡ false)
      × ((discovery_tick s st).finished ≡ true)
      × ((discovery_tick s st).total ≡ length ids)
      × ((discovery_tick s st).done_count ≡ on_disk s.repaired_in ids)
unfolding discovery_tick begin sweep done set_total
discovery_tick-counts s st ids e db dir refs due h =
    let fresh : SweepState = record {
      scope = sweep_rolling;
      total = length ids;
      done_count = 0;
      subtitles = 0;
      running = true;
      finished = false;
    } in
    let counted = check_items-done s.cancelled s.repaired_in ids 0 0 fresh h in
    rw (e, db, dir, refs, due) (refl, refl, counted.1, omega (arith, counted.0))
