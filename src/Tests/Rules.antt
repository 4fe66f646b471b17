-- ===== src/Tests/Rules.antt =====
-- Tests of the re-application of the metadata rules (internal/server/merge.go).
use file_fin.Prelude.{◌+◌, ◌<◌, ◌≤◌, ◌≡◌, arith, refl, ◌⊎◌, ◌↔◌, true, false}
use file_fin.Merge.Reapply.{
  Reapply, change, start, begin_pass, end_pass, give_up, Reach, here, next, init, goroutines,
  IsQuiet, Reach-applied, stopping-loses,
}

-- One change, and the pass that it starts, up to the clearing of the flag.
abbrev one_pass : Reapply
one_pass = record {
  reapplying = true;
  reapply_again = false;
  starting = 0;
  running = 0;
  testing = 0;
  stopping = 1;
  rules = 1;
  applied = 1;
  called = 0;
  refused = 0;
}

one_pass_reached : Reach init one_pass
one_pass_reached =
    next
      (next
        (next (next (next here (change refl)) (start 0 refl refl refl)) (begin_pass 0 refl refl))
        (end_pass 0 refl refl))
      (give_up 0 refl refl refl)

Reach-applied_example :
    (goroutines one_pass ≤ 1)
    × ((one_pass.reapplying ≡ false) ↔ (goroutines one_pass ≡ 0))
    × (IsQuiet one_pass → (one_pass.applied ≡ one_pass.rules) ⊎ (one_pass.reapply_again ≡ true))
Reach-applied_example = Reach-applied one_pass one_pass_reached

stopping-loses_example :
    (t : Reapply) × Reach one_pass t
    × IsQuiet t
    × (t.rules ≡ one_pass.rules + 1)
    × (t.applied < t.rules)
stopping-loses_example = stopping-loses one_pass one_pass_reached (omega arith) refl refl
