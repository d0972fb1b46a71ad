-- ===== src/Admin/Tests.antt =====
-- The forms at concrete inputs.
use kehrkraft.Prelude.{ℕ, ◌<◌, ◌≡◌, ◌≢◌, refl, true, false, [], ◌∷◌, In, arith}
use kehrkraft.Prelude.Int.{pos, negsuc}
use kehrkraft.Calendar.Gregorian.{gregorian, running}
use kehrkraft.Scheduler.{rotation_index, global_week_index}
use kehrkraft.Admin.Seeds.{◌=ℤ◌, phases, rotation_seed_options, rotation_seed_options_complete}
use kehrkraft.Admin.Seeds.Beyond.{rotation_seed_beyond}

options_of_two :
    rotation_seed_options (negsuc 0) 2 ≡ (pos 0, false) ∷ (pos 1, false) ∷ (negsuc 0, true) ∷ []
unfolding rotation_seed_options phases
options_of_two = refl

rotation_seed_options_complete_example :
    (v : ℕ) × (v < 3)
    × In (pos v, pos v =ℤ negsuc 4) (rotation_seed_options (negsuc 4) 3)
    × ((week_start : ℕ)
        → rotation_index gregorian (negsuc 4) week_start 3
          ≡ rotation_index gregorian (pos v) week_start 3)
rotation_seed_options_complete_example =
    rotation_seed_options_complete gregorian (negsuc 4) (negsuc 4) 3 (omega arith)

at_four : rotation_index gregorian (pos 4) 739983 4 ≡ rotation_index gregorian (pos 0) 739983 4
unfolding rotation_index running global_week_index
at_four = refl

-- Four apartments, of which three are covered in the week from 2026-01-05 on.
rotation_seed_beyond_example :
    rotation_index gregorian (pos 4) 739990 3 ≢ rotation_index gregorian (pos 0) 739990 3
rotation_seed_beyond_example =
    rotation_seed_beyond gregorian 4 3 0 739983 739990 (omega arith) (omega arith)
      (λ e. omega (arith, e)) at_four
