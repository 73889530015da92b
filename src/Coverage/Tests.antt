-- ===== src/Coverage/Tests.antt =====
-- Two modules and one region.
use ghidra_unicorn.Prelude.{ℕ, ◌≡◌, refl, true, none, some, List, [], ◌∷◌, String}
use ghidra_unicorn.Engine.{Region}
use ghidra_unicorn.Coverage.{module_for, declared_at, region_at, to_writer}
use ghidra_unicorn.Coverage.Written.{BuiltOr, NoneEmpty, to_writer-IsBuilt}

abbrev modules : List (String × ℕ × ℕ)
modules = ("main", 4096, 8192) ∷ ("libc", 16384, 20480) ∷ []

abbrev regions : List Region
regions = record { start = 32768; last = 36863; perms = 7 } ∷ []

in_libc : module_for modules true regions 16400 ≡ some (16384, 20480)
unfolding module_for declared_at
in_libc = refl

nowhere : module_for modules true regions 9000 ≡ none
unfolding module_for declared_at region_at
nowhere = refl

-- A block in a module, one in the region, one nowhere.
abbrev raw : List (ℕ × ℕ)
raw = (16400, 4) ∷ (32770, 8) ∷ (9000, 2) ∷ []

abbrev region_name : ℕ → String
region_name base = "region"

to_writer-IsBuilt_example :
    BuiltOr (¬ NoneEmpty modules) (to_writer region_name modules true regions raw)
to_writer-IsBuilt_example = to_writer-IsBuilt region_name modules true regions raw
