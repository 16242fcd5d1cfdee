-- ===== src/Vacuum/Tests.antt =====
-- The theorems on the vacuum, applied to one old row.
use worklease.Base.{ℕ, ◌+◌, refl, none, [], ◌∷◌}
use worklease.Base.Int.{pos, ◌<ℤ◌, ◌-ℤ◌}
use worklease.Base.Dict.{lookup}
use worklease.Memory.{Readings, is_kept}
use worklease.Memory.Sweep.{IsDeletable}
use worklease.Memory.Samples.{only, row_a, all_old, held-IsValid}
use worklease.Vacuum.{sweep}
use worklease.Vacuum.Guards.{vacuum_deletes_old}

abbrev tick : ℕ → Readings × ℕ
tick n = (record { check = pos n; stamp = pos n; update = pos n }, n + 1)

vacuum_deletes_old_example :
    IsDeletable (pos 20) all_old row_a × (pos 0 <ℤ all_old.retention) × (row_a.updated_at <ℤ pos 20)
unfolding sweep is_kept lookup ◌-ℤ◌ worklease.Memory.sweep
vacuum_deletes_old_example =
    vacuum_deletes_old tick (λ e o. e ∷ o) none (pos 0) all_old (pos 1) (only row_a 1) 20 [] "job"
      row_a held-IsValid refl refl
