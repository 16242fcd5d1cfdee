-- ===== src/Vacuum/Guards.antt =====
-- What Vacuum.Sweep adds to the backend's Sweep.
use worklease.Base.{◌≡◌, Bool-cases, inl, inr, none, some, String, arith}
use worklease.Base.Int.{pos, ◌<ℤ◌, leb_ℤ, -ℤ_parts}
use worklease.Base.Dict.{lookup}
use worklease.Backend.{Time, Duration, SweepOptions}
use worklease.Client.Types.{Context}
use worklease.Memory.{Row, MemoryBackend, Readings}
use worklease.Memory.Invariant.{IsValid}
use worklease.Memory.Sweep.{IsDeletable, swept_away-IsDeletable}
use worklease.Memory.Service.{service}
use worklease.Vacuum.{VacuumObserver, sweep}

-- Whatever rows the in-memory backend holds, whatever the options and whether or not the context is
-- done: a row that a Sweep through the vacuum deletes was deletable under the options, the
-- retention was positive, and the row was last updated before the clock reading of the Sweep.
pub vacuum_deletes_old :
    {C O : Type 0} (tick : C → Readings × C) (obs : VacuumObserver O) (ctx : Context)
    (duration : Duration) (opts : SweepOptions) (t : Time) (m : MemoryBackend) (k : C) (o : O)
    (id : String) (r : Row)
    → IsValid t m
    → lookup id m.records ≡ some r
    → lookup id
        (sweep
          (some (record { b = some (service tick); obs = obs }))
          ctx
          duration
          opts
          ((m, k), o)).1.0.0.records
      ≡ none
    → IsDeletable (tick k).0.check opts r
      × (pos 0 <ℤ opts.retention)
      × (r.updated_at <ℤ (tick k).0.check)
unfolding sweep
vacuum_deletes_old tick obs ctx duration opts t m k o id r v h gone =
    elim (Bool-cases (leb_ℤ opts.retention (pos 0))) [
      | inl refused ↦ cc (h, rw (refused, sweep) at gone)
      | inr allowed ↦
          let old =
            swept_away-IsDeletable t (tick k).0.check opts ctx m id r v h
              (rw (allowed, sweep) at gone) in
          (old, ground arith, ground (arith, -ℤ_parts (tick k).0.check r.updated_at, old.0))
    ]
