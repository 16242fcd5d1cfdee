-- ===== src/Memory/Counts.antt =====
-- What Sweep of the in-memory backend counts.
use worklease.Base.{◌≡◌, refl, true, inl, inr, Bool-cases, Option, none, some, [], ◌∷◌, arith}
use worklease.Base.{length, ◌↔◌}
use worklease.Base.Dict.{Dict}
use worklease.Base.Dropped.{dropped, is_dropped, is_among-dropped, dropped-AreDistinct}
use worklease.Backend.{SweepOptions}
use worklease.Memory.{is_kept, sweep_rows}
use worklease.Memory.Invariant.{IsValid}
use worklease.Memory.Sweep.{keep_if, lookup-sweep_rows}
use worklease.Contract.{Counts, IsGone}
use worklease.Base.Dict.{lookup}
use worklease.Backend.{Time}
use worklease.Memory.{Row, MemoryBackend}
use worklease.Memory.View.{view, some_term}

-- Sweep reports how many work IDs it has deleted.
pub sweep-Counts :
    (t now : Time) (opts : SweepOptions) (m : MemoryBackend)
    → IsValid t m
    → let (deleted, kept) = sweep_rows now opts m.records in
      Counts (view m) (view (record m { records = kept })) deleted
unfolding sweep_rows
sweep-Counts t now opts m v = record {
  gone = dropped (is_kept now opts) m.records;
  once = dropped-AreDistinct (is_kept now opts) m.records v.unique;
  exactly = λ w.
      rw
        (
          is_among-dropped (is_kept now opts) w m.records v.unique,
          lookup-sweep_rows now opts w m.records v.unique,
        )
        (at_row (lookup w m.records));
  count = length-dropped m.records;
}
  where
    at_row :
        (o : Option Row)
        → (is_dropped (is_kept now opts) o ≡ true)
          ↔ IsGone (some_term o) (some_term (keep_if (is_kept now opts) o))
    at_row none = (λ e. cc, λ h. absurd h)
    at_row (some r) = elim (Bool-cases (is_kept now opts r)) [
      | inl kept ↦ rw kept (λ e. cc, λ h. cc)
      | inr gone ↦ rw gone (λ e. refl, λ h. refl)
    ]

    length-dropped :
        (d : Dict Row) → length (dropped (is_kept now opts) d) ≡ (sweep_rows now opts d).0
    length-dropped [] = refl
    length-dropped ((k, r) ∷ d) = ground (arith, length-dropped d)
