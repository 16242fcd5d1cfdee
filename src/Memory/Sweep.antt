-- ===== src/Memory/Sweep.antt =====
-- Sweep of the in-memory backend: which rows it deletes, and what it reports.
use worklease.Base.{
  ℕ, ◌+◌, ◌≡◌, refl, Bool, true, false, ◌⊎◌, ◌↔◌, Option, none, some, String, [], ◌∷◌, arith,
  eq_iff, if◌then◌else◌, length,
}
use worklease.Base.Int.{◌<ℤ◌, ◌-ℤ◌}
use worklease.Base.Dict.{Dict, lookup, IsUnique}
use worklease.Errors.{GoError, ok}
use worklease.Backend.{Time, SweepOptions, exit_none, exit_retired}
use worklease.Memory.{Row, MemoryBackend, is_kept, sweep_rows, sweep}
use worklease.Memory.Invariant.{IsValid}

-- What the contract says of a row that Sweep deletes: older than the retention, not held, and
-- retired, or without a declared exit where those are included.
abbrev pub IsDeletable : Time → SweepOptions → Row → Type 0
IsDeletable now opts r =
    (opts.retention <ℤ (now -ℤ r.updated_at))
    × (r.expires_at <ℤ now)
    × ((r.exit_mode ≡ exit_retired) ⊎ ((opts.include_expired ≡ true) × (r.exit_mode ≡ exit_none)))

pub deletable-goes :
    (now : Time) (opts : SweepOptions) (r : Row)
    → IsDeletable now opts r
    → is_kept now opts r ≡ false
unfolding is_kept
deletable-goes now opts r (old, lapsed, why) = ground arith

pub gone-IsDeletable :
    (now : Time) (opts : SweepOptions) (r : Row)
    → is_kept now opts r ≡ false
    → IsDeletable now opts r
unfolding is_kept
gone-IsDeletable now opts r gone = (ground arith, ground arith, ground arith)

abbrev pub keep_if : (Row → Bool) → Option Row → Option Row
keep_if p none = none
keep_if p (some r) = if p r then some r else none

module _ (now : Time) (opts : SweepOptions) where
  pub lookup-sweep_rows :
      (k : String) (d : Dict Row)
      → IsUnique d
      → lookup k (sweep_rows now opts d).1 ≡ keep_if (is_kept now opts) (lookup k d)
  unfolding sweep_rows lookup
  lookup-sweep_rows k [] u = refl
  lookup-sweep_rows k ((j, r) ∷ d) u = ground (arith, eq_iff j k, lookup-sweep_rows k d u.1)

  sweep_rows-IsUnique : (d : Dict Row) → IsUnique d → IsUnique (sweep_rows now opts d).1
  unfolding sweep_rows
  sweep_rows-IsUnique [] u = tt
  sweep_rows-IsUnique ((j, r) ∷ d) u =
      ground (arith, sweep_rows-IsUnique d u.1, lookup-sweep_rows j d u.1)

  length-sweep_rows :
      (d : Dict Row) → (sweep_rows now opts d).0 + length (sweep_rows now opts d).1 ≡ length d
  unfolding sweep_rows
  length-sweep_rows [] = refl
  length-sweep_rows ((j, r) ∷ d) = ground (arith, length-sweep_rows d)

module _ (t now : Time) (opts : SweepOptions) (m : MemoryBackend) (v : IsValid t m) where
  abbrev pub swept : MemoryBackend
  swept = (sweep none now opts m).1

  pub lookup-swept :
      (k : String) → lookup k swept.records ≡ keep_if (is_kept now opts) (lookup k m.records)
  unfolding sweep
  lookup-swept k = lookup-sweep_rows now opts k m.records v.unique

  pub swept-row :
      (k : String) (r : Row) → lookup k swept.records ≡ some r → lookup k m.records ≡ some r
  swept-row k r h = ground (arith, lookup-swept k)

  pub sweep-IsValid : (ctx : Option GoError) → IsValid t (sweep ctx now opts m).1
  unfolding sweep
  sweep-IsValid (some e) = v
  sweep-IsValid none = record {
    rows = λ k r h. v.rows k r (swept-row k r h);
    distinct = λ j k q r hj hk. v.distinct j k q r (swept-row j q hj) (swept-row k r hk);
    unique = sweep_rows-IsUnique now opts m.records v.unique;
  }

-- Whatever the context, a row that is gone after Sweep was deletable.
pub swept_away-IsDeletable :
    (t now : Time) (opts : SweepOptions) (ctx : Option GoError) (m : MemoryBackend) (k : String)
    (r : Row)
    → IsValid t m
    → lookup k m.records ≡ some r
    → lookup k (sweep ctx now opts m).1.records ≡ none
    → IsDeletable now opts r
unfolding sweep
swept_away-IsDeletable t now opts (some e) m k r v h gone = cc
swept_away-IsDeletable t now opts none m k r v h gone =
    gone-IsDeletable now opts r (ground (arith, lookup-sweep_rows now opts k m.records v.unique))

-- Sweep deletes a row exactly if it is deletable, leaves every other row as it was, and reports
-- how many rows are gone.
pub sweep_deletes :
    (t now : Time) (opts : SweepOptions) (m z : MemoryBackend) (n : ℕ) (k : String) (r : Row)
    → IsValid t m
    → sweep none now opts m ≡ (ok n, z)
    → lookup k m.records ≡ some r
    → ((lookup k z.records ≡ none) ↔ IsDeletable now opts r)
      × ((lookup k z.records ≡ none) ⊎ (lookup k z.records ≡ some r))
      × (n + length z.records ≡ length m.records)
unfolding sweep
sweep_deletes t now opts m z n k r v e h = (
  (
    λ gone. gone-IsDeletable now opts r (ground (arith, at_key)),
    λ old. ground (arith, at_key, deletable-goes now opts r old),
  ),
  ground (arith, at_key),
  ground (arith, length-sweep_rows now opts m.records),
)
  where
    at_key : lookup k z.records ≡ keep_if (is_kept now opts) (lookup k m.records)
    at_key = ground (arith, lookup-sweep_rows now opts k m.records v.unique)
