-- ===== src/Pool/Config/Checks.antt =====
-- pool.New accepts exactly the work ID lists that its comment describes.
use worklease.Base.{
  ℕ, ◌+◌, ◌≡◌, ◌≢◌, refl, true, false, inl, inr, ◌↔◌, Bool-cases, Option-cases, Option, none, some,
  String, List, [], ◌∷◌, arith, str_eq, eq_iff,
}
use worklease.Base.Int.{pos, ◌<ℤ◌}
use worklease.Base.Dict.{Dict, lookup, insert, lookup-insert}
use worklease.Errors.{
  GoError, Result, ok, err, sentinel, wrap, is, pool_config_invalid, listed, chain, number,
  pool_empty_work_id, pool_duplicate_work_id, pool_work_fn_required, pool_empty_work_ids,
}
use worklease.Backend.{Duration}
use worklease.Client.Options.{has_wait_for_lease}
use worklease.Pool.Config.{Config, check_ids, check_rest, check_work, new, paced, or_default}

-- The ID is not among these.
abbrev pub IsNew : String → List String → Type 0
IsNew id [] = Unit {0}
IsNew id (j ∷ js) = (j ≢ id) × IsNew id js

-- Every ID is non-empty, and no two are equal.
abbrev pub AreWorkIds : List String → Type 0
AreWorkIds [] = Unit {0}
AreWorkIds (id ∷ ids) = (id ≢ "") × IsNew id ids × AreWorkIds ids

-- No ID is in the map.
abbrev AreUnseen : Dict ℕ → List String → Type 0
AreUnseen seen [] = Unit {0}
AreUnseen seen (id ∷ ids) = (lookup id seen ≡ none) × AreUnseen seen ids

AreUnseen-insert :
    (id : String) (i : ℕ) (seen : Dict ℕ) (ids : List String)
    → AreUnseen (insert id i seen) ids ↔ (AreUnseen seen ids × IsNew id ids)
AreUnseen-insert id i seen [] = (λ _. (tt, tt), λ _. tt)
AreUnseen-insert id i seen (j ∷ js) =
    let rest = AreUnseen-insert id i seen js in
    (
      λ h. (
        (ground (arith, h.0, lookup-insert id j i seen), (rest.0 h.1).0),
        (λ e. ground (arith, h.0, lookup-insert id j i seen, eq_iff id j), (rest.0 h.1).1),
      ),
      λ h. (
        ground (arith, h.0.0, h.1.0, lookup-insert id j i seen, eq_iff id j),
        rest.1 (h.0.1, h.1.1),
      ),
    )

-- From any index and any map, the check passes exactly the valid lists that the map has not seen.
check_ids-passes :
    (i : ℕ) (seen : Dict ℕ) (ids : List String)
    → (check_ids i seen ids ≡ none) ↔ (AreWorkIds ids × AreUnseen seen ids)
unfolding check_ids
check_ids-passes i seen [] = (λ _. (tt, tt), λ _. refl)
check_ids-passes i seen (id ∷ ids) =
    let rest = check_ids-passes (i + 1) (insert id i seen) ids in
    let seen_so = AreUnseen-insert id i seen ids in
    elim (Bool-cases (str_eq id "")) [
      | inl empty ↦
          (λ h. cc (rw (empty, check_ids) at h), λ h. absurd (h.0.0 ((eq_iff id "").0 empty)))
      | inr full ↦ elim (Option-cases (lookup id seen)) [
        | inr (first, e) ↦ (λ h. cc (rw (full, e, check_ids) at h), λ h. cc (e, h.1.0))
        | inl e ↦ (
          λ h.
              let (valid, unseen) = rest.0 (rw (full, e, check_ids) at h) in
              let (old, new') = seen_so.0 unseen in
              ((λ q. cc (full, (eq_iff id "").1 q), new', valid), (e, old)),
          λ h. rw (full, e, check_ids) (rest.1 (h.0.2, seen_so.1 (h.1.1, h.0.1))),
        )
      ]
    ]

AreUnseen-nil : (ids : List String) → AreUnseen [] ids
unfolding lookup
AreUnseen-nil [] = tt
AreUnseen-nil (id ∷ ids) = (refl, AreUnseen-nil ids)

-- The checks of the work IDs pass a list exactly if every ID is non-empty and no two are equal.
pub check_ids_exact : (ids : List String) → (check_ids 0 [] ids ≡ none) ↔ AreWorkIds ids
check_ids_exact ids = (
  λ h. ((check_ids-passes 0 [] ids).0 h).0,
  λ h. (check_ids-passes 0 [] ids).1 (h, AreUnseen-nil ids),
)

-- An error of the checks matches pool.ErrConfigInvalid.
check_ids-error :
    (i : ℕ) (seen : Dict ℕ) (ids : List String) (e : GoError)
    → check_ids i seen ids ≡ some e
    → is e pool_config_invalid ≡ true
unfolding check_ids is listed chain number
check_ids-error i seen [] e h = cc
check_ids-error i seen (id ∷ ids) e h =
    ground (arith, check_ids-error (i + 1) (insert id i seen) ids e, empty_text, duplicate_text)
  where
    empty_text :
        is (wrap "pool: New: WorkIDs[%d]: " (sentinel pool_empty_work_id)) pool_config_invalid
        ≡ true
    empty_text = refl

    duplicate_text :
        is
          (wrap "pool: New: WorkIDs[%d] and WorkIDs[%d] are both %q: "
            (sentinel pool_duplicate_work_id))
          pool_config_invalid
        ≡ true
    duplicate_text = refl

-- What New returns: a configuration that the checks passed, with positive intervals; or an error
-- that matches pool.ErrConfigInvalid.
abbrev pub IsChecked : Config → Result Config → Type 0
IsChecked cfg (ok c) =
    (cfg.work_ids ≢ [])
    × AreWorkIds cfg.work_ids
    × (c.work_ids ≡ cfg.work_ids)
    × (has_wait_for_lease cfg.acquire_options ≡ false)
    × (pos 0 <ℤ c.idle_interval)
    × (pos 0 <ℤ c.rerun_interval)
    × (pos 0 <ℤ c.backoff_interval)
IsChecked cfg (err e) = is e pool_config_invalid ≡ true

or_default-positive : (d : Duration) → pos 0 <ℤ or_default d
or_default-positive d = ground arith

check_rest-IsChecked :
    {F : Type 0} (cfg : Config) (fn : Option F)
    → cfg.work_ids ≢ []
    → AreWorkIds cfg.work_ids
    → IsChecked cfg (check_rest cfg fn)
unfolding is listed chain number
check_rest-IsChecked cfg fn full valid =
    elim (Bool-cases (has_wait_for_lease cfg.acquire_options)) [
      | inl waits ↦ rw waits refl
      | inr free ↦ rw free (at_fn free fn)
    ]
  where
    paced-IsChecked :
        has_wait_for_lease cfg.acquire_options ≡ false → IsChecked cfg (ok (paced cfg))
    paced-IsChecked free = (
      full,
      valid,
      refl,
      free,
      or_default-positive cfg.idle_interval,
      or_default-positive cfg.rerun_interval,
      or_default-positive cfg.backoff_interval,
    )

    at_fn :
        {F : Type 0}
        → has_wait_for_lease cfg.acquire_options ≡ false
        → (fn : Option F)
        → IsChecked cfg
            (elim fn [ none ↦ err (sentinel pool_work_fn_required) | some f ↦ ok (paced cfg) ])
    at_fn free none = refl
    at_fn free (some f) = paced-IsChecked free

-- New returns a configuration with unique non-empty work IDs, at least one of them, without
-- WaitForLease and with positive intervals; or an error that matches pool.ErrConfigInvalid.
pool_new_checks :
    {L F : Type 0} (lease : Option L) (cfg : Config) (fn : Option F)
    → IsChecked cfg (new lease cfg fn)
unfolding new is listed chain number
pool_new_checks none cfg fn = refl
pool_new_checks (some lease) cfg fn = at_ids cfg.work_ids refl
  where
    checked : cfg.work_ids ≢ [] → IsChecked cfg (check_work cfg fn)
    checked full = elim (Option-cases (check_ids 0 [] cfg.work_ids)) [
      | inl e ↦
          rw (e, IsChecked) (check_rest-IsChecked cfg fn full ((check_ids_exact cfg.work_ids).0 e))
      | inr (x, e) ↦ rw (e, IsChecked) (check_ids-error 0 [] cfg.work_ids x e)
    ]

    at_ids :
        (ids : List String)
        → cfg.work_ids ≡ ids
        → IsChecked cfg
            (elim ids [ [] ↦ err (sentinel pool_empty_work_ids) | id ∷ js ↦ check_work cfg fn ])
    at_ids [] e = refl
    at_ids (id ∷ js) e = checked (λ q. cc (e, q))
