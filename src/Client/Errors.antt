-- ===== src/Client/Errors.antt =====
-- What errors the lease client lets through.
use worklease.Base.{
  ◌≡◌, ◌≢◌, refl, true, false, Option, none, some, String, arith, is_some, eq_iff, inr, ◌⊎◌,
}
use worklease.Base.Int.{◌≤ℤ◌}
use worklease.Errors.{
  Sentinel, GoError, Result, ok, err, is, is_err, fenced, invalid_exit_mode, config_invalid, listed,
  chain, number,
}
use worklease.Errors.Laws.{is_self}
use worklease.Backend.{Bytes, ExitMode, declarable}
use worklease.Client.Types.{Context, Token, Backend, Config, LeaseClient, Timing}
use worklease.Client.Calls.{new, min_ttl, to_record, wrap_error, checkpoint, renew, release, forget}

-- A client that New returns has a TTL of a millisecond or more and a holder ID; every error of New
-- is a configuration error.
abbrev pub IsChecked : {S O : Type 0} → Result (LeaseClient S O) → Type 0
IsChecked (ok c) = (min_ttl ≤ℤ c.ttl) × (c.holder_id ≢ "")
IsChecked (err e) = is e config_invalid ≡ true

-- New returns a client with a TTL of a millisecond or more and a holder ID, or an error that matches
-- ErrConfigInvalid.
new-IsChecked : {S O : Type 0} (b : Option (Backend S)) (cfg : Config O) → IsChecked (new b cfg)
unfolding new is listed chain number
new-IsChecked none cfg = refl
new-IsChecked (some b) cfg = ground (arith, eq_iff cfg.holder_id "")

-- The error r that a method returns for the backend's e: nil for nil; ErrFenced for ErrFenced; and
-- for any other error, the same answer to errors.Is for every sentinel.
abbrev pub Relays : Option GoError → Option GoError → Sentinel → Type 0
Relays e r s =
    (is_some r ≡ is_some e)
    × (is_err r fenced ≡ is_err e fenced)
    × ((is_err e fenced ≡ true) ⊎ (is_err r s ≡ is_err e s))

relays :
    (fenced_text text : String) (e : Option GoError) (s : Sentinel)
    → Relays e (wrap_error fenced_text text e) s
unfolding is
relays fenced_text text none s = (refl, refl, inr refl)
relays fenced_text text (some e) s = ground (arith, is_self fenced)

module _ {S O : Type 0} (c : LeaseClient S O) (ctx : Context) (timing : Timing) (token : Token)
    (st : S) (o : O) (s : Sentinel) where
  -- Checkpoint, Renew, Release with a valid mode, and Forget relay the backend's error: nil for
  -- nil, ErrFenced for ErrFenced, and for any other error the same answer to errors.Is for every
  -- sentinel s.
  pub methods_relay_errors :
      (state : Option Bytes) (mode : ExitMode)
      → declarable mode ≡ true
      → Relays
          (c.backend.checkpoint ctx (to_record token) state c.ttl st).0
          (checkpoint c ctx timing token state (st, o)).0
          s
        × Relays
            (c.backend.renew ctx (to_record token) c.ttl st).0
            (renew c ctx timing token (st, o)).0
            s
        × Relays
            (c.backend.release ctx (to_record token) mode st).0
            (release c ctx timing token mode (st, o)).0
            s
        × Relays
            (c.backend.forget ctx (to_record token) st).0
            (forget c ctx timing token (st, o)).0
            s
  unfolding checkpoint renew release forget
  methods_relay_errors state mode valid =
      (relays _ _ _ s, relays _ _ _ s, rw valid (relays _ _ _ s), relays _ _ _ s)

  -- Release with any other mode returns ErrInvalidExitMode, and neither the backend nor the
  -- observer is called.
  release_invalid_mode :
      (mode : ExitMode)
      → declarable mode ≡ false
      → (is_err (release c ctx timing token mode (st, o)).0 invalid_exit_mode ≡ true)
        × ((release c ctx timing token mode (st, o)).1 ≡ (st, o))
  unfolding release is
  release_invalid_mode mode invalid = rw invalid (is_self invalid_exit_mode, refl)
