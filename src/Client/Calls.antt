-- ===== src/Client/Calls.antt =====
-- The methods of leaseClient.
use worklease.Base.{
  ℕ, Bool, not, Option, none, some, String, List, [], ◌∷◌, if◌then◌else◌, str_eq, length, ◌==◌,
  ◌&&◌,
}
use worklease.Base.Int.{pos, neg_part, pos_part, ◌+ℤ◌, ltb_ℤ}
use worklease.Errors.{
  GoError, Result, ok, err, error_of, sentinel, plain, wrap, is, is_err, fenced, lease_held,
  invalid_exit_mode, config_invalid, nil_backend,
}
use worklease.Backend.{
  Time, Duration, Bytes, ExitMode, exit_none, declarable, Checkpoint, LeaseRecord,
}
use worklease.Client.Options.{AcquireOption, resolve}
use worklease.Client.Types.{
  Context, Token, zero_token, Backend, Operation, operation_checkpoint, operation_renew,
  operation_release, operation_forget, on_acquire, on_checkpoint, on_renew, on_release,
  on_read_checkpoint, on_forget, on_fenced, Observer, Config, LeaseClient, Timing,
}

-- One millisecond.
abbrev pub min_ttl : Duration
min_ttl = pos 1_000_000

abbrev pub is_zero : Duration → Bool
is_zero d = pos_part d == 0 && neg_part d == 0

abbrev config_error : {A : Type 0} → String → Result A
config_error msg = err (wrap msg (sentinel config_invalid))

-- NoopObserver.
abbrev pub noop_observer : {O : Type 0} → Observer O
noop_observer e o = o

abbrev pub observer_or_noop : {O : Type 0} → Option (Observer O) → Observer O
observer_or_noop none = noop_observer
observer_or_noop (some obs) = obs

unfoldable pub new : {S O : Type 0} → Option (Backend S) → Config O → Result (LeaseClient S O)
new none cfg = err (sentinel nil_backend)
new (some b) cfg =
    if is_zero cfg.ttl
    then config_error "worklease: New: TTL is required"
    else if str_eq cfg.holder_id ""
    then config_error "worklease: New: HolderID is required"
    else if ltb_ℤ cfg.ttl (pos 0)
    then config_error "worklease: New: TTL must be positive, got %v"
    else if ltb_ℤ cfg.ttl min_ttl
    then config_error "worklease: New: TTL must be at least 1ms, got %v"
    else ok (record {
      backend = b;
      ttl = cfg.ttl;
      holder_id = cfg.holder_id;
      obs = observer_or_noop cfg.observer;
    })

abbrev pub new_token : LeaseRecord → Time → Token
new_token r deadline = record {
  work_id = r.work_id;
  holder_id = r.holder_id;
  fencing_token = r.fencing_token;
  expires_at = r.expires_at;
  deadline = deadline;
}

abbrev pub to_record : Token → LeaseRecord
to_record t = record {
  work_id = t.work_id;
  holder_id = t.holder_id;
  fencing_token = t.fencing_token;
  expires_at = t.expires_at;
}

-- len(state)
abbrev pub size : Option Bytes → ℕ
size none = 0
size (some bs) = length bs

-- The select of the wait loop: the timer fires, or the context is done with its error.
pub data Wait : Type 0 where
  fired : Wait
  done : GoError → Wait

-- What one round of the wait loop meets: the context during the call, the clock, and the wait.
pub record Round : Type 0 where
  pub ctx : Context
  pub timing : Timing
  pub wait : Wait

abbrev pub once : Result LeaseRecord → Token → Result Token
once (ok r) token = ok token
once (err e) token = err (wrap "worklease: Acquire: " e)

-- What follows an attempt in the wait loop: the loop ends with a result, or goes round again.
abbrev pub after_attempt : Result LeaseRecord → Token → Wait → Option (Result Token)
after_attempt (ok r) token wait = some (ok token)
after_attempt (err e) token wait =
    if not (is e lease_held) then some (err (wrap "worklease: Acquire: " e)) else elim wait [
      | fired ↦ none
      | done cause ↦ some (err (wrap "worklease: acquire cancelled: " cause))
    ]

-- The error that a method returns for the backend's.
abbrev pub wrap_error : String → String → Option GoError → Option GoError
wrap_error fenced_text text none = none
wrap_error fenced_text text (some e) =
    if is e fenced then some (wrap fenced_text (sentinel fenced)) else some (wrap text e)

-- `if err != nil { cp = Checkpoint{} }`
abbrev pub reported : Result Checkpoint → Checkpoint
reported (ok cp) = cp
reported (err e) = record { state = none; prev_exit = exit_none; prev_holder_id = "" }

abbrev pub read_result : Result Checkpoint → Result Checkpoint
read_result (ok cp) = ok cp
read_result (err e) =
    if is e fenced
    then err (wrap "worklease: ReadCheckpoint: workID=%q holderID=%q: " (sentinel fenced))
    else err (wrap "worklease: ReadCheckpoint: " e)

module _ {S O : Type 0} (c : LeaseClient S O) where
  -- The token that an attempt reports: zero if it failed.
  abbrev pub token_of : Timing → Result LeaseRecord → Token
  token_of timing (ok record') = new_token record' (timing.start +ℤ c.ttl)
  token_of timing (err e) = zero_token

  -- One backend call with its OnAcquire.
  unfoldable pub attempt : Context → Timing → String → S × O → Result LeaseRecord × Token × (S × O)
  attempt ctx timing work_id (s, o) =
      let (reply, s') = c.backend.acquire ctx work_id c.holder_id c.ttl s in
      let token = token_of timing reply in
      (reply, token, (s', c.obs (on_acquire work_id token timing.dur (error_of reply)) o))

  -- The wait loop over what it meets in its rounds; `none` if it is still waiting after the last.
  unfoldable pub wait_loop : List Round → String → S × O → Option (Result Token) × (S × O)
  unfolding attempt
  wait_loop [] work_id w = (none, w)
  wait_loop (r ∷ rs) work_id w =
      let (reply, token, w') = attempt r.ctx r.timing work_id w in
      let rest = wait_loop rs work_id w' in
      elim (after_attempt reply token r.wait) [ none ↦ rest | some result ↦ (some result, w') ]

  single : Context → Timing → String → S × O → Option (Result Token) × (S × O)
  unfolding attempt
  single ctx timing work_id w =
      let (reply, token, w') = attempt ctx timing work_id w in (some (once reply token), w')

  -- The first round is the single attempt where WithWaitForLease is not among the options.
  unfoldable pub acquire :
      List AcquireOption → Round → List Round → String → S × O → Option (Result Token) × (S × O)
  unfolding resolve single wait_loop
  acquire opts r rs work_id w =
      if str_eq work_id ""
      then (some (err (plain "worklease: Acquire: workID is required")), w)
      else if not (resolve opts).wait_for_lease
      then single r.ctx r.timing work_id w
      else wait_loop (r ∷ rs) work_id w

  -- OnFenced, where the backend's error matches ErrFenced.
  abbrev pub report_fenced : Token → Operation → Option GoError → O → O
  report_fenced token op e o = if is_err e fenced then c.obs (on_fenced token op) o else o

  unfoldable pub checkpoint :
      Context → Timing → Token → Option Bytes → S × O → Option GoError × (S × O)
  checkpoint ctx timing token state (s, o) =
      let (e, s') = c.backend.checkpoint ctx (to_record token) state c.ttl s in
      let o' = c.obs (on_checkpoint token (size state) timing.dur e) o in
      (
        wrap_error "worklease: Checkpoint: workID=%q holderID=%q: " "worklease: Checkpoint: " e,
        (s', report_fenced token operation_checkpoint e o'),
      )

  unfoldable pub renew : Context → Timing → Token → S × O → Option GoError × (S × O)
  renew ctx timing token (s, o) =
      let (e, s') = c.backend.renew ctx (to_record token) c.ttl s in
      let o' = c.obs (on_renew token timing.dur 1 e) o in
      (
        wrap_error "worklease: Renew: workID=%q holderID=%q: " "worklease: Renew: " e,
        (s', report_fenced token operation_renew e o'),
      )

  release_valid : Context → Timing → Token → ExitMode → S × O → Option GoError × (S × O)
  release_valid ctx timing token mode (s, o) =
      let (e, s') = c.backend.release ctx (to_record token) mode s in
      let o' = c.obs (on_release token timing.dur mode e) o in
      (
        wrap_error "worklease: Release: workID=%q holderID=%q: " "worklease: Release: " e,
        (s', report_fenced token operation_release e o'),
      )

  unfoldable pub release : Context → Timing → Token → ExitMode → S × O → Option GoError × (S × O)
  unfolding release_valid
  release ctx timing token mode w =
      if not (declarable mode)
      then (
        some (
            wrap "worklease: Release: workID=%q holderID=%q mode=%s: "
              (sentinel invalid_exit_mode)),
        w,
      )
      else release_valid ctx timing token mode w

  unfoldable pub read_checkpoint : Context → Timing → Token → S × O → Result Checkpoint × (S × O)
  read_checkpoint ctx timing token (s, o) =
      let (reply, s') = c.backend.read_checkpoint ctx (to_record token) s in
      let cp = reported reply in
      let event =
        on_read_checkpoint token timing.dur cp.prev_exit cp.prev_holder_id (size cp.state)
          (error_of reply) in
      (read_result reply, (s', c.obs event o))

  unfoldable pub forget : Context → Timing → Token → S × O → Option GoError × (S × O)
  forget ctx timing token (s, o) =
      let (e, s') = c.backend.forget ctx (to_record token) s in
      let o' = c.obs (on_forget token timing.dur e) o in
      (
        wrap_error "worklease: Forget: workID=%q holderID=%q: " "worklease: Forget: " e,
        (s', report_fenced token operation_forget e o'),
      )
