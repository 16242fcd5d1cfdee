-- ===== src/Client/Types.antt =====
-- The types that the client is made of: Token and the events of lease.go, the Backend interface of
-- backend/backend.go, and Config and leaseClient of worklease.go.
use worklease.Base.{ℕ, Option, String}
use worklease.Base.Int.{pos}
use worklease.Errors.{GoError, Result}
use worklease.Backend.{Time, Duration, Bytes, ExitMode, Checkpoint, LeaseRecord, SweepOptions}

-- What ctx.Err() returns during a call.
abbrev pub Context : Type 0
Context = Option GoError

pub record Token : Type 0 where
  pub work_id : String
  pub holder_id : String
  pub fencing_token : ℕ
  pub expires_at : Time
  pub deadline : Time

-- `Token{}`; the zero time.Time is the origin of the time axis.
abbrev pub zero_token : Token
zero_token = record {
  work_id = "";
  holder_id = "";
  fencing_token = 0;
  expires_at = pos 0;
  deadline = pos 0;
}

-- The interface Backend.
pub record Backend (S : Type 0) : Type 0 where
  pub acquire : Context → String → String → Duration → S → Result LeaseRecord × S
  pub checkpoint : Context → LeaseRecord → Option Bytes → Duration → S → Option GoError × S
  pub renew : Context → LeaseRecord → Duration → S → Option GoError × S
  pub release : Context → LeaseRecord → ExitMode → S → Option GoError × S
  pub read_checkpoint : Context → LeaseRecord → S → Result Checkpoint × S
  pub forget : Context → LeaseRecord → S → Option GoError × S
  pub sweep : Context → SweepOptions → S → Result ℕ × S

pub data Operation : Type 0 where
  operation_checkpoint operation_renew operation_release operation_forget : Operation

-- A call of a method of LeaseObserver, with the fields of its event.
pub data Event : Type 0 where
  on_acquire : String → Token → Duration → Option GoError → Event
  on_checkpoint : Token → ℕ → Duration → Option GoError → Event
  on_renew : Token → Duration → ℕ → Option GoError → Event
  on_release : Token → Duration → ExitMode → Option GoError → Event
  on_read_checkpoint : Token → Duration → ExitMode → String → ℕ → Option GoError → Event
  on_forget : Token → Duration → Option GoError → Event
  on_fenced : Token → Operation → Event

-- An observer with a state of its own.
abbrev pub Observer : Type 0 → Type 0
Observer O = Event → O → O

pub record Config (O : Type 0) : Type 0 where
  pub ttl : Duration
  pub holder_id : String
  pub observer : Option (Observer O)

pub record LeaseClient (S O : Type 0) : Type 0 where
  pub backend : Backend S
  pub ttl : Duration
  pub holder_id : String
  pub obs : Observer O

-- What time.Now() returns before the backend call, and how long the call takes.
pub record Timing : Type 0 where
  pub start : Time
  pub dur : Duration
