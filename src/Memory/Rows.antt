-- ===== src/Memory/Rows.antt =====
-- The rows of the in-memory backend, and what Acquire makes of the row that it finds.
use worklease.Base.{
  ℕ, ◌+◌, ◌%◌, ◌^◌, Bool, false, not, ◌&&◌, Option, none, some, String, [], ◌==◌, str_eq,
  if◌then◌else◌,
}
use worklease.Base.Int.{negsuc, ◌+ℤ◌, ltb_ℤ}
use worklease.Base.Dict.{Dict}
use worklease.Backend.{Time, Duration, Bytes, ExitMode, exit_none, exit_expired, LeaseRecord}

-- The struct `record`.
pub record Row : Type 0 where
  pub holder_id : String
  pub fencing_token : ℕ
  pub expires_at : Time
  pub checkpoint : Option Bytes
  pub exit_mode : ExitMode
  pub prev_exit : ExitMode
  pub prev_holder_id : String
  pub updated_at : Time

pub record MemoryBackend : Type 0 where
  pub records : Dict Row
  pub seq : ℕ  -- uint64

-- What the successive calls of clock.Now() in one operation return: for the test of the expiry,
-- for the new expiry, and for updatedAt. A call that is not reached leaves its value unread.
pub record Readings : Type 0 where
  pub check : Time
  pub stamp : Time
  pub update : Time

unfoldable pub new : MemoryBackend
new = record { records = []; seq = 0 }

-- `-time.Millisecond`
abbrev pub release_grace_period : Duration
release_grace_period = negsuc 999_999

abbrev pub after : Time → Time → Bool
after t u = ltb_ℤ u t

abbrev pub before : Time → Time → Bool
before t u = ltb_ℤ t u

unfoldable pub held_by : Row → LeaseRecord → Bool
held_by r rec = str_eq r.holder_id rec.holder_id && r.fencing_token == rec.fencing_token

-- `exists && !mb.clock.Now().After(r.expiresAt)`
abbrev pub is_live : Option Row → Time → Bool
is_live none now = false
is_live (some r) now = not (after now r.expires_at)

-- seq.Add(1) on an atomic.Uint64
abbrev pub next_token : ℕ → ℕ
next_token seq = (seq + 1) % 2 ^ 64

abbrev pub declared_exit : Row → ExitMode
declared_exit r = if r.exit_mode == exit_none then exit_expired else r.exit_mode

-- STEP 4 and 5 of Acquire: the row of the new lease.
unfoldable pub new_row : Option Row → Readings → String → Duration → ℕ → Row
new_row none now holder_id ttl token = record {
  holder_id = holder_id;
  fencing_token = token;
  expires_at = now.stamp +ℤ ttl;
  checkpoint = none;
  exit_mode = exit_none;
  prev_exit = exit_none;
  prev_holder_id = "";
  updated_at = now.update;
}
new_row (some r) now holder_id ttl token = record {
  holder_id = holder_id;
  fencing_token = token;
  expires_at = now.stamp +ℤ ttl;
  checkpoint = r.checkpoint;
  exit_mode = exit_none;
  prev_exit = declared_exit r;
  prev_holder_id = r.holder_id;
  updated_at = now.update;
}

abbrev pub granted : String → Row → LeaseRecord
granted work_id r = record {
  work_id = work_id;
  holder_id = r.holder_id;
  fencing_token = r.fencing_token;
  expires_at = r.expires_at;
}
