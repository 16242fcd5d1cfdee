-- ===== src/Conformance/Expect.antt =====
-- backend/conformance/conformance.go: what the specs share, and the expectations of Gomega on what a
-- method returns. A spec goes on after an expectation that is met, and ends where one is not.
use worklease.Base.{◌+◌, Bool, true, false, ◌&&◌, Option, none, some, [], ◌∷◌, ◌==◌}
use worklease.Base.Int.{pos, negsuc}
use worklease.Errors.{GoError, Sentinel, Result, ok, err, is}
use worklease.Backend.{Duration, Bytes, LeaseRecord, SweepOptions}

-- 30 * time.Second
abbrev pub normal_ttl : Duration
normal_ttl = pos 30_000_000_000

-- -time.Second
abbrev pub expired_ttl : Duration
expired_ttl = negsuc 999_999_999

abbrev pub stale : LeaseRecord → LeaseRecord
stale rec = record rec { fencing_token = rec.fencing_token + 1 }

abbrev pub by_other : LeaseRecord → LeaseRecord
by_other rec = record rec { holder_id = "h-other" }

-- The record is not of a backend, so its ExpiresAt is the zero time.
abbrev pub never_acquired : LeaseRecord
never_acquired = record {
  work_id = "never-acquired";
  holder_id = "h";
  fencing_token = 1;
  expires_at = pos 0;
}

abbrev pub options : Duration → Bool → SweepOptions
options retention include_expired = record {
  retention = retention;
  include_expired = include_expired;
}

module _ {S : Type 0} where
  -- Expect(err).NotTo(HaveOccurred()), with the value.
  abbrev pub and_reads {ℓ} : {A : Type ℓ} → Result A × S → (A → S → Bool) → Bool
  and_reads (ok a, s) next = next a s
  and_reads (err e, s) next = false

  abbrev pub and_grants : Result LeaseRecord × S → (LeaseRecord → S → Bool) → Bool
  and_grants (ok rec, s) next = next rec s
  and_grants (err e, s) next = false

  -- Expect(errors.Is(err, target)).To(BeTrue()) and Expect(err).To(MatchError(target)).
  abbrev pub and_refuses {ℓ} : {A : Type ℓ} → Sentinel → Result A × S → (S → Bool) → Bool
  and_refuses target (ok a, s) next = false
  and_refuses target (err e, s) next = is e target && next s

  -- Expect(b.Method(...)).To(Succeed())
  abbrev pub and_succeeds : Option GoError × S → (S → Bool) → Bool
  and_succeeds (none, s) next = next s
  and_succeeds (some e, s) next = false

  abbrev pub and_fails : Sentinel → Option GoError × S → (S → Bool) → Bool
  and_fails target (none, s) next = false
  and_fails target (some e, s) next = is e target && next s

abbrev pub bytes_eq : Bytes → Bytes → Bool
bytes_eq [] [] = true
bytes_eq [] (c ∷ cs) = false
bytes_eq (b ∷ bs) [] = false
bytes_eq (b ∷ bs) (c ∷ cs) = b == c && bytes_eq bs cs

abbrev pub is_nil : Option Bytes → Bool
is_nil none = true
is_nil (some b) = false

abbrev pub state_is : Option Bytes → Option Bytes → Bool
state_is none none = true
state_is (some b) (some c) = bytes_eq b c
state_is none (some c) = false
state_is (some b) none = false
