-- ===== src/Contract/Fencing.antt =====
-- Fencing, from the contract alone: for every backend whose calls are steps of it.
use worklease.Base.{◌≤◌, ◌≡◌, ◌≢◌, refl, ◌⊎◌, inl, inr, some, String, arith, ◌∙◌}
use worklease.Errors.{sentinel, fenced, invalid_exit_mode}
use worklease.Backend.{Duration, LeaseRecord}
use worklease.Contract.History.{KeepsOld, Reach-KeepsOld}
use worklease.Contract.{
  Term, Leases, Request, acquires, checkpoints, renews, releases, reads, forgets, sweeps, Reply,
  granted, read, swept, done, failed, Setting, Unchanged, IsForeign, Step, grants, finds_held,
  saves, saves_too_late, extends, extends_too_late, exits, exits_too_late, exits_wrongly, recalls,
  recalls_nothing, drops, clears, is_fenced, refused, unanswered, Reach,
}

-- The record's token was issued, and the last lease of its work ID has another one.
pub record IsSuperseded (rec : LeaseRecord) (s : Leases) : Type 0 where
  pub issued : rec.fencing_token ≤ s.issued
  pub replaced : (r : Term) → s.term rec.work_id ≡ some r → r.fencing_token ≢ rec.fencing_token

KeepsOld-IsSuperseded :
    (rec : LeaseRecord) {s s' : Leases} → KeepsOld s s' → IsSuperseded rec s → IsSuperseded rec s'
KeepsOld-IsSuperseded rec h old = record {
  issued = omega (arith, old.issued, h.grows);
  replaced = λ r' e same.
      let (r, e', holder, token) = h.was_there rec.work_id r' e (omega (arith, old.issued)) in
      old.replaced r e' (token ∙ same);
}

-- A call with the record.
abbrev pub Uses : LeaseRecord → Request → Type 0
Uses rec (checkpoints r state ttl) = r ≡ rec
Uses rec (renews r ttl) = r ≡ rec
Uses rec (releases r mode) = r ≡ rec
Uses rec (forgets r) = r ≡ rec
Uses rec (reads r) = r ≡ rec
Uses rec (acquires w h ttl) = ⊥
Uses rec (sweeps opts) = ⊥

-- What a superseded holder is told: ErrFenced; ErrInvalidExitMode for a mode that Release does not
-- take; or an error from outside the contract.
abbrev pub IsRefusal : Reply → Type 0
IsRefusal (failed e) = (e ≡ sentinel fenced) ⊎ (e ≡ sentinel invalid_exit_mode) ⊎ IsForeign e
IsRefusal (granted rec) = ⊥
IsRefusal (read cp) = ⊥
IsRefusal (swept n) = ⊥
IsRefusal done = ⊥

Uses-refused :
    (rec : LeaseRecord) {now : Setting} {s s' : Leases} {q : Request} {reply : Reply}
    → Uses rec q
    → IsSuperseded rec s
    → Step now s s' q reply
    → IsRefusal reply × Unchanged s s'
Uses-refused rec u old
      (grants w h ttl k lease free inherits holder exit lasts fresh last put named) =
    absurd u
Uses-refused rec u old (finds_held w h ttl r found live same) = absurd u
Uses-refused rec u old (saves other state ttl r e held none_yet lasts put) =
    absurd (ground (arith, old.replaced r))
Uses-refused rec u old (saves_too_late other state ttl r held exit same) =
    absurd (ground (arith, old.replaced r))
Uses-refused rec u old (extends other ttl r e held live lasts put) =
    absurd (ground (arith, old.replaced r))
Uses-refused rec u old (extends_too_late other ttl r held late same) =
    absurd (ground (arith, old.replaced r))
Uses-refused rec u old (exits other mode r e valid held live ends put) =
    absurd (ground (arith, old.replaced r))
Uses-refused rec u old (exits_too_late other mode r valid held late same) =
    absurd (ground (arith, old.replaced r))
Uses-refused rec u old (exits_wrongly other mode invalid same) = (inr (inl refl), same)
Uses-refused rec u old (recalls other r found token same) = absurd (ground (arith, old.replaced r))
Uses-refused rec u old (recalls_nothing other gone same) = (inl refl, same)
Uses-refused rec u old (drops other r held put) = absurd (ground (arith, old.replaced r))
Uses-refused rec u old (clears opts cutoff n low high swept' counts grows) = absurd u
Uses-refused rec u old (is_fenced other q uses gone same) = (inl refl, same)
Uses-refused rec u old (refused q e sound foreign tells same) = (inr (inr foreign), same)
Uses-refused rec u old (unanswered q reply e sound foreign tells st) =
    (inr (inr foreign), (Uses-refused rec u old st).1)

-- On every backend that keeps the contract: once a successor has acquired the work ID, then after
-- any calls by any clients, a call with the record of the lease before is refused and changes no
-- lease. (The record's token was issued before the successor's.)
pub contract_fences :
    (old : LeaseRecord) (holder_id : String) (ttl : Duration) (rec : LeaseRecord)
    (now later : Setting) (s t u v : Leases) (q : Request) (reply : Reply)
    → old.fencing_token ≤ s.issued
    → Step now s t (acquires old.work_id holder_id ttl) (granted rec)
    → Reach t u
    → Uses old q
    → Step later u v q reply
    → IsRefusal reply × Unchanged u v
contract_fences old holder_id ttl rec now later s t u v q reply issued grant reach uses st =
    Uses-refused old uses (KeepsOld-IsSuperseded old (Reach-KeepsOld reach) (after_grant grant)) st
  where
    after_grant :
        Step now s t (acquires old.work_id holder_id ttl) (granted rec) → IsSuperseded old t
    after_grant (grants w h ttl' k lease free inherits holder exit lasts fresh last put named) =
        record { issued = omega arith; replaced = λ r e. ground (arith, put) }
