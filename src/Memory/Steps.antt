-- ===== src/Memory/Steps.antt =====
-- Each method of the in-memory backend as a step of the contract of backend.Backend.
use worklease.Base.{
  ◌==◌, ◌+◌, ◌<◌, ◌^◌, ◌≡◌, refl, true, false, inl, inr, Bool-cases, Option, none, some, String,
  arith,
}
use worklease.Base.Int.{pos, ◌+ℤ◌, +ℤ_parts}
use worklease.Base.Dict.{lookup}
use worklease.Errors.{GoError, sentinel, lease_held, lease_expired}
use worklease.Backend.{Time, Duration, Bytes, ExitMode, LeaseRecord, SweepOptions, declarable}
use worklease.Memory.{
  Row, MemoryBackend, Readings, acquire, checkpoint, renew, release, release_valid, read_checkpoint,
  forget, sweep, held_by, new_row, next_token, grant, is_live, is_kept, checkpoint_row, renew_row,
  release_row, release_grace_period, commit, if_held, read_row, forget_row,
}
use worklease.Memory.Invariant.{IsValid}
use worklease.Memory.Sweep.{keep_if, lookup-swept, deletable-goes, gone-IsDeletable}
use worklease.Memory.Counts.{sweep-Counts}
use worklease.Contract.{
  Request, acquires, checkpoints, renews, releases, reads, forgets, sweeps, Reply, failed, Step,
  grants, finds_held, saves, saves_too_late, extends, extends_too_late, exits, exits_too_late,
  exits_wrongly, recalls, recalls_nothing, drops, clears, is_fenced, refused, SweptAway, stored,
}
use worklease.Memory.View.{
  term_of, some_term, view, setting, reply_of, lease_reply, read_reply, swept_reply, IsContext,
  wrap-IsForeign, wrap-TellsContext, unchanged, insert-Puts, erase-Puts, exactly-LastsFor,
  held_by-Holds, held_by-IsNotHeld, commit-Step, stored-normalize, puts,
}

-- Each call, at the readings of its clock.
module _ (m : MemoryBackend) (now : Readings) where
  abbrev Meets : Option GoError → Request → Reply → MemoryBackend → Type 0
  Meets ctx q reply z = Step (setting ctx now) (view m) (view z) q reply

  pub checkpoint-Step :
      (ctx : Option GoError) (rec : LeaseRecord) (state : Option Bytes) (ttl : Duration)
      → IsContext ctx
      → let z = checkpoint ctx now rec state ttl m in
        Meets ctx (checkpoints rec state ttl) (reply_of z.0) z.1
  unfolding checkpoint
  checkpoint-Step (some e) rec state ttl c =
      refused _ _ tt (wrap-IsForeign _ e c) (wrap-TellsContext _ e) (unchanged m)
  checkpoint-Step none rec state ttl c =
      commit-Step m rec (setting none now) (checkpoints rec state ttl)
        (checkpoint_row now state ttl) refl
        (λ r e h c'.
          let late : e ≡ sentinel lease_expired = ground arith in
          rw late (saves_too_late rec state ttl (term_of r) h (ground arith) (unchanged m)))
        (λ r r' h c'.
          let same : term_of r' ≡ record (term_of r) {
            state = stored state;
            expires_at = now.stamp +ℤ ttl;
            updated_at = now.update;
          } =
            ground (arith, stored-normalize state) in
          saves rec state ttl (term_of r) (now.stamp +ℤ ttl) h (ground arith)
            (exactly-LastsFor now.stamp ttl)
            (puts r' same (insert-Puts m rec.work_id r' m.seq (omega arith))))

  pub renew-Step :
      (ctx : Option GoError) (rec : LeaseRecord) (ttl : Duration)
      → IsContext ctx
      → let z = renew ctx now rec ttl m in Meets ctx (renews rec ttl) (reply_of z.0) z.1
  unfolding renew
  renew-Step (some e) rec ttl c =
      refused _ _ tt (wrap-IsForeign _ e c) (wrap-TellsContext _ e) (unchanged m)
  renew-Step none rec ttl c =
      commit-Step m rec (setting none now) (renews rec ttl) (renew_row now ttl) refl
        (λ r e h c'.
          let late : e ≡ sentinel lease_expired = ground arith in
          rw late (extends_too_late rec ttl (term_of r) h (ground arith) (unchanged m)))
        (λ r r' h c'.
          let same : term_of r'
              ≡ record (term_of r) { expires_at = now.stamp +ℤ ttl; updated_at = now.update } =
            ground arith in
          extends rec ttl (term_of r) (now.stamp +ℤ ttl) h (ground arith)
            (exactly-LastsFor now.stamp ttl)
            (puts r' same (insert-Puts m rec.work_id r' m.seq (omega arith))))

  pub release_valid-Step :
      (rec : LeaseRecord) (mode : ExitMode)
      → declarable mode ≡ true
      → let z =
          commit rec.work_id m
            (if_held (lookup rec.work_id m.records) rec (release_row now mode)) in
        Meets none (releases rec mode) (reply_of z.0) z.1
  release_valid-Step rec mode valid =
      commit-Step m rec (setting none now) (releases rec mode) (release_row now mode) (refl, valid)
        (λ r e h c'.
          let late : e ≡ sentinel lease_expired = ground arith in
          rw late (exits_too_late rec mode (term_of r) valid h (ground arith) (unchanged m)))
        (λ r r' h c'.
          let end = now.stamp +ℤ release_grace_period in
          let same : term_of r'
              ≡ record (term_of r) { exit_mode = mode; expires_at = end; updated_at = now.update } =
            ground arith in
          exits rec mode (term_of r) end valid h (ground arith)
            (omega (arith, +ℤ_parts now.stamp release_grace_period))
            (puts r' same (insert-Puts m rec.work_id r' m.seq (omega arith))))

  pub release-Step :
      (ctx : Option GoError) (rec : LeaseRecord) (mode : ExitMode)
      → IsContext ctx
      → let z = release ctx now rec mode m in Meets ctx (releases rec mode) (reply_of z.0) z.1
  unfolding release
  release-Step ctx rec mode c = elim (Bool-cases (declarable mode)) [
    | inl valid ↦ rw (valid, release) (at_context ctx c valid)
    | inr invalid ↦ rw (invalid, release) (exits_wrongly rec mode invalid (unchanged m))
  ]
    where
      at_context :
          (x : Option GoError)
          → IsContext x
          → declarable mode ≡ true
          → Meets x
              (releases rec mode)
              (reply_of (release_valid x now rec mode m).0)
              (release_valid x now rec mode m).1
      at_context (some e) c' valid =
          refused _ _ valid (wrap-IsForeign _ e c') (wrap-TellsContext _ e) (unchanged m)
      at_context none c' valid = release_valid-Step rec mode valid

  -- A grant on what the table holds for the work ID.
  pub grant-Step :
      (w holder_id : String) (ttl : Duration) (o : Option Row)
      → lookup w m.records ≡ o
      → is_live o now.check ≡ false
      → m.seq + 1 < 2 ^ 64
      → let z = grant (new_row o now holder_id ttl (next_token m.seq)) w m in
        Meets none (acquires w holder_id ttl) (lease_reply z.0) z.1
  unfolding new_row grant
  grant-Step w holder_id ttl none e free room =
      let r = new_row none now holder_id ttl (next_token m.seq) in
      grants w holder_id ttl (term_of r) _ (rw e tt) (rw e (refl, refl, refl)) refl refl
        (exactly-LastsFor now.stamp ttl) (omega arith) refl
        (insert-Puts m w r (next_token m.seq) (omega arith)) refl
  grant-Step w holder_id ttl (some x) e free room =
      let r = new_row (some x) now holder_id ttl (next_token m.seq) in
      grants w holder_id ttl (term_of r) _ (rw e (ground arith)) (rw e (refl, ground arith, refl))
        refl refl (exactly-LastsFor now.stamp ttl) (omega arith) refl
        (insert-Puts m w r (next_token m.seq) (omega arith)) refl

  pub acquire-Step :
      (ctx : Option GoError) (w holder_id : String) (ttl : Duration)
      → IsContext ctx
      → m.seq + 1 < 2 ^ 64
      → let z = acquire ctx now w holder_id ttl m in
        Meets ctx (acquires w holder_id ttl) (lease_reply z.0) z.1
  unfolding acquire
  acquire-Step (some e) w holder_id ttl c room =
      refused _ _ tt (wrap-IsForeign _ e c) (wrap-TellsContext _ e) (unchanged m)
  acquire-Step none w holder_id ttl c room =
      elim (Bool-cases (is_live (lookup w m.records) now.check)) [
        | inl live ↦ rw (live, acquire) (at_row (lookup w m.records) refl live)
        | inr free ↦
            rw (free, acquire) (grant-Step w holder_id ttl (lookup w m.records) refl free room)
      ]
    where
      at_row :
          (o : Option Row)
          → lookup w m.records ≡ o
          → is_live o now.check ≡ true
          → Meets none (acquires w holder_id ttl) (failed (sentinel lease_held)) m
      at_row none e live = cc
      at_row (some r) e live =
          finds_held w holder_id ttl (term_of r) (rw e refl) (ground arith) (unchanged m)

  pub read-Step :
      (ctx : Option GoError) (rec : LeaseRecord)
      → IsContext ctx
      → Meets ctx (reads rec) (read_reply (read_checkpoint ctx rec m)) m
  unfolding read_checkpoint
  read-Step (some e) rec c =
      refused _ _ tt (wrap-IsForeign _ e c) (wrap-TellsContext _ e) (unchanged m)
  read-Step none rec c = at_row (lookup rec.work_id m.records) refl
    where
      at_row :
          (o : Option Row)
          → lookup rec.work_id m.records ≡ o
          → Meets none (reads rec) (read_reply (read_row o rec)) m
      at_row none e = recalls_nothing rec (rw e tt) (unchanged m)
      at_row (some r) e = elim (Bool-cases (r.fencing_token == rec.fencing_token)) [
        | inl h ↦ rw h (recalls rec (term_of r) (rw e refl) (ground arith) (unchanged m))
        | inr h ↦ rw h (recalls_nothing rec (rw e (ground arith)) (unchanged m))
      ]

  pub forget-Step :
      (ctx : Option GoError) (rec : LeaseRecord)
      → IsContext ctx
      → let z = forget ctx rec m in Meets ctx (forgets rec) (reply_of z.0) z.1
  unfolding forget
  forget-Step (some e) rec c =
      refused _ _ tt (wrap-IsForeign _ e c) (wrap-TellsContext _ e) (unchanged m)
  forget-Step none rec c = at_row (lookup rec.work_id m.records) refl
    where
      at_row :
          (o : Option Row)
          → lookup rec.work_id m.records ≡ o
          → let z = forget_row o rec m in Meets none (forgets rec) (reply_of z.0) z.1
      at_row none e = is_fenced rec (forgets rec) refl (rw e tt) (unchanged m)
      at_row (some r) e = elim (Bool-cases (held_by r rec)) [
        | inl h ↦ rw h (
            drops rec (term_of r) (held_by-Holds m rec (setting none now) r e h)
              (erase-Puts m rec.work_id))
        | inr h ↦ rw h (
            is_fenced rec (forgets rec) refl (held_by-IsNotHeld m rec (setting none now) r e h)
              (unchanged m))
      ]

  pub sweep-Step :
      (t : Time) (ctx : Option GoError) (opts : SweepOptions)
      → IsContext ctx
      → IsValid t m
      → let z = sweep ctx now.check opts m in Meets ctx (sweeps opts) (swept_reply z.0) z.1
  unfolding sweep
  sweep-Step t (some e) opts c v =
      refused _ _ tt (wrap-IsForeign _ e c) (wrap-TellsContext _ e) (unchanged m)
  sweep-Step t none opts c v =
      clears opts opts.retention _ (omega (arith, +ℤ_parts opts.retention (pos 2000)))
        (omega (arith, +ℤ_parts opts.retention (pos 2000)))
        (λ w. rw (lookup-swept t now.check opts m v w) (at_row (lookup w m.records)))
        (sweep-Counts t now.check opts m v) (omega arith)
    where
      at_row :
          (o : Option Row)
          → SweptAway now.check opts.retention opts
              (some_term o)
              (some_term (keep_if (is_kept now.check opts) o))
      at_row none = refl
      at_row (some r) = elim (Bool-cases (is_kept now.check opts r)) [
        | inl kept ↦ rw kept (inr (refl, λ old. cc (kept, deletable-goes now.check opts r old)))
        | inr gone ↦ rw gone (inl (refl, gone-IsDeletable now.check opts r gone))
      ]
