-- ===== src/Contract/Exclusion.antt =====
-- Mutual exclusion, from the contract alone: for every backend whose calls are steps of it.
use worklease.Base.{
  ◌≡◌, ◌≢◌, refl, sym, ap, subst, ◌∙◌, ◌⊎◌, inl, inr, Option, none, some, String, arith,
}
use worklease.Base.Int.{◌≤ℤ◌, ◌+ℤ◌}
use worklease.Errors.{GoError, sentinel, lease_held}
use worklease.Backend.{Time, Duration, LeaseRecord, SweepOptions}
use worklease.Contract.{
  Term, Leases, Request, acquires, checkpoints, renews, releases, reads, forgets, sweeps, Reply,
  granted, read, swept, done, failed, Setting, Unchanged, Puts, IsForeign, Step, grants, finds_held,
  saves, saves_too_late, extends, extends_too_late, exits, exits_too_late, exits_wrongly, recalls,
  recalls_nothing, drops, clears, is_fenced, refused, unanswered, SweptAway, IsNotHeld, IsFree,
  Holds,
}
use worklease.Contract.History.{Puts-at}

-- The record is not that of the lease.
abbrev pub IsOther : String → Term → LeaseRecord → Type 0
IsOther w k rec = (rec.work_id ≢ w) ⊎ IsNotHeld rec (some k)

-- A call of anyone but the holder of this lease.
abbrev pub IsOthers : String → Term → Request → Type 0
IsOthers w k (checkpoints rec state ttl) = IsOther w k rec
IsOthers w k (renews rec ttl) = IsOther w k rec
IsOthers w k (releases rec mode) = IsOther w k rec
IsOthers w k (forgets rec) = IsOther w k rec
IsOthers w k (acquires v h ttl) = Unit {0}
IsOthers w k (reads rec) = Unit {0}
IsOthers w k (sweeps opts) = Unit {0}

-- Calls of others, in any order, as long as the backend's clock does not pass the limit.
pub data OthersUntil (w : String) (k : Term) (limit : Time) (s : Leases) : Leases → Type 0 where
  no_call : OthersUntil w k limit s s
  one_more :
      {u v : Leases} (now : Setting) (q : Request) (reply : Reply)
      → OthersUntil w k limit s u
      → now.check ≤ℤ limit
      → IsOthers w k q
      → Step now u v q reply
      → OthersUntil w k limit s v

-- A lease that does not end before the limit.
module _ (w : String) (k : Term) (limit : Time) (lasts : limit ≤ℤ k.expires_at) where
  Unchanged-keeps : {s s' : Leases} → s.term w ≡ some k → Unchanged s s' → s'.term w ≡ some k
  Unchanged-keeps e h = h.same w ∙ e

  -- A change of a lease that is not this one.
  Puts-keeps :
      {s s' : Leases} (v : String) (o : Option Term)
      → s.term w ≡ some k
      → v ≢ w
      → Puts s s' v o
      → s'.term w ≡ some k
  Puts-keeps v o e other h = elim (Puts-at w h) [
    | inl (here', put) ↦ absurd (other (sym here'))
    | inr rest ↦ rest ∙ e
  ]

  other_id :
      (s : Leases) (rec : LeaseRecord) (r : Term)
      → s.term w ≡ some k
      → IsOther w k rec
      → Holds rec (s.term rec.work_id) r
      → rec.work_id ≢ w
  other_id s rec r e (inl other) held = other
  other_id s rec r e (inr gone) (found, holder, token) =
      λ here'. ground (arith, ap s.term here', gone)

  free_id :
      (s : Leases) (now : Time) (v : String)
      → s.term w ≡ some k
      → now ≤ℤ limit
      → IsFree now (s.term v)
      → v ≢ w
  free_id s now v e le free = λ here'.
      let free' : IsFree now (some k) = subst (IsFree now) (ap s.term here' ∙ e) free in
      absurd (omega (arith, lasts))

  swept_keeps :
      (now : Time) (cutoff : Duration) (opts : SweepOptions) (o o' : Option Term)
      → o ≡ some k
      → now ≤ℤ limit
      → SweptAway now cutoff opts o o'
      → o' ≡ some k
  swept_keeps now cutoff opts none o' e le h = cc
  swept_keeps now cutoff opts (some r) o' e le (inl (gone, (old, lapsed, exit))) =
      absurd (ground (arith, lasts))
  swept_keeps now cutoff opts (some r) o' e le (inr (same, young)) = same ∙ e

  Step-keeps :
      {now : Setting} {s s' : Leases} {q : Request} {reply : Reply}
      → s.term w ≡ some k
      → now.check ≤ℤ limit
      → IsOthers w k q
      → Step now s s' q reply
      → s'.term w ≡ some k
  Step-keeps {now} {s} e le o
        (grants v h ttl n lease free inherits holder exit lasts' fresh last put named) =
      Puts-keeps v _ e (free_id s now.check v e le free) put
  Step-keeps e le o (finds_held v h ttl r found live same) = Unchanged-keeps e same
  Step-keeps {now} {s} e le o (saves rec state ttl r end held none_yet lasts' put) =
      Puts-keeps rec.work_id _ e (other_id s rec r e o held) put
  Step-keeps e le o (saves_too_late rec state ttl r held exit same) = Unchanged-keeps e same
  Step-keeps {now} {s} e le o (extends rec ttl r end held live lasts' put) =
      Puts-keeps rec.work_id _ e (other_id s rec r e o held) put
  Step-keeps e le o (extends_too_late rec ttl r held late same) = Unchanged-keeps e same
  Step-keeps {now} {s} e le o (exits rec mode r end valid held live ends put) =
      Puts-keeps rec.work_id _ e (other_id s rec r e o held) put
  Step-keeps e le o (exits_too_late rec mode r valid held late same) = Unchanged-keeps e same
  Step-keeps e le o (exits_wrongly rec mode invalid same) = Unchanged-keeps e same
  Step-keeps e le o (recalls rec r found token same) = Unchanged-keeps e same
  Step-keeps e le o (recalls_nothing rec gone same) = Unchanged-keeps e same
  Step-keeps {now} {s} e le o (drops rec r held put) =
      Puts-keeps rec.work_id _ e (other_id s rec r e o held) put
  Step-keeps {now} {s} {s'} e le o (clears opts cutoff n low high swept' counts grows) =
      swept_keeps now.check cutoff opts (s.term w) (s'.term w) e le (swept' w)
  Step-keeps e le o (is_fenced rec q uses gone same) = Unchanged-keeps e same
  Step-keeps e le o (refused q x sound foreign tells same) = Unchanged-keeps e same
  Step-keeps e le o (unanswered q reply x sound foreign tells st) = Step-keeps e le o st

  OthersUntil-keeps :
      {s u : Leases} → s.term w ≡ some k → OthersUntil w k limit s u → u.term w ≡ some k
  OthersUntil-keeps e no_call = e
  OthersUntil-keeps e (one_more now q reply before le o st) =
      Step-keeps (OthersUntil-keeps e before) le o st

-- What an Acquire of a held work ID is told.
abbrev pub IsHeld : Reply → Type 0
IsHeld (failed e) = (e ≡ sentinel lease_held) ⊎ IsForeign e
IsHeld (granted rec) = ⊥
IsHeld (read cp) = ⊥
IsHeld (swept n) = ⊥
IsHeld done = ⊥

-- The call gives the work ID's holder a lease for this TTL.
abbrev pub Secures : String → Duration → Request → Reply → Type 0
Secures w ttl (acquires v h d) (granted rec) = (v ≡ w) × (d ≡ ttl)
Secures w ttl (renews rec d) done = (rec.work_id ≡ w) × (d ≡ ttl)
Secures w ttl (checkpoints rec state d) done = (rec.work_id ≡ w) × (d ≡ ttl)
Secures w ttl q reply = ⊥

failed-Secures :
    (w : String) (ttl : Duration) (q : Request) (x : GoError) → Secures w ttl q (failed x) → ⊥
failed-Secures w ttl (acquires v h d) x u = u
failed-Secures w ttl (checkpoints rec state d) x u = u
failed-Secures w ttl (renews rec d) x u = u
failed-Secures w ttl (releases rec mode) x u = u
failed-Secures w ttl (reads rec) x u = u
failed-Secures w ttl (forgets rec) x u = u
failed-Secures w ttl (sweeps opts) x u = u

secured_lasts :
    {now : Setting} {s t : Leases} {q : Request} {reply : Reply} {k : Term} {w : String}
    (ttl : Duration)
    → Step now s t q reply
    → Secures w ttl q reply
    → t.term w ≡ some k
    → now.stamp +ℤ ttl ≤ℤ k.expires_at
secured_lasts {t = t} ttl
      (grants v h d k' lease free inherits holder exit lasts fresh last put named) (here', same) e =
    ground (arith, put.put, lasts, ap t.term here')
secured_lasts {t = t} ttl (saves rec state d r end held none_yet lasts put) (here', same) e =
    ground (arith, put.put, lasts, ap t.term here')
secured_lasts {t = t} ttl (extends rec d r end held live lasts put) (here', same) e =
    ground (arith, put.put, lasts, ap t.term here')
secured_lasts ttl (is_fenced rec q uses gone same) u e = absurd (failed-Secures _ ttl q _ u)
secured_lasts ttl (refused q x sound foreign tells same) u e = absurd (failed-Secures _ ttl q _ u)
secured_lasts ttl (unanswered q reply x sound foreign tells st) u e =
    absurd (failed-Secures _ ttl q _ u)
secured_lasts ttl _ u e = absurd u

told :
    {now : Setting} {u v : Leases} {k : Term} {w other : String} {ttl : Duration} {reply : Reply}
    (limit : Time)
    → limit ≤ℤ k.expires_at
    → u.term w ≡ some k
    → now.check ≤ℤ limit
    → Step now u v (acquires w other ttl) reply
    → IsHeld reply × Unchanged u v
told {now} {u} {v} limit lasts e le
      (grants w h ttl k' lease free inherits holder exit lasts' fresh last put named) =
    absurd (free_id w _ limit lasts u now.check w e le free refl)
told limit lasts e le (finds_held w h ttl r found live same) = (inl refl, same)
told limit lasts e le (is_fenced rec q uses gone same) = absurd uses
told limit lasts e le (refused q x sound foreign tells same) = (inr foreign, same)
told limit lasts e le (unanswered q reply x sound foreign tells st) =
    (inr foreign, (told limit lasts e le st).1)

-- On every backend that keeps the contract: after a successful Acquire, Renew or Checkpoint of a
-- work ID, and whatever others call before the TTL has passed on the backend's clock, the lease is
-- still the same, and an Acquire of the work ID by anyone is told that the lease is held, or gets an
-- error from outside the contract. It changes no lease.
pub contract_excludes :
    (w other : String) (ttl ttl' : Duration) (now later : Setting) (s t u v : Leases) (k : Term)
    (q : Request) (answer reply : Reply)
    → Step now s t q answer
    → Secures w ttl q answer
    → t.term w ≡ some k
    → OthersUntil w k (now.stamp +ℤ ttl) t u
    → later.check ≤ℤ now.stamp +ℤ ttl
    → Step later u v (acquires w other ttl') reply
    → (u.term w ≡ some k) × IsHeld reply × Unchanged u v
contract_excludes w other ttl ttl' now later s t u v k q answer reply first secures e others le st =
    let (x, same) = told (now.stamp +ℤ ttl) lasts held le st in (held, x, same)
  where
    lasts : now.stamp +ℤ ttl ≤ℤ k.expires_at
    lasts = secured_lasts ttl first secures e

    held : u.term w ≡ some k
    held = OthersUntil-keeps w k (now.stamp +ℤ ttl) lasts e others
