-- ===== src/Contract/History.antt =====
-- What no step of the contract does: an old token never comes back. A lease whose token had been
-- issued before a step was there before it, with the same holder.
use worklease.Base.{
  ◌≤◌, ◌<◌, ◌≡◌, refl, ◌⊎◌, inl, inr, Option, none, some, String, arith, eq_iff, str_eq, Bool-cases,
  ◌∙◌, sym,
}
use worklease.Backend.{Time, Duration, SweepOptions}
use worklease.Contract.{
  Term, Leases, Request, Reply, Setting, Unchanged, Puts, Step, grants, finds_held, saves,
  saves_too_late, extends, extends_too_late, exits, exits_too_late, exits_wrongly, recalls,
  recalls_nothing, drops, clears, is_fenced, refused, unanswered, Reach, here, next, SweptAway,
}

-- What a change of one work ID leaves at another.
pub Puts-at :
    {s s' : Leases} {w : String} {o : Option Term} (j : String)
    → Puts s s' w o
    → ((j ≡ w) × (s'.term j ≡ o)) ⊎ (s'.term j ≡ s.term j)
Puts-at {w} j h = elim (Bool-cases (str_eq j w)) [
  | inl hit ↦ let e = (eq_iff j w).0 hit in inl (e, rw e h.put)
  | inr miss ↦ inr (h.rest j (λ e. cc (miss, (eq_iff j w).1 e)))
]

pub record KeepsOld (s s' : Leases) : Type 0 where
  pub grows : s.issued ≤ s'.issued
  pub was_there :
      (w : String) (r' : Term)
      → s'.term w ≡ some r'
      → r'.fencing_token ≤ s.issued
      → (r : Term) × (s.term w ≡ some r)
        × (r.holder_id ≡ r'.holder_id)
        × (r.fencing_token ≡ r'.fencing_token)

pub Unchanged-KeepsOld : {s s' : Leases} → Unchanged s s' → KeepsOld s s'
Unchanged-KeepsOld h = record {
  grows = h.grows;
  was_there = λ w r e le. (r, sym (h.same w) ∙ e, refl, refl);
}

-- The last lease of a work ID keeps its holder and its token.
Puts-KeepsOld :
    {s s' : Leases} (w : String) (r k : Term)
    → s.term w ≡ some r
    → k.holder_id ≡ r.holder_id
    → k.fencing_token ≡ r.fencing_token
    → Puts s s' w (some k)
    → KeepsOld s s'
Puts-KeepsOld w r k found holder token h = record {
  grows = h.grows;
  was_there = λ j q e le. elim (Puts-at j h) [
    | inl (here', put) ↦ (r, rw here' found, ground arith, ground arith)
    | inr rest ↦ (q, sym rest ∙ e, refl, refl)
  ];
}

grants-KeepsOld :
    {s s' : Leases} (w : String) (k : Term)
    → s.issued < k.fencing_token
    → Puts s s' w (some k)
    → KeepsOld s s'
grants-KeepsOld w k fresh h = record {
  grows = h.grows;
  was_there = λ j q e le. elim (Puts-at j h) [
    | inl (here', put) ↦ absurd (ground arith)
    | inr rest ↦ (q, sym rest ∙ e, refl, refl)
  ];
}

drops-KeepsOld : {s s' : Leases} (w : String) → Puts s s' w none → KeepsOld s s'
drops-KeepsOld w h = record {
  grows = h.grows;
  was_there = λ j q e le. elim (Puts-at j h) [
    | inl (here', put) ↦ absurd (ground arith)
    | inr rest ↦ (q, sym rest ∙ e, refl, refl)
  ];
}

pub swept_from :
    (now : Time) (cutoff : Duration) (opts : SweepOptions) (o o' : Option Term) (q : Term)
    → SweptAway now cutoff opts o o'
    → o' ≡ some q
    → o ≡ some q
swept_from now cutoff opts none o' q h e = cc
swept_from now cutoff opts (some r) o' q h e = ground arith

pub Step-KeepsOld :
    {now : Setting} {s s' : Leases} {q : Request} {reply : Reply}
    → Step now s s' q reply
    → KeepsOld s s'
Step-KeepsOld (grants w h ttl k lease free inherits holder exit lasts fresh last put named) =
    grants-KeepsOld w k fresh put
Step-KeepsOld (finds_held w h ttl r found live same) = Unchanged-KeepsOld same
Step-KeepsOld (saves rec state ttl r e (found, holder, token) none_yet lasts put) =
    Puts-KeepsOld rec.work_id r _ found refl refl put
Step-KeepsOld (saves_too_late rec state ttl r held exit same) = Unchanged-KeepsOld same
Step-KeepsOld (extends rec ttl r e (found, holder, token) live lasts put) =
    Puts-KeepsOld rec.work_id r _ found refl refl put
Step-KeepsOld (extends_too_late rec ttl r held late same) = Unchanged-KeepsOld same
Step-KeepsOld (exits rec mode r e valid (found, holder, token) live ends put) =
    Puts-KeepsOld rec.work_id r _ found refl refl put
Step-KeepsOld (exits_too_late rec mode r valid held late same) = Unchanged-KeepsOld same
Step-KeepsOld (exits_wrongly rec mode invalid same) = Unchanged-KeepsOld same
Step-KeepsOld (recalls rec r found token same) = Unchanged-KeepsOld same
Step-KeepsOld (recalls_nothing rec gone same) = Unchanged-KeepsOld same
Step-KeepsOld (drops rec r held put) = drops-KeepsOld rec.work_id put
Step-KeepsOld {now} {s} {s'} (clears opts cutoff n low high swept' counts grows) = record {
  grows = grows;
  was_there = λ w q e le.
      (q, swept_from now.check cutoff opts (s.term w) (s'.term w) q (swept' w) e, refl, refl);
}
Step-KeepsOld (is_fenced rec q uses gone same) = Unchanged-KeepsOld same
Step-KeepsOld (refused q e sound foreign tells same) = Unchanged-KeepsOld same
Step-KeepsOld (unanswered q reply e sound foreign tells st) = Step-KeepsOld st

KeepsOld-next : {s t u : Leases} → KeepsOld s t → KeepsOld t u → KeepsOld s u
KeepsOld-next h k = record {
  grows = omega (arith, h.grows, k.grows);
  was_there = λ w r'' e le.
      let (r', e', holder', token') = k.was_there w r'' e (omega (arith, h.grows)) in
      let (r, e, holder, token) = h.was_there w r' e' (omega arith) in
      (r, e, holder ∙ holder', token ∙ token');
}

-- Under the contract an old token never comes back: after any calls, a lease whose token had been
-- issued before them was there before them, for the same work ID and with the same holder.
pub Reach-KeepsOld : {s s' : Leases} → Reach s s' → KeepsOld s s'
Reach-KeepsOld here = Unchanged-KeepsOld (record { same = λ w. refl; grows = omega arith })
Reach-KeepsOld (next now q reply before st) =
    KeepsOld-next (Reach-KeepsOld before) (Step-KeepsOld st)
