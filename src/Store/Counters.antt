-- ===== src/Store/Counters.antt =====
-- Neither the processing of an event by src/store.c nor an attempt at a transaction counts an event
-- as lost.
use simplepool.Prelude.{
  ℕ, zero, suc, ◌+◌, ◌≡◌, refl, ◌∙◌, Bool, true, false, not, ◌&&◌, Option, none, some, List, [],
  ◌∷◌, if◌then◌else◌, ◌==◌,
}
use simplepool.Prelude.Int.{ℤ, pos, ltb_ℤ}
use simplepool.Double.{DoubleOps}
use simplepool.Store.{Kind, Event, Stats}
use simplepool.Store.Process.{
  DbOps, Desk, count_error, resolve_worker_id, count_step, process_share, process_credit,
  process_reject, count_block, process_block, finder_of, resolved, process_kind, process_event,
  cache_lookup, store_block_rejected,
}
use simplepool.Store.Writer.{
  Attempt, process_all, count_batch, attempt_once, attempts_from, commit_batch,
  store_commit_attempts,
}

module _ {fl : DoubleOps} {dbs : DbOps fl} where
  abbrev lost : Desk fl dbs → ℕ
  lost d = d.stats.events_lost

  -- Of two desks that a test chooses from, both count the same.
  if-lost :
      (b : Bool) (x y : Desk fl dbs) (n : ℕ)
      → lost x ≡ n
      → lost y ≡ n
      → lost (if b then x else y) ≡ n
  if-lost true x y n p q = p
  if-lost false x y n p q = q

  if-result_lost :
      (b : Bool) (x y : ℤ × Desk fl dbs) (n : ℕ)
      → lost x.1 ≡ n
      → lost y.1 ≡ n
      → lost (if b then x else y).1 ≡ n
  if-result_lost true x y n p q = p
  if-result_lost false x y n p q = q

  count_step-lost :
      (counted : Stats → Stats) (d : Desk fl dbs) (r : Bool × dbs.Db)
      → ((t : Stats) → (counted t).events_lost ≡ t.events_lost)
      → lost (count_step counted d r) ≡ lost d
  unfolding count_step count_error
  count_step-lost counted d (false, db) keeps = refl
  count_step-lost counted d (true, db) keeps = keeps d.stats

  count_block-lost :
      (ev : Event fl) (d : Desk fl dbs) (r : Option Bool × dbs.Db)
      → lost (count_block ev d r) ≡ lost d
  unfolding count_block count_error
  count_block-lost ev d (none, db) = refl
  count_block-lost ev d (some changed, db) =
      if-lost (changed && not (ev.block_status == store_block_rejected)) _ _ (lost d) refl refl

  resolved-lost :
      (name : List ℕ) (known : ℤ) (row : Option ℤ) (d : Desk fl dbs)
      → lost (resolved name known row d).1 ≡ lost d
  unfolding resolved count_error
  resolved-lost name known none d =
      if-result_lost (not (ltb_ℤ known (pos 0))) _ _ (lost d) refl refl
  resolved-lost name known (some id) d =
      if-lost (not (ltb_ℤ id (pos 0)) && ltb_ℤ known (pos 0)) _ _ (lost d) refl refl

  resolve_worker_id-lost :
      (name payout_address : List ℕ) (ts_ms : ℕ) (d : Desk fl dbs)
      → lost (resolve_worker_id name payout_address ts_ms d).1 ≡ lost d
  unfolding resolve_worker_id
  resolve_worker_id-lost name payout_address ts_ms d =
      resolved-lost name (cache_lookup d.cache name) _ _

  process_share-lost : (ev : Event fl) (r : ℤ × Desk fl dbs) → lost (process_share ev r) ≡ lost r.1
  unfolding process_share count_error
  process_share-lost ev (wid, d) =
      if-lost (ltb_ℤ wid (pos 0)) _ _ (lost d) refl (count_step-lost _ d _ (λ t. refl))

  process_credit-lost :
      (ev : Event fl) (r : ℤ × Desk fl dbs) → lost (process_credit ev r) ≡ lost r.1
  unfolding process_credit count_error
  process_credit-lost ev (wid, d) =
      if-lost (ltb_ℤ wid (pos 0)) _ _ (lost d) refl (count_step-lost _ d _ (λ t. refl))

  process_block-lost : (ev : Event fl) (r : ℤ × Desk fl dbs) → lost (process_block ev r) ≡ lost r.1
  unfolding process_block
  process_block-lost ev (wid, d) = count_block-lost ev d _

  finder_of-lost :
      (name : List ℕ) (ev : Event fl) (d : Desk fl dbs) → lost (finder_of name ev d).1 ≡ lost d
  unfolding finder_of
  finder_of-lost [] ev d = refl
  finder_of-lost (c ∷ cs) ev d = resolve_worker_id-lost (c ∷ cs) ev.payout_address ev.ts_ms d

  process_kind-lost :
      (kind : Kind) (ev : Event fl) (d : Desk fl dbs) → lost (process_kind kind ev d) ≡ lost d
  unfolding process_kind process_reject
  process_kind-lost Kind.share ev d =
      process_share-lost ev _ ∙ resolve_worker_id-lost ev.worker_name ev.payout_address ev.ts_ms d
  process_kind-lost Kind.reject ev d = count_step-lost _ d _ (λ t. refl)
  process_kind-lost Kind.block ev d = process_block-lost ev _ ∙ finder_of-lost ev.worker_name ev d
  process_kind-lost Kind.credit ev d =
      process_credit-lost ev _ ∙ resolve_worker_id-lost ev.worker_name ev.payout_address ev.ts_ms d

  process_event-lost : (ev : Event fl) (d : Desk fl dbs) → lost (process_event ev d) ≡ lost d
  unfolding process_event
  process_event-lost ev d = process_kind-lost ev.kind ev d

  process_all-lost : (evs : List (Event fl)) (d : Desk fl dbs) → lost (process_all evs d) ≡ lost d
  unfolding process_all
  process_all-lost [] d = refl
  process_all-lost (ev ∷ evs) d =
      process_all-lost evs (process_event ev d) ∙ process_event-lost ev d

  attempt_once-lost :
      (a : Attempt dbs.Db) (batch : List (Event fl)) (d : Desk fl dbs)
      (next : Desk fl dbs → Bool × Desk fl dbs)
      → ((e : Desk fl dbs) → lost (next e).1 ≡ lost e)
      → lost (attempt_once a batch d next).1 ≡ lost d
  unfolding attempt_once count_error count_batch
  attempt_once-lost Attempt.begin_failed batch d next keeps = keeps (count_error d)
  attempt_once-lost (Attempt.commit_failed left) batch d next keeps =
      keeps (count_error (record (process_all batch d) { db = left d.db (process_all batch d).db }))
      ∙ process_all-lost batch d
  attempt_once-lost Attempt.committed batch d next keeps = process_all-lost batch d

  attempts_from-lost :
      (answer : ℕ → Attempt dbs.Db) (n attempt : ℕ) (batch : List (Event fl)) (d : Desk fl dbs)
      → lost (attempts_from answer n attempt batch d).1 ≡ lost d
  unfolding attempts_from
  attempts_from-lost answer zero attempt batch d = refl
  attempts_from-lost answer (suc n) attempt batch d =
      attempt_once-lost (answer attempt) batch d (attempts_from answer n (attempt + 1) batch)
        (attempts_from-lost answer n (attempt + 1) batch)

  pub commit_batch-lost :
      (answer : ℕ → Attempt dbs.Db) (batch : List (Event fl)) (d : Desk fl dbs)
      → (commit_batch answer batch d).1.stats.events_lost ≡ d.stats.events_lost
  unfolding commit_batch
  commit_batch-lost answer batch d = attempts_from-lost answer store_commit_attempts 1 batch d
