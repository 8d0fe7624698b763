-- ===== src/Store/Atomic.antt =====
-- A batch of `commit_batch` of src/store.c, over its attempts.
use simplepool.Prelude.{
  ℕ, zero, suc, ◌+◌, ◌<◌, ◌≡◌, refl, sym, subst, arith, ◌∙◌, Bool, true, false, ◌||◌, List,
}
use simplepool.Double.{DoubleOps}
use simplepool.Store.{Event}
use simplepool.Store.Process.{DbOps, Desk, count_error}
use simplepool.Store.Writer.{
  Attempt, store_commit_attempts, process_all, count_batch, attempt_once, attempts_from,
  commit_batch,
}

module _ {Db : Type 0} where
  abbrev pub is_committed : Attempt Db → Bool
  is_committed Attempt.committed = true
  is_committed Attempt.begin_failed = false
  is_committed (Attempt.commit_failed left) = false

  -- Some attempt of `n` from `attempt` on is committed.
  abbrev pub any_committed : (ℕ → Attempt Db) → ℕ → ℕ → Bool
  any_committed answer zero attempt = false
  any_committed answer (suc n) attempt =
      is_committed (answer attempt) || any_committed answer n (attempt + 1)

  -- A COMMIT that fails has its transaction still open at the ROLLBACK, which undoes it.
  abbrev pub Undone : Attempt Db → Type 0
  Undone Attempt.committed = Unit {0}
  Undone Attempt.begin_failed = Unit {0}
  Undone (Attempt.commit_failed left) = (before after : Db) → left before after ≡ before

module _ {fl : DoubleOps} {dbs : DbOps fl} where
  -- What `k` failed attempts at a batch make of the writer's state: each counts an error, and one
  -- that got as far as its COMMIT has run the events, of which the database alone is put back.
  pub data Retried (batch : List (Event fl)) (before : Desk fl dbs) : ℕ → Desk fl dbs → Type 0 where
    untried : Retried batch before 0 before
    not_begun :
        {k : ℕ} {e : Desk fl dbs}
        → Retried batch before k e
        → Retried batch before (k + 1) (count_error e)
    undone :
        {k : ℕ} {e : Desk fl dbs}
        → Retried batch before k e
        → Retried batch before
            (k + 1)
            (count_error (record (process_all batch e) { db = before.db }))

  -- The events have gone through the database that was there before, once, in an attempt of the
  -- first `n`, or the database is as it was after `n` that failed.
  abbrev pub Once : Desk fl dbs → List (Event fl) → ℕ → Bool × Desk fl dbs → Type 0
  Once before batch n (true, d) =
      (k : ℕ) × (e : Desk fl dbs) × (k < n)
      × Retried batch before k e
      × (e.db ≡ before.db)
      × (d ≡ count_batch (process_all batch e))
  Once before batch n (false, d) = Retried batch before n d × (d.db ≡ before.db)

  put_back :
      (batch : List (Event fl)) (before e : Desk fl dbs) (left : dbs.Db → dbs.Db → dbs.Db) (k : ℕ)
      → Undone (Attempt.commit_failed left)
      → e.db ≡ before.db
      → Retried batch before k e
      → let tried = process_all batch e in
        Retried batch before (k + 1) (count_error (record tried { db = left e.db tried.db }))
  put_back batch before e left k same there r =
      let tried = process_all batch e in
      subst (λ x. Retried batch before (k + 1) (count_error (record tried { db = x })))
        (sym (same e.db tried.db ∙ there)) (Retried.undone r)

  attempt_once-Once :
      (a : Attempt dbs.Db) (k total : ℕ) (batch : List (Event fl)) (before d : Desk fl dbs)
      (next : Desk fl dbs → Bool × Desk fl dbs) (later : Bool)
      → Undone a
      → k < total
      → Retried batch before k d
      → d.db ≡ before.db
      → ((e : Desk fl dbs)
          → Retried batch before (k + 1) e
          → e.db ≡ before.db
          → Once before batch total (next e) × ((next e).0 ≡ later))
      → Once before batch total (attempt_once a batch d next)
        × ((attempt_once a batch d next).0 ≡ (is_committed a || later))
  unfolding attempt_once count_error
  attempt_once-Once Attempt.begin_failed k total batch before d next later u h r e rest =
      rest _ (Retried.not_begun r) e
  attempt_once-Once (Attempt.commit_failed left) k total batch before d next later u h r e rest =
      rest _ (put_back batch before d left k u e r) (u d.db (process_all batch d).db ∙ e)
  attempt_once-Once Attempt.committed k total batch before d next later u h r e rest =
      ((k, d, h, r, e, refl), refl)

  attempts_from-Once :
      (answer : ℕ → Attempt dbs.Db) (n attempt k total : ℕ) (batch : List (Event fl))
      (before d : Desk fl dbs)
      → ((i : ℕ) → Undone (answer i))
      → k + n ≡ total
      → Retried batch before k d
      → d.db ≡ before.db
      → Once before batch total (attempts_from answer n attempt batch d)
        × ((attempts_from answer n attempt batch d).0 ≡ any_committed answer n attempt)
  unfolding attempts_from
  attempts_from-Once answer zero attempt k total batch before d undo sum r e =
      ((subst (λ m. Retried batch before m d) (omega arith) r, e), refl)
  attempts_from-Once answer (suc n) attempt k total batch before d undo sum r e =
      attempt_once-Once (answer attempt) k total batch before d
        (attempts_from answer n (attempt + 1) batch) (any_committed answer n (attempt + 1))
        (undo attempt) (omega arith) r e
        (λ c again there.
          attempts_from-Once answer n (attempt + 1) (k + 1) total batch before c undo (omega arith)
            again there)

  -- Where the ROLLBACK after each failed COMMIT undoes its transaction, a batch goes through the
  -- database once or not at all, over all attempts together. On success the state is the one that
  -- the events make of the database before, in one of the first three attempts, after as many that
  -- failed; on failure three have failed and the database is the one before. What a failed attempt
  -- did to the cache of workers and to the counters stays. It is a success when one of the first
  -- three attempts is committed.
  pub commit_batch-Once :
      (answer : ℕ → Attempt dbs.Db) (batch : List (Event fl)) (d : Desk fl dbs)
      → ((k : ℕ) → Undone (answer k))
      → Once d batch store_commit_attempts (commit_batch answer batch d)
        × ((commit_batch answer batch d).0 ≡ any_committed answer store_commit_attempts 1)
  unfolding commit_batch
  commit_batch-Once answer batch d undo =
      attempts_from-Once answer store_commit_attempts 1 0 store_commit_attempts batch d d undo
        (omega arith) Retried.untried refl
