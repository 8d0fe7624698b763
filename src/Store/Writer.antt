-- ===== src/Store/Writer.antt =====
-- `commit_batch` and `writer_main` of src/store.c. SQLite's answer to each attempt at a transaction
-- is a parameter; the waits and the backoff between attempts are left out, and so is what others may
-- write to the database in between. A rollback can restore the database and nothing else.
use simplepool.Prelude.{
  ℕ, zero, suc, ◌+◌, ◌-◌, ◌%◌, ◌^◌, Bool, true, false, Option, none, some, List, [], ◌∷◌, ltb, ◌==◌,
  if◌then◌else◌, length,
}
use simplepool.Double.{DoubleOps}
use simplepool.Store.{Event, Queue, Stats, add_u64}
use simplepool.Store.Process.{DbOps, Desk, count_error, process_event}

-- STORE_COMMIT_ATTEMPTS
abbrev pub store_commit_attempts : ℕ
store_commit_attempts = 3

-- How SQLite answers one attempt: BEGIN fails, COMMIT fails, or both succeed. A failed COMMIT has
-- what it and the ROLLBACK after it leave, from the database before BEGIN and the one that the
-- statements have made: the former where the transaction is still open at the ROLLBACK, and
-- anything else where SQLite has rolled it back by itself and gone on without one.
pub data Attempt (Db : Type 0) : Type 0 where
  begin_failed : Attempt Db
  commit_failed : (Db → Db → Db) → Attempt Db
  committed : Attempt Db

module _ {fl : DoubleOps} {dbs : DbOps fl} where
  unfoldable pub process_all : List (Event fl) → Desk fl dbs → Desk fl dbs
  process_all [] d = d
  process_all (ev ∷ evs) d = process_all evs (process_event ev d)

  unfoldable pub count_batch : Desk fl dbs → Desk fl dbs
  count_batch d = record d { stats = record d.stats { batches = add_u64 d.stats.batches 1 } }

  -- One attempt, and the next one where it fails.
  unfoldable pub attempt_once :
      Attempt dbs.Db
      → List (Event fl)
      → Desk fl dbs
      → (Desk fl dbs → Bool × Desk fl dbs)
      → Bool × Desk fl dbs
  attempt_once begin_failed batch d next = next (count_error d)
  attempt_once (commit_failed left) batch d next =
      let tried = process_all batch d in
      next (count_error (record tried { db = left d.db tried.db }))
  attempt_once committed batch d next = (true, count_batch (process_all batch d))

  -- The attempts from `attempt` on, of which `n` are left.
  unfoldable pub attempts_from :
      (ℕ → Attempt dbs.Db) → ℕ → ℕ → List (Event fl) → Desk fl dbs → Bool × Desk fl dbs
  attempts_from answer zero attempt batch d = (false, d)
  attempts_from answer (suc n) attempt batch d =
      attempt_once (answer attempt) batch d (attempts_from answer n (attempt + 1) batch)

  unfoldable pub commit_batch :
      (ℕ → Attempt dbs.Db) → List (Event fl) → Desk fl dbs → Bool × Desk fl dbs
  commit_batch answer batch d = attempts_from answer store_commit_attempts 1 batch d

module _ {ℓ} {A : Type ℓ} where
  -- The loop that copies `n` events out of the ring, and the tail behind them.
  unfoldable pub drain : (ℕ → A) → ℕ → ℕ → ℕ → List A × ℕ
  drain ring cap tail zero = ([], tail)
  drain ring cap tail (suc n) =
      let (batch, tail') = drain ring cap ((tail + 1) % cap) n in (ring tail ∷ batch, tail')

  unfoldable pub take_batch : ℕ → Queue A → List A × Queue A
  take_batch take q =
      let (batch, tail) = drain q.ring q.ring_cap q.ring_tail take in
      (batch, record q { ring_tail = tail; ring_count = q.ring_count - take })

  -- `take`, of which `commit_max_shares` is the most.
  unfoldable pub batch_size : ℕ → Queue A → ℕ
  batch_size commit_max_shares q =
      if ltb commit_max_shares q.ring_count then commit_max_shares else q.ring_count

  -- `seq_after`
  unfoldable pub sequence_after : Queue A → ℕ
  sequence_after q = (q.enqueue_seq + 2 ^ 64 - q.ring_count) % 2 ^ 64

-- The end of a round: a batch that was not committed is counted as lost.
unfoldable pub count_lost : Bool → ℕ → Stats → Stats
count_lost true take t = t
count_lost false take t = record t { events_lost = add_u64 t.events_lost take }

pub record Store (fl : DoubleOps) (dbs : DbOps fl) : Type 0 where
  pub queue : Queue (Event fl)
  pub desk : Desk fl dbs

module _ {fl : DoubleOps} {dbs : DbOps fl} where
  -- What follows the transaction, with `mu` held again.
  unfoldable pub finish_round :
      List (Event fl) → ℕ → Queue (Event fl) → Bool × Desk fl dbs → Store fl dbs
  finish_round batch seq_after q (done, d) = record {
    queue = record q { committed_seq = seq_after };
    desk = record d { stats = count_lost done (length batch) d.stats };
  }

module _ {fl : DoubleOps} {dbs : DbOps fl} (commit_max_shares : ℕ) where
  unfoldable pub writer_round : (ℕ → Attempt dbs.Db) → Store fl dbs → Store fl dbs
  writer_round answer s =
      let (batch, q) = take_batch (batch_size commit_max_shares s.queue) s.queue in
      finish_round batch (sequence_after q) q (commit_batch answer batch s.desk)

  -- The loop of `writer_main` once `stop` is set and no producer X  -- goes on after the rounds of the fuel. `commit_max_shares` is positive: `store_open` sees to it.
  unfoldable pub writer_main : ℕ → (ℕ → ℕ → Attempt dbs.Db) → Store fl dbs → Option (Store fl dbs)
  writer_main zero answers s = none
  writer_main (suc n) answers s =
      let rest = writer_main n (λ i. answers (i + 1)) (writer_round (answers 0) s) in
      if s.queue.ring_count == 0 then some s else rest
