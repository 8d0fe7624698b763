-- ===== src/Store/Steps.antt =====
-- The store of src/store.c as its threads change it: producers record events while the writer thread
-- takes a batch out of the ring and, without `mu`, brings it into the database.
use simplepool.Prelude.{ℕ, ◌≡◌, ◌≢◌, Bool, true, false, Option, none, some, List, [], ◌∷◌, ◌++◌}
use simplepool.Prelude.Int.{pos}
use simplepool.Double.{DoubleOps}
use simplepool.Store.Asked.{event_of}
use simplepool.Store.{Kind, Event, Request, Intake, zeroed, store_record}
use simplepool.Store.Process.{DbOps}
use simplepool.Store.Writer.{
  Attempt, Store, commit_batch, batch_size, take_batch, sequence_after, finish_round,
}

-- What the writer thread does: it waits for events, or it commits a batch that is no longer in the
-- ring, with the sequence number behind it.
pub data Phase (fl : DoubleOps) : Type 0 where
  waiting : Phase fl
  committing : List (Event fl) → ℕ → Phase fl

-- A batch that the writer is done with, and whether the database took it.
pub record Batch (fl : DoubleOps) : Type 0 where
  pub events : List (Event fl)
  pub done : Bool

-- The store, with the history of its events: those that a producer was told are accepted, and the
-- batches, oldest first.
pub record System (fl : DoubleOps) (dbs : DbOps fl) : Type 0 where
  pub store : Store fl dbs
  pub phase : Phase fl
  pub accepted : List (Event fl)
  pub settled : List (Batch fl)

module _ {A : Type 0} where
  abbrev pub listed : Option A → List A
  listed none = []
  listed (some x) = x ∷ []

module _ {fl : DoubleOps} {dbs : DbOps fl} where
  -- What `store_open` leaves.
  abbrev pub opened : ℕ → dbs.Db → System fl dbs
  opened ring_cap db = record {
    store = record {
      queue = record {
        ring = λ _. zeroed fl Kind.share 0;
        ring_cap = ring_cap;
        ring_head = 0;
        ring_tail = 0;
        ring_count = 0;
        enqueue_seq = 0;
        committed_seq = 0;
      };
      desk = record {
        db = db;
        cache = λ _. record { name = []; id = pos 0; used = false };
        stats = record {
          shares_queued = 0;
          shares_committed = 0;
          shares_dropped = 0;
          rejects_queued = 0;
          rejects_committed = 0;
          blocks_committed = 0;
          credits_committed = 0;
          batches = 0;
          pg_errors = 0;
          events_lost = 0;
        };
      };
    };
    phase = Phase.waiting;
    accepted = [];
    settled = [];
  }

  abbrev pub with_intake : System fl dbs → Intake fl → List (Event fl) → System fl dbs
  with_intake s i accepted = record s {
    store = record { queue = i.queue; desk = record s.store.desk { stats = i.stats } };
    accepted = accepted;
  }

  -- A producer's call with the event that it asks to keep; where it returns 0, that event is
  -- accepted.
  abbrev pub after_call : Option (Event fl) → System fl dbs → Bool × Intake fl → System fl dbs
  after_call e s (false, i) = with_intake s i s.accepted
  after_call e s (true, i) = with_intake s i (s.accepted ++ listed e)

  abbrev pub after_record : Request fl → System fl dbs → System fl dbs
  after_record r s =
      after_call (event_of r) s
        (store_record r (record { queue = s.store.queue; stats = s.store.desk.stats }))

  abbrev pub after_take : ℕ → System fl dbs → System fl dbs
  after_take commit_max_shares s =
      let (batch, q) = take_batch (batch_size commit_max_shares s.store.queue) s.store.queue in
      record s {
        store = record s.store { queue = q };
        phase = Phase.committing batch (sequence_after q);
      }

  abbrev pub after_commit :
      (ℕ → Attempt dbs.Db) → List (Event fl) → ℕ → System fl dbs → System fl dbs
  after_commit answer batch seq_after s =
      let result = commit_batch answer batch s.store.desk in
      record s {
        store = finish_round batch seq_after s.store.queue result;
        phase = Phase.waiting;
        settled = s.settled ++ (record { events = batch; done = result.0 } ∷ []);
      }

  pub data Step (commit_max_shares : ℕ) (s : System fl dbs) : System fl dbs → Type 0 where
    call : (r : Request fl) → Step commit_max_shares s (after_record r s)
    take :
        s.phase ≡ Phase.waiting
        → s.store.queue.ring_count ≢ 0
        → Step commit_max_shares s (after_take commit_max_shares s)
    commit :
        {batch : List (Event fl)} {seq_after : ℕ}
        → s.phase ≡ Phase.committing batch seq_after
        → (answer : ℕ → Attempt dbs.Db)
        → Step commit_max_shares s (after_commit answer batch seq_after s)

  pub data Reach (ring_cap commit_max_shares : ℕ) (db : dbs.Db) : System fl dbs → Type 0 where
    start : Reach ring_cap commit_max_shares db (opened ring_cap db)
    later :
        {s t : System fl dbs}
        → Reach ring_cap commit_max_shares db s
        → Step commit_max_shares s t
        → Reach ring_cap commit_max_shares db t
