-- ===== src/Store/Process.antt =====
-- `name_hash`, `cache_lookup`, `cache_insert`, `resolve_worker_id` and `process_event` of
-- src/store.c, over the database as an interface: one operation for each prepared statement.
use Prim.Native.Nat.{bit_xor}
use simplepool.Prelude.{
  ℕ, zero, suc, ◌+◌, ◌-◌, ◌*◌, ◌/◌, ◌%◌, ◌^◌, Bool, true, false, not, ◌&&◌, Option, none, some,
  List, [], ◌∷◌, ◌==◌, if◌then◌else◌, take,
}
use simplepool.Prelude.Int.{ℤ, pos, negsuc, ltb_ℤ}
use simplepool.Prelude.Text.{codes, same_text}
use simplepool.Double.{DoubleOps}
use simplepool.Store.{Kind, Event, Stats, add_u64, ring_write, worker_name_max}

-- A statement that ends in SQLITE_DONE is `true`. The upsert of a worker gives the id of its row;
-- the insert of a block gives whether it changed a row, and `none` where it failed.
pub record DbOps (fl : DoubleOps) : Type 1 where
  pub Db : Type 0
  pub upsert_worker : List ℕ → ℕ → Option (List ℕ) → Db → Option ℤ × Db
  pub insert_share : ℤ → ℕ → fl.Double → ℤ → Option (List ℕ) → ℤ → fl.Double → Db → Bool × Db
  pub insert_reject : Option (List ℕ) → ℕ → List ℕ → Db → Bool × Db
  pub insert_block :
      ℕ
      → ℤ
      → List ℕ
      → Option ℤ
      → Option (List ℕ)
      → Option ℤ
      → Option ℤ
      → List ℕ
      → Option (List ℕ)
      → fl.Double
      → Db
      → Option Bool × Db
  pub upsert_credit : ℤ → ℤ → ℕ → Db → Bool × Db

-- WORKER_CACHE_SLOTS
abbrev pub worker_cache_slots : ℕ
worker_cache_slots = 16384

-- STORE_BLOCK_CONFIRMED, STORE_BLOCK_ORPHANED and STORE_BLOCK_REJECTED
abbrev pub store_block_confirmed : ℕ
store_block_confirmed = 1

abbrev pub store_block_orphaned : ℕ
store_block_orphaned = 2

abbrev pub store_block_rejected : ℕ
store_block_rejected = 3

unfoldable pub store_block_status_text : ℕ → List ℕ
store_block_status_text status =
    if status == store_block_confirmed
    then codes "confirmed"
    else if status == store_block_orphaned
    then codes "orphaned"
    else if status == store_block_rejected
    then codes "rejected"
    else codes "pending"

-- `worker_slot_t`
pub record WorkerSlot : Type 0 where
  pub name : List ℕ
  pub id : ℤ
  pub used : Bool

unfoldable pub name_hash_from : ℕ → List ℕ → ℕ
name_hash_from h [] = h
name_hash_from h (c ∷ cs) = name_hash_from (bit_xor h c * 16777619 % 2 ^ 32) cs

unfoldable pub name_hash : List ℕ → ℕ
name_hash s = name_hash_from 2166136261 s

abbrev pub home_slot : List ℕ → ℕ
home_slot name = name_hash name % worker_cache_slots

-- `strncmp` over WORKER_NAME_MAX characters
unfoldable pub same_name : List ℕ → List ℕ → Bool
same_name a b = same_text (take worker_name_max a) (take worker_name_max b)

-- The slots from the `i`th of the probe on; -1 stands for a name that is not there.
unfoldable pub lookup_from : ℕ → ℕ → (ℕ → WorkerSlot) → ℕ → List ℕ → ℤ
lookup_from zero i cache h name = negsuc 0
lookup_from (suc n) i cache h name =
    let slot = cache ((h + i) % worker_cache_slots) in
    let rest = lookup_from n (i + 1) cache h name in
    if not slot.used then negsuc 0 else if same_name slot.name name then slot.id else rest

unfoldable pub cache_lookup : (ℕ → WorkerSlot) → List ℕ → ℤ
cache_lookup cache name = lookup_from worker_cache_slots 0 cache (home_slot name) name

unfoldable pub insert_from : ℕ → ℕ → (ℕ → WorkerSlot) → ℕ → List ℕ → ℤ → ℕ → WorkerSlot
insert_from zero i cache h name id = cache
insert_from (suc n) i cache h name id =
    let idx = (h + i) % worker_cache_slots in
    let slot = cache idx in
    let rest = insert_from n (i + 1) cache h name id in
    if not slot.used
    then ring_write cache idx
        (record { name = take (worker_name_max - 1) name; id = id; used = true })
    else if same_name slot.name name
    then ring_write cache idx (record slot { id = id })
    else rest

unfoldable pub cache_insert : (ℕ → WorkerSlot) → List ℕ → ℤ → ℕ → WorkerSlot
cache_insert cache name id = insert_from worker_cache_slots 0 cache (home_slot name) name id

-- What the writer thread changes: the database, the cache of worker ids and the counters.
pub record Desk (fl : DoubleOps) (dbs : DbOps fl) : Type 0 where
  pub db : dbs.Db
  pub cache : ℕ → WorkerSlot
  pub stats : Stats

-- A text that is bound as NULL where it is empty, and an amount where it is not positive.
unfoldable pub or_null : List ℕ → Option (List ℕ)
or_null [] = none
or_null (c ∷ cs) = some (c ∷ cs)

unfoldable pub positive_or_null : ℤ → Option ℤ
positive_or_null z = if ltb_ℤ (pos 0) z then some z else none

unfoldable pub id_or_null : ℤ → Option ℤ
id_or_null id = if ltb_ℤ id (pos 0) then none else some id

module _ {fl : DoubleOps} {dbs : DbOps fl} where
  unfoldable pub count_error : Desk fl dbs → Desk fl dbs
  count_error d = record d { stats = record d.stats { pg_errors = add_u64 d.stats.pg_errors 1 } }

  -- The id after the upsert, from the one of the cache and from the row.
  unfoldable pub resolved : List ℕ → ℤ → Option ℤ → Desk fl dbs → ℤ × Desk fl dbs
  resolved name known none d =
      if not (ltb_ℤ known (pos 0)) then (known, d) else (negsuc 0, count_error d)
  resolved name known (some id) d = (
    id,
    if not (ltb_ℤ id (pos 0)) && ltb_ℤ known (pos 0)
        then record d { cache = cache_insert d.cache name id }
        else d,
  )

  unfoldable pub resolve_worker_id : List ℕ → List ℕ → ℕ → Desk fl dbs → ℤ × Desk fl dbs
  resolve_worker_id name payout_address ts_ms d =
      let (row, db) = dbs.upsert_worker name (ts_ms / 1000) (or_null payout_address) d.db in
      resolved name (cache_lookup d.cache name) row (record d { db = db })

  -- After a statement: its counter where it was done, an error where it was not.
  unfoldable pub count_step : (Stats → Stats) → Desk fl dbs → Bool × dbs.Db → Desk fl dbs
  count_step counted d (false, db) = count_error (record d { db = db })
  count_step counted d (true, db) = record d { db = db; stats = counted d.stats }

  unfoldable pub process_share : Event fl → ℤ × Desk fl dbs → Desk fl dbs
  process_share ev (wid, d) =
      if ltb_ℤ wid (pos 0)
      then count_error d
      else count_step (λ t. record t { shares_committed = add_u64 t.shares_committed 1 }) d
          (dbs.insert_share wid (ev.ts_ms / 1000) ev.difficulty ev.is_block (or_null ev.hash)
            ev.delta_sats ev.rate_used d.db)

  unfoldable pub process_credit : Event fl → ℤ × Desk fl dbs → Desk fl dbs
  process_credit ev (wid, d) =
      if ltb_ℤ wid (pos 0)
      then count_error d
      else count_step (λ t. record t { credits_committed = add_u64 t.credits_committed 1 }) d
          (dbs.upsert_credit wid ev.delta_sats (ev.ts_ms / 1000) d.db)

  unfoldable pub process_reject : Event fl → Desk fl dbs → Desk fl dbs
  process_reject ev d =
      count_step (λ t. record t { rejects_committed = add_u64 t.rejects_committed 1 }) d
        (dbs.insert_reject (or_null ev.worker_name) (ev.ts_ms / 1000) ev.reason d.db)

  unfoldable pub count_block : Event fl → Desk fl dbs → Option Bool × dbs.Db → Desk fl dbs
  count_block ev d (none, db) = count_error (record d { db = db })
  count_block ev d (some changed, db) =
      if changed && not (ev.block_status == store_block_rejected)
      then record d {
        db = db;
        stats = record d.stats { blocks_committed = add_u64 d.stats.blocks_committed 1 };
      }
      else record d { db = db }

  unfoldable pub process_block : Event fl → ℤ × Desk fl dbs → Desk fl dbs
  process_block ev (finder, d) = count_block ev d (
      dbs.insert_block (ev.ts_ms / 1000) ev.height ev.hash (id_or_null finder)
        (or_null ev.payout_address) (positive_or_null ev.reward_sats) (positive_or_null ev.fee_sats)
        (store_block_status_text ev.block_status) (or_null ev.reason) ev.pplns_window_diff d.db)

  -- The finder of a block: -1 where it has no name.
  unfoldable pub finder_of : List ℕ → Event fl → Desk fl dbs → ℤ × Desk fl dbs
  finder_of [] ev d = (negsuc 0, d)
  finder_of (c ∷ cs) ev d = resolve_worker_id (c ∷ cs) ev.payout_address ev.ts_ms d

  unfoldable pub process_kind : Kind → Event fl → Desk fl dbs → Desk fl dbs
  process_kind Kind.share ev d =
      process_share ev (resolve_worker_id ev.worker_name ev.payout_address ev.ts_ms d)
  process_kind Kind.reject ev d = process_reject ev d
  process_kind Kind.block ev d = process_block ev (finder_of ev.worker_name ev d)
  process_kind Kind.credit ev d =
      process_credit ev (resolve_worker_id ev.worker_name ev.payout_address ev.ts_ms d)

  unfoldable pub process_event : Event fl → Desk fl dbs → Desk fl dbs
  process_event ev d = process_kind ev.kind ev d
