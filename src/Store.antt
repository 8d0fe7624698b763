-- ===== src/Store.antt =====
-- The event store of src/store.c: the events, the bounded ring that producers fill under `mu`, and
-- the functions that record an event. Texts end at their first zero byte, which they do not hold.
pub mod Process
pub mod Writer
pub mod Asked
pub mod Steps
mod Ring
mod Atomic
mod Counters
mod Calls
mod Account
mod Accounted
mod Close
mod Tests
use simplepool.Prelude.{
  ℕ, ◌+◌, ◌-◌, ◌%◌, ◌^◌, Bool, true, false, not, Option, none, some, List, [], ◌==◌, if◌then◌else◌,
  take,
}
use simplepool.Prelude.Int.{ℤ, pos, ltb_ℤ}
use simplepool.Double.{DoubleOps}

-- WORKER_NAME_MAX, HASH_STR_MAX, REASON_MAX and ADDR_MAX
abbrev pub worker_name_max : ℕ
worker_name_max = 128

abbrev pub hash_str_max : ℕ
hash_str_max = 96

abbrev pub reason_max : ℕ
reason_max = 128

abbrev pub addr_max : ℕ
addr_max = 128

-- EV_SHARE, EV_REJECT, EV_BLOCK and EV_CREDIT
pub data Kind : Type 0 where
  share reject block credit : Kind

-- `event_t`
pub record Event (fl : DoubleOps) : Type 0 where
  pub kind : Kind
  pub ts_ms : ℕ
  pub difficulty : fl.Double
  pub is_block : ℤ
  pub height : ℤ
  pub reward_sats : ℤ
  pub fee_sats : ℤ
  pub pplns_window_diff : fl.Double
  pub block_status : ℕ
  pub delta_sats : ℤ
  pub rate_used : fl.Double
  pub worker_name : List ℕ
  pub payout_address : List ℕ
  pub hash : List ℕ
  pub reason : List ℕ

-- The ring and the sequence numbers of `struct store`.
pub record Queue {ℓ} (A : Type ℓ) : Type ℓ where
  pub ring : ℕ → A
  pub ring_cap : ℕ
  pub ring_head : ℕ
  pub ring_tail : ℕ
  pub ring_count : ℕ
  pub enqueue_seq : ℕ
  pub committed_seq : ℕ

-- The atomic counters of `struct store`.
pub record Stats : Type 0 where
  pub shares_queued : ℕ
  pub shares_committed : ℕ
  pub shares_dropped : ℕ
  pub rejects_queued : ℕ
  pub rejects_committed : ℕ
  pub blocks_committed : ℕ
  pub credits_committed : ℕ
  pub batches : ℕ
  pub pg_errors : ℕ
  pub events_lost : ℕ

-- An atomic addition to a `uint64_t`.
abbrev pub add_u64 : ℕ → ℕ → ℕ
add_u64 a b = (a + b) % 2 ^ 64

module _ {ℓ} {A : Type ℓ} where
  unfoldable pub ring_write : (ℕ → A) → ℕ → A → ℕ → A
  ring_write a i v j = if i == j then v else a j

  -- The event at the head of the ring.
  unfoldable pub pushed : A → Queue A → Queue A
  pushed ev q = record q {
    ring = ring_write q.ring q.ring_head ev;
    ring_head = (q.ring_head + 1) % q.ring_cap;
    ring_count = q.ring_count + 1;
    enqueue_seq = add_u64 q.enqueue_seq 1;
  }

  -- `none` is a full ring.
  unfoldable pub enqueue : A → Queue A → Option (Queue A)
  enqueue ev q = if q.ring_count == q.ring_cap then none else some (pushed ev q)

-- A text that may be NULL, copied by `strncpy` into a zeroed array of `n` bytes.
unfoldable pub copied : ℕ → Option (List ℕ) → List ℕ
copied n none = []
copied n (some text) = take n text

module _ (fl : DoubleOps) where
  open fl use {Double, of_ℤ}

  -- The event after `memset`.
  unfoldable pub zeroed : Kind → ℕ → Event fl
  zeroed kind ts_ms = record {
    kind = kind;
    ts_ms = ts_ms;
    difficulty = of_ℤ (pos 0);
    is_block = pos 0;
    height = pos 0;
    reward_sats = pos 0;
    fee_sats = pos 0;
    pplns_window_diff = of_ℤ (pos 0);
    block_status = 0;
    delta_sats = pos 0;
    rate_used = of_ℤ (pos 0);
    worker_name = [];
    payout_address = [];
    hash = [];
    reason = [];
  }

  -- What is asked of the store: a call of `store_record_share_addr`, of `store_record_reject`, of
  -- `store_record_block` or of `store_record_credit` with its arguments, of which the texts may be
  -- NULL.
  pub data Request : Type 0 where
    share :
        (worker_name payout_address : Option (List ℕ)) (ts_ms : ℕ) (difficulty : Double)
        (is_block : ℤ) (share_hash : Option (List ℕ)) (credited_sats : ℤ) (rate_used : Double)
        → Request
    reject : (worker_name : Option (List ℕ)) (ts_ms : ℕ) (reason : Option (List ℕ)) → Request
    block :
        (ts_ms : ℕ) (height : ℤ) (hash finder_name finder_address : Option (List ℕ))
        (reward_sats fee_sats : ℤ) (status : ℕ) (submit_error : Option (List ℕ))
        (pplns_window_diff : Double)
        → Request
    credit : (worker_name payout_address : Option (List ℕ)) (ts_ms : ℕ) (delta_sats : ℤ) → Request

-- A queue with the counters: the part of `struct store` that producers change.
pub record Intake (fl : DoubleOps) : Type 0 where
  pub queue : Queue (Event fl)
  pub stats : Stats

module _ {fl : DoubleOps} where
  -- The counters after the ring was full, or took the event.
  unfoldable pub after_enqueue :
      (Stats → Stats) → Intake fl → Option (Queue (Event fl)) → Bool × Intake fl
  after_enqueue queued s none = (
    false,
    record s { stats = record s.stats { shares_dropped = add_u64 s.stats.shares_dropped 1 } },
  )
  after_enqueue queued s (some q) = (true, record { queue = q; stats = queued s.stats })

  -- The end of every `store_record_` function: the event is put into the ring, or is dropped.
  unfoldable pub put_event : (Stats → Stats) → Event fl → Intake fl → Bool × Intake fl
  put_event queued ev s = after_enqueue queued s (enqueue ev s.queue)

  unfoldable pub store_record_share_addr :
      Option (List ℕ)
      → Option (List ℕ)
      → ℕ
      → fl.Double
      → ℤ
      → Option (List ℕ)
      → ℤ
      → fl.Double
      → Intake fl
      → Bool × Intake fl
  store_record_share_addr none payout_address ts_ms difficulty is_block hash credited rate s =
      (false, s)
  store_record_share_addr (some name) payout_address ts_ms difficulty is_block hash credited rate
        s =
      put_event (λ t. record t { shares_queued = add_u64 t.shares_queued 1 })
        (record (zeroed fl share ts_ms) {
          difficulty = difficulty;
          is_block = is_block;
          delta_sats = credited;
          rate_used = rate;
          worker_name = take (worker_name_max - 1) name;
          payout_address = copied (addr_max - 1) payout_address;
          hash = copied (hash_str_max - 1) hash;
        })
        s

  unfoldable pub store_record_share :
      Option (List ℕ) → ℕ → fl.Double → ℤ → Option (List ℕ) → Intake fl → Bool × Intake fl
  store_record_share name ts_ms difficulty is_block hash =
      store_record_share_addr name none ts_ms difficulty is_block hash (pos 0) (fl.of_ℤ (pos 0))

  unfoldable pub store_record_reject :
      Option (List ℕ) → ℕ → Option (List ℕ) → Intake fl → Bool × Intake fl
  store_record_reject name ts_ms none s = (false, s)
  store_record_reject name ts_ms (some reason) s =
      put_event (λ t. record t { rejects_queued = add_u64 t.rejects_queued 1 })
        (record (zeroed fl reject ts_ms) {
          worker_name = copied (worker_name_max - 1) name;
          reason = take (reason_max - 1) reason;
        })
        s

  unfoldable pub store_record_block :
      ℕ
      → ℤ
      → Option (List ℕ)
      → Option (List ℕ)
      → Option (List ℕ)
      → ℤ
      → ℤ
      → ℕ
      → Option (List ℕ)
      → fl.Double
      → Intake fl
      → Bool × Intake fl
  store_record_block ts_ms height none finder address reward fee status error window s = (false, s)
  store_record_block ts_ms height (some hash) finder address reward fee status error window s =
      if not (ltb_ℤ (pos 0) height)
      then (false, record s { stats = record s.stats { pg_errors = add_u64 s.stats.pg_errors 1 } })
      else put_event (λ t. t)
          (record (zeroed fl block ts_ms) {
            height = height;
            reward_sats = reward;
            fee_sats = fee;
            block_status = status % 2 ^ 8;
            pplns_window_diff = window;
            reason = copied (reason_max - 1) error;
            hash = take (hash_str_max - 1) hash;
            worker_name = copied (worker_name_max - 1) finder;
            payout_address = copied (addr_max - 1) address;
          })
          s

  unfoldable pub store_record_credit :
      Option (List ℕ) → Option (List ℕ) → ℕ → ℤ → Intake fl → Bool × Intake fl
  store_record_credit none payout_address ts_ms delta_sats s = (false, s)
  store_record_credit (some name) payout_address ts_ms delta_sats s =
      if not (ltb_ℤ (pos 0) delta_sats)
      then (false, s)
      else put_event (λ t. t)
          (record (zeroed fl credit ts_ms) {
            delta_sats = delta_sats;
            worker_name = take (worker_name_max - 1) name;
            payout_address = copied (addr_max - 1) payout_address;
          })
          s

  -- A call of one of the functions above.
  unfoldable pub store_record : Request fl → Intake fl → Bool × Intake fl
  store_record (Request.share name address ts_ms difficulty is_block hash credited rate) =
      store_record_share_addr name address ts_ms difficulty is_block hash credited rate
  store_record (Request.reject name ts_ms reason) = store_record_reject name ts_ms reason
  store_record (Request.block ts_ms height hash finder address reward fee status error window) =
      store_record_block ts_ms height hash finder address reward fee status error window
  store_record (Request.credit name address ts_ms delta_sats) =
      store_record_credit name address ts_ms delta_sats
