-- ===== src/Store/Asked.antt =====
-- The event that a call of a `store_record_` function of src/store.c asks the store to keep, as a
-- description of its own.
use simplepool.Prelude.{ℕ, ◌-◌, ◌%◌, ◌^◌, Option, none, some, List, take}
use simplepool.Prelude.Int.{ℤ}
use simplepool.Double.{DoubleOps}
use simplepool.Store.{
  Kind, Event, Request, zeroed, copied, worker_name_max, hash_str_max, reason_max, addr_max,
}

module _ {fl : DoubleOps} where
  -- The event of each kind, from the arguments of its call.
  unfoldable pub share_event :
      List ℕ → Option (List ℕ) → ℕ → fl.Double → ℤ → Option (List ℕ) → ℤ → fl.Double → Event fl
  share_event name payout_address ts_ms difficulty is_block hash credited rate =
      record (zeroed fl Kind.share ts_ms) {
        difficulty = difficulty;
        is_block = is_block;
        delta_sats = credited;
        rate_used = rate;
        worker_name = take (worker_name_max - 1) name;
        payout_address = copied (addr_max - 1) payout_address;
        hash = copied (hash_str_max - 1) hash;
      }

  unfoldable pub reject_event : Option (List ℕ) → ℕ → List ℕ → Event fl
  reject_event name ts_ms reason = record (zeroed fl Kind.reject ts_ms) {
    worker_name = copied (worker_name_max - 1) name;
    reason = take (reason_max - 1) reason;
  }

  unfoldable pub block_event :
      ℕ
      → ℤ
      → List ℕ
      → Option (List ℕ)
      → Option (List ℕ)
      → ℤ
      → ℤ
      → ℕ
      → Option (List ℕ)
      → fl.Double
      → Event fl
  block_event ts_ms height hash finder address reward fee status error window =
      record (zeroed fl Kind.block ts_ms) {
        height = height;
        reward_sats = reward;
        fee_sats = fee;
        block_status = status % 2 ^ 8;
        pplns_window_diff = window;
        reason = copied (reason_max - 1) error;
        hash = take (hash_str_max - 1) hash;
        worker_name = copied (worker_name_max - 1) finder;
        payout_address = copied (addr_max - 1) address;
      }

  unfoldable pub credit_event : List ℕ → Option (List ℕ) → ℕ → ℤ → Event fl
  credit_event name payout_address ts_ms delta_sats = record (zeroed fl Kind.credit ts_ms) {
    delta_sats = delta_sats;
    worker_name = take (worker_name_max - 1) name;
    payout_address = copied (addr_max - 1) payout_address;
  }

  -- The event that a call asks the store to keep: none where a text that it needs is NULL.
  unfoldable pub event_of : Request fl → Option (Event fl)
  event_of (Request.share none address ts_ms difficulty is_block hash credited rate) = none
  event_of (Request.share (some name) address ts_ms difficulty is_block hash credited rate) =
      some (share_event name address ts_ms difficulty is_block hash credited rate)
  event_of (Request.reject name ts_ms none) = none
  event_of (Request.reject name ts_ms (some reason)) = some (reject_event name ts_ms reason)
  event_of (Request.block ts_ms height none finder address reward fee status error window) = none
  event_of (Request.block ts_ms height (some hash) finder address reward fee status error window) =
      some (block_event ts_ms height hash finder address reward fee status error window)
  event_of (Request.credit none address ts_ms delta_sats) = none
  event_of (Request.credit (some name) address ts_ms delta_sats) =
      some (credit_event name address ts_ms delta_sats)
