-- ===== src/Lib.antt =====
-- simplepool: a solo and PPLNS mining pool for Bitcoin and its drivechains. This library models the
-- part of the pool that decides money and work: what a coinbase pays, to whom, how it is laid out,
-- which work a share is, and which shares the stratum server credits.
--
-- How the parts interact. A share that solves a block credits a window of claims (src/pplns.c),
-- which is divided among the payees and put into payment order. The payees go to the resolver of
-- src/coinbase.c, which spends the reward over as many of them as the coinbase has room for; the
-- builders lay the outputs out around the extranonces, with the address decoder giving the scripts
-- and the byte buffers the serialization. src/share.c then turns a job and a nonce into a header
-- and its hash, over the merkle branches that src/main.c has computed. The submit handler of
-- src/stratum.c joins them: it finds the job in the server's ring, renders the coinbase of the
-- connection, hashes the header, asks the set of credited hashes, judges the hash against the
-- difficulty of the job and the network's target, and credits the share or submits the block. The
-- events of the server go into the ring of src/store.c, from which a writer thread brings them into
-- the database in batches.
--
-- Which file models which part:
--   Bytes      src/coinbase.c: bbuf_reserve, bbuf_push, bbuf_push_u32_le, bbuf_push_u64_le,
--              bbuf_push_varint, rd_varint, rd_u32, rd_u64
--   Hex        src/coinbase.c: hex_decode; src/stratum.c: hex_to_bytes, bytes_to_hex, parse_u32_hex
--   Address    src/coinbase.c: b58_decode, bech32_decode, convertbits, coinbase_address_to_script,
--              coinbase_address_network, coinbase_network_is_mainnet
--   Double     the interface of `double`, and exact fractions as an instance
--   Window     src/coinbase.c: resolve_window_outputs; Window/Resolve has the whole function
--   Pplns      src/pplns.c: pplns_split_window, pplns_order_claims
--   Share      src/share.c: nbits_to_target, be32_cmp, build_header, hash_header,
--              merkle_root_from_branches; src/main.c: compute_merkle_branches_for_idx0;
--              Share/Difficulty has target_to_diff and worker_diff_to_target
--   ScriptSig  src/coinbase.c: bip34_height_push, cb_tag_push, cb_tag_push_len
--   Coinbase   src/coinbase.c: coinbase_build_split, coinbase_build_window
--   Template   src/coinbase.c: build_from_template_impl, repl_single, repl_window,
--              coinbase_build_from_template, coinbase_build_window_from_template,
--              coinbase_count_outputs
--   Stratum    src/stratum.c, by files:
--     Limiter, JobDiff, Dedupe   submit_rate_exceeded, conn_record_job_difficulty,
--              conn_job_difficulty, dedupe_check_and_add
--     ShareDedupe   dd_mark, dd_home, dd_index_find, dd_index_insert, dd_home_between,
--              dd_index_remove, share_dedupe_key_check_and_add, share_dedupe_check_and_add
--     Vardiff  clamp_assigned_difficulty, vardiff_maybe_retarget, apply_requested_diff
--     Jobs     stratum_job_new, stratum_job_set_window, retire_job, stratum_server_set_job, find_job
--     Render, Block   conn_render_coinbase, assemble_block_hex
--     Lockout  auth_fail_find, auth_gate, auth_failed, auth_succeeded
--     Submit   handle_submit, submit_with_job; Submit/Judge has the judgement of a hash
--   Store      src/store.c: enqueue, the store_record_ functions; Store/Process has the worker cache,
--              resolve_worker_id and process_event, Store/Writer commit_batch and writer_main,
--              Store/Steps the threads as a step relation; Store/Asked states on its own what a
--              call asks the store to keep
--   Prelude    lists, tests, integers, bits and texts that the components share
-- The files below a component hold its theorems, and its Tests file holds runs at concrete inputs.
--
-- How the code is modelled. A C function is a function by clauses whose failure (-1) is `none`, in
-- the order of the source's checks; where the template parser would read outside its buffer, the
-- model has a third outcome, a fault. A buffer with an offset is a list and a number, `size_t` sums
-- on lengths that come from a transaction wrap at 2 ^ 64, and the conversions to bytes take
-- remainders as the casts do. Amounts are unbounded integers: the largest product, a reward times
-- its basis points, stays below 2 ^ 63 for every reward below nine million coins. `double` is an
-- interface without laws, so that a theorem over it holds for IEEE arithmetic with any rounding;
-- the bounds of vardiff take the laws of its comparison as a hypothesis, and the order of payment
-- that no number is both less and more than another. The prepared statements of SQLite are an
-- interface, and its answers to BEGIN and COMMIT a parameter, with what a failed COMMIT and the
-- ROLLBACK after it leave; that the ROLLBACK undoes the transaction is a hypothesis of the theorem
-- on batches alone. Producers and the writer thread of the store are steps in any order, of which
-- each is what the thread does while it holds the lock. SHA-256 and the allocator are parameters.
-- `qsort` is an insertion sort by the same comparison, which breaks ties by index.
--
-- Fuel. The doubling of a buffer has 65 rounds, of which 64 bits never need more for a size up to 2
-- ^ 63; the height push has the four rounds of a 32-bit number; the merkle loop has one round more
-- than there are transactions, and each round at least halves the level. A probe of the index of
-- credited hashes has one round for each slot, and the index always keeps an empty slot, which ends
-- it. The writer of the store, once stopped, needs one round more than there are events in the
-- ring.
--
-- Not modelled: error messages, freeing, the outputs of a C function that fails, sockets, threads
-- and locks, JSON and SQL, the count of references to a job, its broadcast to the other
-- connections, the window fractions that a found block stages through on_window_fractions, and the
-- two pps_ functions of src/share.c. The allocations of a block's assembly are taken to succeed.
pub mod Prelude
pub mod Bytes
pub mod Hex
pub mod Address
pub mod Double
pub mod Window
pub mod Pplns
pub mod Share
pub mod Store
pub mod ScriptSig
pub mod Coinbase
pub mod Template
pub mod Stratum
