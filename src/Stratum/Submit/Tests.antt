-- ===== src/Stratum/Submit/Tests.antt =====
-- A submit to src/stratum.c on a small server: a hash function that ignores its input, and
-- difficulties that are whole numbers.
use simplepool.Prelude.{
  ℕ, ◌≡◌, refl, subst, Bool, true, false, Option, none, some, List, [], ◌∷◌, ◌++◌, arith, replicate,
  All,
}
use simplepool.Prelude.Int.{pos, ltb_ℤ}
use simplepool.Prelude.Text.{codes, same_text}
use simplepool.Double.{whole}
use simplepool.Share.{
  be32_cmp, dsha256, hash_header, reverse_onto, build_header, merkle_root_from_branches,
}
use simplepool.Hex.{decode_pairs, hex_nibble, join_nibbles, bytes_to_hex, parse_u32_hex, hex_digit}
use simplepool.Template.{Outcome}
use simplepool.Stratum.Limiter.{submit_rate_exceeded, roll_window}
use simplepool.Stratum.Dedupe.{
  fnv1a_from, fnv1a, dedupe_check_and_add, check_and_add, holds, dedupe_key, or_empty,
}
use simplepool.Stratum.ShareDedupe.{
  ShareDedupe, fresh, share_dedupe_check_and_add, fnv1a_bytes, share_dedupe_key_check_and_add,
  dd_index_find, find_from, slots, add_key, make_room, record_key, dd_index_insert, empty_from,
  write, dd_home, marked, next_slot,
}
use simplepool.Stratum.ShareDedupe.Whole.{fresh-Represents}
use simplepool.Stratum.JobDiff.{conn_job_difficulty, find_first}
use simplepool.Stratum.Jobs.{StratumJob, find_job, has_id}
use simplepool.Stratum.Render.{conn_render_coinbase}
use simplepool.Stratum.Block.{assemble_block_hex, append_transactions, hex_to_bytes_alloc}
use simplepool.Stratum.Submit.{
  Submission, Reason, SubmitConfig, Conn, Server, Turn, Work, handle_submit, submit_hashed,
  find_named, submit_limited, submit_found, submit_with_job, submit_versioned, rolled_version,
  read_numbers, number_of, submit_numbered, outside_roll, submit_extended, submit_rendered,
  submit_checked, submit_judged, work_of, credit,
}
use simplepool.Stratum.Submit.Judge.{is_at_most, is_below, clears, assigned_for, judge}
use simplepool.Stratum.Submit.OnJob.{OnJob, handle_submit-OnJob}
use simplepool.Stratum.Submit.Block.{IsBlockTurn, block-submitted}
use simplepool.Stratum.Submit.Answered.{IsOrdered, Answered}
use simplepool.Stratum.Submit.Answer.{handle_submit-Answered}

abbrev sha : List ℕ → List ℕ
sha bytes = 200 ∷ replicate 31 0

abbrev job : StratumJob
job = record {
  job_id = codes "a1";
  version = 0x20000000;
  prev_hash_le = replicate 32 5;
  value_sats = pos 5000000000;
  wc_hex = none;
  coinbasetxn_hex = none;
  coinbase_has_witness = false;
  en1_size = 4;
  en2_size = 2;
  merkle_branches = [];
  nbits = 0x1d00ffff;
  ntime = 1700000000;
  network_target_be = replicate 31 0 ++ (200 ∷ []);
  height = 7;
  cb_salt = 1;
  tx_hex_list = codes "00ff" ∷ [];
  payees = [];
  payee_worker_ids = [];
  created_ms = 0;
}

abbrev server : Server
server = record {
  jobs = record { current_job = some job; recent = replicate 16 none; recent_head = 0 };
  share_dedupe = fresh;
}

abbrev conn : Conn whole
conn = record {
  extranonce1 = 1 ∷ 2 ∷ 3 ∷ 4 ∷ [];
  version_mask = 0;
  payer = record {
    authorized = true;
    payout_address = codes "miner";
    max_coinbase_bytes = pos 0;
    parts = record { cb1 = 9 ∷ 9 ∷ []; cb2 = 8 ∷ [] };
    cb_for_job_id = codes "a1";
  };
  limiter = record { window_start_ms = 0; window_count = 0; limited = 0; limited_total = 0 };
  rl_reported_ms = 0;
  dedupe = record { dedupe = replicate 1024 0; dedupe_head = 0 };
  job_diffs = record { job_diffs = []; job_diffs_head = 0 };
  policy = record { vardiff_min = 1; vardiff_max = 0; min_diff = 0 };
  vardiff = record {
    difficulty = 1;
    requested_min_diff = 0;
    window_start_ms = 0;
    window_shares = 0;
    window_min_achieved = 0;
    window_max_assigned = 0;
  };
}

abbrev cfg : SubmitConfig whole
cfg = record {
  vardiff = record {
    vardiff_enabled = false;
    vardiff_window_sec = 30;
    vardiff_min_samples = pos 0;
    vardiff_max_window_mult = pos 0;
    vardiff_target_spm = 12;
    vardiff_idle_step = 2;
    max_suggested_diff = 0;
  };
  pay = record {
    coinbase_pays_window = false;
    coinbase_pays_pool = false;
    pool_btc_address = none;
    operator_address = none;
    fee_bps = pos 0;
    coinbase_tag = none;
    max_coinbase_bytes = 0;
    payout_floor_sats = pos 0;
  };
  max_submits_per_sec = pos 10;
  gated = false;
}

abbrev request : Submission
request = record {
  job_id = some (codes "a1");
  extranonce2 = some (codes "0102");
  ntime = some (codes "6553f100");
  nonce = some (codes "00000007");
  version = none;
}

abbrev always : ℕ → Bool
always n = true

abbrev taken : List ℕ → Bool
taken hex = true

server-IsOrdered : IsOrdered server
server-IsOrdered = record { keys = []; represents = fresh-Represents 16 16384 (omega arith) }

abbrev template_of : Option StratumJob → Option (List ℕ)
template_of none = none
template_of (some j) = j.coinbasetxn_hex

plain : (j : StratumJob) → find_named server.jobs request.job_id ≡ some j → j.coinbasetxn_hex ≡ none
unfolding find_named find_job has_id same_text
plain j named = subst (λ (o : Option StratumJob). template_of o ≡ none) named refl

handle_submit-Answered_example :
    Answered
      (handle_submit always always always whole sha taken cfg 5 20 (some request) conn server)
handle_submit-Answered_example =
    handle_submit-Answered always always always whole sha taken cfg 5 (λ n. refl) 20 (some request)
      conn server plain server-IsOrdered

abbrev solved : Work
solved = record {
  coinbase = 9 ∷ 9 ∷ [];
  header = replicate 80 0;
  hash_be = replicate 31 0 ++ (200 ∷ []);
}

abbrev kept : Option (Bool × ShareDedupe) → ShareDedupe
kept none = fresh
kept (some (dup, d)) = d

abbrev text : Option (List ℕ) → List ℕ
text none = []
text (some hex) = hex

block-submitted_example :
    (t : Turn whole) × (submit_hashed always always always whole sha taken cfg 5 job solved conn
        server
      ≡ Outcome.ok t)
    × IsBlockTurn always always always whole sha taken cfg 5 job solved conn server
        (text (assemble_block_hex job solved.coinbase solved.header))
        (kept (share_dedupe_check_and_add fresh solved.hash_be))
        t
unfolding be32_cmp is_at_most share_dedupe_check_and_add share_dedupe_key_check_and_add
    dd_index_find find_from slots fresh add_key make_room record_key dd_index_insert empty_from
    write dd_home marked next_slot fnv1a_bytes fnv1a_from assemble_block_hex append_transactions
    hex_to_bytes_alloc decode_pairs hex_nibble join_nibbles bytes_to_hex
block-submitted_example =
    block-submitted always always always whole sha taken cfg 5 job solved conn server
      (text (assemble_block_hex job solved.coinbase solved.header))
      (kept (share_dedupe_check_and_add fresh solved.hash_be)) refl refl refl

abbrev replies : Outcome (Turn whole) → Option (Option Reason)
replies Outcome.refused = none
replies Outcome.fault = none
replies (Outcome.ok t) = some t.reply

-- The request is credited.
accepted :
    replies (handle_submit always always always whole sha taken cfg 5 20 (some request) conn server)
    ≡ some none
unfolding handle_submit submit_rate_exceeded ltb_ℤ roll_window submit_limited submit_found
    find_named find_job has_id same_text submit_with_job submit_versioned rolled_version
    dedupe_check_and_add check_and_add holds fnv1a fnv1a_from dedupe_key or_empty bytes_to_hex
    read_numbers number_of parse_u32_hex submit_numbered outside_roll hex_to_bytes_alloc
    decode_pairs hex_nibble join_nibbles submit_extended conn_render_coinbase submit_rendered
    submit_hashed share_dedupe_check_and_add fnv1a_bytes share_dedupe_key_check_and_add
    dd_index_find find_from slots fresh add_key make_room record_key dd_index_insert empty_from
    write dd_home marked next_slot submit_checked submit_judged judge work_of dsha256 hash_header
    reverse_onto build_header merkle_root_from_branches be32_cmp is_at_most is_below clears
    assigned_for conn_job_difficulty find_first credit hex_digit
accepted = refl

ran : (o : Outcome (Turn whole)) → replies o ≡ some none → (t : Turn whole) × (o ≡ Outcome.ok t)
ran Outcome.refused e = absurd (ground arith)
ran Outcome.fault e = absurd (ground arith)
ran (Outcome.ok t) e = (t, refl)

handle_submit-OnJob_example :
    (t : Turn whole) × (handle_submit always always always whole sha taken cfg 5 20
        (some request)
        conn
        server
      ≡ Outcome.ok t)
    × All
        (OnJob always always always whole sha taken cfg 5 server.jobs conn.extranonce1
          request.job_id)
        t.events
handle_submit-OnJob_example =
    let (t, done) = ran _ accepted in
    (
      t,
      done,
      handle_submit-OnJob always always always whole sha taken cfg 5 20 request conn server t done,
    )
