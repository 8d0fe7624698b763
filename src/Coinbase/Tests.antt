-- ===== src/Coinbase/Tests.antt =====
-- Runs of the builders, and their theorems at concrete jobs.
use simplepool.Prelude.{
  ℕ, ◌-◌, ◌<◌, ◌≤◌, ◌≡◌, refl, Bool, true, some, List, [], ◌∷◌, ◌++◌, arith, length, get_or,
  replicate,
}
use simplepool.Prelude.Int.{pos}
use simplepool.Prelude.Text.{codes}
use simplepool.Bytes.{bbuf_init, grow, bbuf_reserve, bbuf_push, le_bytes, u32_le, u64_le, varint}
use simplepool.Hex.{hex_nibble, join_nibbles, decode_pairs, hex_decode}
use simplepool.Double.{fractions}
use simplepool.Window.Tests.{opened, no_hash, alice, alice_script, the_result, window}
use simplepool.Coinbase.{
  as_u64, out_pieces, commitment, Parts, push_all, emit_parts, with_script_sig, Job, solo_fee,
  solo_outs, coinbase_build_split, text_len, commitment_cost, window_fixed_bytes,
  coinbase_build_window,
}
use simplepool.ScriptSig.{
  height_bytes, sign_byte, bip34_height_push, tag_bytes, salt_bytes, cb_tag_push, tag_len,
  cb_tag_push_len,
}
use simplepool.Coinbase.Height.{le_value, bip34_height_push-number}
use simplepool.Coinbase.Solo.{IsSolo, coinbase_build_split-IsSolo}
use simplepool.Coinbase.Window.{IsWindow, byte_limit, coinbase_build_window-IsWindow}
use simplepool.Coinbase.Size.{coinbase_build_window-fits}

-- Every definition that a run of a builder goes through, the split's aside.
built : ℕ
unfolding bbuf_init grow bbuf_reserve bbuf_push le_bytes u32_le u64_le varint hex_nibble
    join_nibbles decode_pairs hex_decode height_bytes sign_byte bip34_height_push tag_bytes
    salt_bytes cb_tag_push tag_len cb_tag_push_len as_u64 out_pieces commitment push_all emit_parts
    with_script_sig solo_fee solo_outs coinbase_build_split text_len commitment_cost
    window_fixed_bytes coinbase_build_window
built = 0

abbrev always : ℕ → Bool
always n = true

abbrev job : Job
job = record {
  height = 800000;
  witness_commitment_hex = some (codes "6a24aa21");
  coinbase_tag = some (codes "/pool/");
  job_salt = 7;
  extranonce1_size = 4;
  extranonce2_size = 4;
}

abbrev extranonces : List ℕ
extranonces = replicate 8 0xee

-- The height push of a recent block.
recent_height : bip34_height_push 800000 ≡ 3 ∷ 0x00 ∷ 0x35 ∷ 0x0c ∷ []
unfolding built
recent_height = refl

bip34_height_push-number_example :
    (bytes : List ℕ) × (bip34_height_push 800000 ≡ length bytes ∷ bytes)
    × (length bytes ≤ 5)
    × (le_value bytes ≡ 800000)
    × (get_or bytes (length bytes - 1) 0 < 0x80)
bip34_height_push-number_example = bip34_height_push-number 800000 (omega arith) (omega arith)

-- What both builders put after the extranonces: two outputs and the commitment.
abbrev both_cb2 : List ℕ
both_cb2 =
    replicate 4 255
    ++ (3 ∷ 208 ∷ 126 ∷ 1 ∷ 0 ∷ 0 ∷ 0 ∷ 0 ∷ 0 ∷ 22 ∷ [])
    ++ alice_script
    ++ (208 ∷ 7 ∷ 0 ∷ 0 ∷ 0 ∷ 0 ∷ 0 ∷ 0 ∷ 22 ∷ [])
    ++ alice_script
    ++ (0 ∷ 0 ∷ 0 ∷ 0 ∷ 0 ∷ 0 ∷ 0 ∷ 0 ∷ 4 ∷ 106 ∷ 36 ∷ 170 ∷ 33 ∷ 0 ∷ 0 ∷ 0 ∷ 0 ∷ [])

abbrev parts_of_version : ℕ → Parts
parts_of_version version = record {
  cb1 =
      (version ∷ 0 ∷ 0 ∷ 0 ∷ 1 ∷ [])
      ++ replicate 32 0
      ++ replicate 4 255
      ++ (24 ∷ 3 ∷ 0 ∷ 53 ∷ 12 ∷ 6 ∷ 47 ∷ 112 ∷ 111 ∷ 111 ∷ 108 ∷ 47 ∷ 4 ∷ 7 ∷ 0 ∷ 0 ∷ 0 ∷ []);
  cb2 = both_cb2;
}

solo_run :
    coinbase_build_split always no_hash job (pos 100000) (some alice) (some alice) (pos 200)
    ≡ some (parts_of_version 1)
unfolding built opened
solo_run = refl

window_run :
    coinbase_build_window always fractions no_hash job window
    ≡ some (parts_of_version 2, the_result)
unfolding built opened
window_run = refl

coinbase_build_split-IsSolo_example :
    IsSolo no_hash job
      (pos 100000)
      (some alice)
      (some alice)
      (pos 200)
      (parts_of_version 1)
      extranonces
coinbase_build_split-IsSolo_example =
    coinbase_build_split-IsSolo always no_hash job (pos 100000) (some alice) (some alice) (pos 200)
      (parts_of_version 1) extranonces solo_run (omega arith)

coinbase_build_window-IsWindow_example :
    IsWindow fractions no_hash job window (parts_of_version 2) the_result extranonces
coinbase_build_window-IsWindow_example =
    coinbase_build_window-IsWindow always fractions no_hash job window (parts_of_version 2)
      the_result extranonces window_run (omega arith)

coinbase_build_window-fits_example :
    length ((parts_of_version 2).cb1 ++ (extranonces ++ (parts_of_version 2).cb2))
    ≤ byte_limit window
coinbase_build_window-fits_example =
    coinbase_build_window-fits always fractions no_hash job window (parts_of_version 2) the_result
      extranonces window_run (omega arith) (omega arith)
