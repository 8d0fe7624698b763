-- ===== src/Bytes/Tests.antt =====
-- The theorems on buffers and readers at concrete bytes.
use simplepool.Prelude.{
  ℕ, ◌+◌, ◌≤◌, ◌≡◌, refl, Bool, true, some, List, [], ◌∷◌, ◌++◌, arith, length,
}
use simplepool.Bytes.{Bbuf, bbuf_init, bbuf_push, varint, u64_le, le_bytes, rd_varint, rd_u64}
use simplepool.Bytes.Buffer.{bbuf_push_total}
use simplepool.Bytes.Varint.{around, rd_varint-varint, rd_u64-u64_le}

abbrev seven : List ℕ
seven = 7 ∷ []

abbrev nine : List ℕ
nine = 9 ∷ []

abbrev always : ℕ → Bool
always n = true

rd_varint-varint_example :
    rd_varint (around seven (varint 300) nine) (length seven)
    ≡ some (300, length seven + length (varint 300))
unfolding varint le_bytes
rd_varint-varint_example = rd_varint-varint seven 300 nine (omega arith) (omega arith)

rd_u64-u64_le_example :
    rd_u64 (around seven (u64_le 5000000000) []) (length seven)
    ≡ some (5000000000, length seven + 8)
unfolding u64_le le_bytes
rd_u64-u64_le_example = rd_u64-u64_le seven 5000000000 [] (omega arith) (omega arith)

abbrev started : Bbuf
started = record { bytes = 1 ∷ []; cap = 64; oom = bbuf_init.oom }

bbuf_push_total_example :
    (b' : Bbuf) × (bbuf_push always started (2 ∷ 3 ∷ []) ≡ some b')
    × (b'.bytes ≡ started.bytes ++ (2 ∷ 3 ∷ []))
    × (length b'.bytes ≤ b'.cap)
bbuf_push_total_example = bbuf_push_total always started (2 ∷ 3 ∷ []) (λ n. refl) (omega arith)
