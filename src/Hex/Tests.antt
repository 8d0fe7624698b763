-- ===== src/Hex/Tests.antt =====
-- The hex round trip at concrete bytes.
use simplepool.Prelude.{ℕ, ◌≡◌, some, List, [], ◌∷◌, arith, length}
use simplepool.Hex.{hex_decode, hex_to_bytes, bytes_to_hex}
use simplepool.Hex.RoundTrip.{decoders-bytes_to_hex}

abbrev two : List ℕ
two = 0xde ∷ 0x0f ∷ []

decoders-bytes_to_hex_example :
    (hex_decode (bytes_to_hex two) 2 ≡ some two)
    × (hex_to_bytes (bytes_to_hex two) (length two) ≡ some two)
decoders-bytes_to_hex_example =
    decoders-bytes_to_hex two 2 (omega arith, (omega arith, tt)) (omega arith)
