-- ===== src/Bytes.antt =====
-- The byte-buffer helpers, the BIP34 height push and the transaction readers of src/coinbase.c.
-- A byte is a number below 256. A buffer read is `buf` with an offset, as in the source.
mod Tests
pub mod Buffer
pub mod Ints
pub mod Varint
use Prim.Native.Nat.{bit_or}
use simplepool.Prelude.{
  ℕ, zero, suc, ◌+◌, ◌*◌, ◌/◌, ◌%◌, ◌^◌, ◌<◌, Bool, true, false, Option, none, some, List, [], ◌∷◌,
  ◌++◌, ltb, leb, ◌==◌, if◌then◌else◌, length, get_or,
}

abbrev pub IsByte : ℕ → Type 0
IsByte b = b < 256

abbrev pub IsU32 : ℕ → Type 0
IsU32 v = v < 2 ^ 32

abbrev pub IsU64 : ℕ → Type 0
IsU64 v = v < 2 ^ 64

-- A `size_t` or `uint64_t` sum, which wraps.
abbrev pub add_size : ℕ → ℕ → ℕ
add_size a b = (a + b) % 2 ^ 64

-- ---------- byte-buffer helpers ----------

-- `data` with `len` is the list; `cap` is what is allocated.
pub record Bbuf : Type 0 where
  pub bytes : List ℕ
  pub cap : ℕ
  pub oom : Bool

unfoldable pub bbuf_init : Bbuf
bbuf_init = record { bytes = []; cap = 0; oom = false }

-- `while (nc < need) nc *= 2;`
unfoldable pub grow : ℕ → ℕ → ℕ → Option ℕ
grow zero nc need = none
grow (suc fuel) nc need =
    let more = grow fuel ((nc * 2) % 2 ^ 64) need in if ltb nc need then more else some nc

-- The rounds that 64 bits can take.
abbrev pub grow_fuel : ℕ
grow_fuel = 65

-- `realloc nc` says whether an allocation of that size succeeds.
module _ (realloc : ℕ → Bool) where
  -- `none`: the doubling did not end within 65 rounds, which needs `need > 2 ^ 63`.
  unfoldable pub bbuf_reserve : Bbuf → ℕ → Option (Bool × Bbuf)
  bbuf_reserve b need =
      if leb need b.cap
      then some (true, b)
      else elim (grow grow_fuel (if b.cap == 0 then 64 else b.cap) need) [
        | none ↦ none
        | some nc ↦
            if realloc nc
            then some (true, record b { cap = nc })
            else some (false, record b { oom = true })
      ]

  -- `none` is the -1 of a failed reservation; every caller then frees the buffer.
  unfoldable pub bbuf_push : Bbuf → List ℕ → Option Bbuf
  bbuf_push b src = elim (bbuf_reserve b (add_size (length b.bytes) (length src))) [
    | none ↦ none
    | some (ok, b') ↦ if ok then some (record b' { bytes = b'.bytes ++ src }) else none
  ]

-- The bytes of a value, least significant first: `(uint8_t)(v >> 8 * i)` for `n` values of `i`.
unfoldable pub le_bytes : ℕ → ℕ → ℕ → List ℕ
le_bytes zero i v = []
le_bytes (suc n) i v = (v / 2 ^ (8 * i) % 256) ∷ le_bytes n (i + 1) v

unfoldable pub u32_le : ℕ → List ℕ
unfolding le_bytes
u32_le v = le_bytes 4 0 v

unfoldable pub u64_le : ℕ → List ℕ
unfolding le_bytes
u64_le v = le_bytes 8 0 v

-- What `bbuf_push_varint` appends.
unfoldable pub varint : ℕ → List ℕ
unfolding u32_le u64_le le_bytes
varint n =
    if ltb n 0xfd
    then n ∷ []
    else if leb n 0xffff
    then 0xfd ∷ le_bytes 2 0 n
    else if leb n 0xffffffff
    then 0xfe ∷ u32_le n
    else 0xff ∷ u64_le n

-- ---------- readers ----------

-- `for (i = 0; i < n; i++) v |= buf[off + i] << (8 * i);`
unfoldable pub rd_le : List ℕ → ℕ → ℕ → ℕ → ℕ → ℕ
rd_le buf off zero i v = v
rd_le buf off (suc n) i v =
    rd_le buf off n (i + 1) (bit_or v (get_or buf (off + i) 0 * 2 ^ (8 * i)))

-- The value and the new offset; `none` is -1. The length is `length buf`.
unfoldable pub rd_varint : List ℕ → ℕ → Option (ℕ × ℕ)
rd_varint buf off =
    if leb (length buf) off
    then none
    else let b = get_or buf off 0 in
      let off' = add_size off 1 in
      if ltb b 0xfd
      then some (b, off')
      else let n = (if b == 0xfd then 2 else if b == 0xfe then 4 else 8) in
        if ltb (length buf) (add_size off' n)
        then none
        else some (rd_le buf off' n 0 0, add_size off' n)

unfoldable pub rd_u32 : List ℕ → ℕ → Option (ℕ × ℕ)
rd_u32 buf off =
    if ltb (length buf) (add_size off 4) then none else some (rd_le buf off 4 0 0, add_size off 4)

unfoldable pub rd_u64 : List ℕ → ℕ → Option (ℕ × ℕ)
rd_u64 buf off =
    if ltb (length buf) (add_size off 8) then none else some (rd_le buf off 8 0 0, add_size off 8)
