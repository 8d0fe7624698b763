-- ===== src/Bytes/Ints.antt =====
-- Little-endian integers: reading back what was written.
use native.Mathlib.Nat.{div-add-mod, add-mul-mod_self_right, mod-eq_of_lt, mod-lt}
use simplepool.Prelude.{
  ℕ, zero, suc, ◌+◌, ◌*◌, ◌/◌, ◌%◌, ◌^◌, ◌<◌, ◌≡◌, refl, sym, ap, ◌∙◌, List, ◌++◌, arith, length,
  get_or, get_or-append_right,
}
use Prim.Native.Nat.{bit_or}
use native.Mathlib.Nat.{one-le-pow}
use native.Mathlib.Numerals.{towards_suc}
use simplepool.Prelude.Bits.{bit_or-shifted}
use simplepool.Bytes.{le_bytes, rd_le}

-- The remainder by 256 m, from the one by m and the next byte.
mod-mul_byte : (m v : ℕ) → 0 < m → v % (m * 256) ≡ v % m + v / m % 256 * m
mod-mul_byte m v h =
    ap (λ k. k % (m * 256)) split
    ∙ add-mul-mod_self_right (v % m + v / m % 256 * m) (v / m / 256) (m * 256)
    ∙ mod-eq_of_lt below
  where
    split : v ≡ v % m + v / m % 256 * m + v / m / 256 * (m * 256)
    split = omega (arith, div-add-mod v m, ap (λ (t : ℕ). t * m) (div-add-mod (v / m) 256))

    below : v % m + v / m % 256 * m < m * 256
    below = grind (arith, mod-lt v h)

two-pow-eight : (s : ℕ) → 2 ^ (s + 8) ≡ 2 ^ s * 256
two-pow-eight s = simp towards_suc (omega arith)

pub pow-next_byte : (i : ℕ) → 2 ^ (8 * (i + 1)) ≡ 2 ^ (8 * i) * 256
pow-next_byte i = ap (λ k. 2 ^ k) shift ∙ two-pow-eight (8 * i)
  where
    shift : 8 * (i + 1) ≡ 8 * i + 8
    shift = omega arith

-- One round of the reader: byte `i` of `v` joins the bytes below it.
join_byte :
    (v i acc byte : ℕ)
    → acc ≡ v % 2 ^ (8 * i)
    → byte ≡ v / 2 ^ (8 * i) % 256
    → bit_or acc (byte * 2 ^ (8 * i)) ≡ v % 2 ^ (8 * (i + 1))
join_byte v i acc byte e b =
    bit_or-shifted (8 * i) acc byte (rw e (mod-lt v positive))
    ∙ rw (e, b) (sym (mod-mul_byte (2 ^ (8 * i)) v positive))
    ∙ ap (λ m. v % m) (sym (pow-next_byte i))
  where
    positive : 0 < 2 ^ (8 * i)
    positive = one-le-pow (8 * i) 2 (omega arith)

-- A pass of the reader over the bytes of `v` extends `v % 2 ^ (8 * i)` by `n` bytes.
pub rd_le_bytes :
    (buf : List ℕ) (off v n i acc : ℕ)
    → ((k : ℕ) → k < n → get_or buf (off + (i + k)) 0 ≡ v / 2 ^ (8 * (i + k)) % 256)
    → acc ≡ v % 2 ^ (8 * i)
    → rd_le buf off n i acc ≡ v % 2 ^ (8 * (i + n))
unfolding rd_le
rd_le_bytes buf off v zero i acc at e = ground arith
rd_le_bytes buf off v (suc n) i acc at e =
    rd_le_bytes buf off v n (i + 1) _ (λ k h. rw (shift k) (at (suc k) (omega arith)))
      (join_byte v i acc (get_or buf (off + i) 0) e (rw (← here) (at 0 (omega arith))))
    ∙ ap (λ k. v % 2 ^ (8 * k)) (shift n)
  where
    shift : (k : ℕ) → i + 1 + k ≡ i + suc k
    shift k = omega arith

    here : i + 0 ≡ i
    here = omega arith

pub length-le_bytes : (n i v : ℕ) → length (le_bytes n i v) ≡ n
unfolding le_bytes
length-le_bytes zero i v = refl
length-le_bytes (suc n) i v = ap suc (length-le_bytes n (i + 1) v)

get_or-le_bytes :
    (n i v : ℕ) (post : List ℕ) (k : ℕ)
    → k < n
    → get_or (le_bytes n i v ++ post) k 0 ≡ v / 2 ^ (8 * (i + k)) % 256
unfolding le_bytes
get_or-le_bytes zero i v post k h = absurd (omega arith)
get_or-le_bytes (suc n) i v post zero h = ap (λ j. v / 2 ^ (8 * j) % 256) (omega arith)
get_or-le_bytes (suc n) i v post (suc k) h =
    get_or-le_bytes n (i + 1) v post k (omega arith) ∙ ap (λ j. v / 2 ^ (8 * j) % 256) (omega arith)

-- The reader at the place where `n` bytes of `v` stand.
pub rd_le-le_bytes :
    (pre : List ℕ) (n v : ℕ) (post : List ℕ)
    → rd_le (pre ++ (le_bytes n 0 v ++ post)) (length pre) n 0 0 ≡ v % 2 ^ (8 * n)
rd_le-le_bytes pre n v post =
    rd_le_bytes (pre ++ (le_bytes n 0 v ++ post)) (length pre) v n 0 0
      (λ k h.
        get_or-append_right pre (le_bytes n 0 v ++ post) (0 + k) 0
        ∙ ap (λ j. get_or (le_bytes n 0 v ++ post) j 0) (omega arith)
        ∙ get_or-le_bytes n 0 v post k h)
      (omega arith)
    ∙ ap (λ j. v % 2 ^ (8 * j)) (omega arith)
