-- ===== src/Bytes/Buffer.antt =====
-- `bbuf_reserve` and `bbuf_push`: the doubling ends, and a push appends exactly its bytes.
use native.Mathlib.Nat.{pow-suc}
use simplepool.Prelude.{
  ℕ, zero, suc, ◌+◌, ◌*◌, ◌%◌, ◌^◌, ◌≤◌, ◌≡◌, refl, ap, inl, inr, Bool, true, some, List, ◌++◌,
  arith, ltb, leb, ◌==◌, if◌then◌else◌, length, length-append, Bool-cases, ltb→lt, ltb→ge,
}
use simplepool.Bytes.{Bbuf, grow, bbuf_reserve, bbuf_push, add_size}

-- Enough rounds for the distance: the loop stops at a size that covers the need.
pub grow_total :
    (fuel nc need : ℕ)
    → need ≤ 2 ^ 63
    → need ≤ nc * 2 ^ fuel
    → (r : ℕ) × (grow (suc fuel) nc need ≡ some r) × (need ≤ r) × (nc ≤ r)
unfolding grow
grow_total zero nc need small enough = (nc, ground arith, omega arith, omega arith)
grow_total (suc fuel) nc need small enough = elim (Bool-cases (ltb nc need)) [
  | inl more ↦
      let lt = ltb→lt nc need more in
      let unwrapped : (nc * 2) % 2 ^ 64 ≡ nc * 2 = omega arith in
      let wide : nc * 2 * 2 ^ fuel ≡ nc * 2 ^ suc fuel =
        omega (arith, ap (λ (t : ℕ). nc * t) (pow-suc 2 fuel)) in
      let (r, e, a, b) = grow_total fuel (nc * 2) need small (omega (arith, wide)) in
      (r, ground arith, a, omega arith)
  | inr done ↦ (nc, rw done, ltb→ge nc need done, omega arith)
]

module _ (realloc : ℕ → Bool) where
  -- An honest allocator: a push of a buffer below 2 ^ 63 bytes succeeds, appends the bytes, and
  -- keeps the content inside the allocation.
  pub bbuf_push_total :
      (b : Bbuf) (src : List ℕ)
      → ((n : ℕ) → realloc n ≡ true)
      → length b.bytes + length src ≤ 2 ^ 63
      → (b' : Bbuf) × (bbuf_push realloc b src ≡ some b')
        × (b'.bytes ≡ b.bytes ++ src)
        × (length b'.bytes ≤ b'.cap)
  unfolding bbuf_push bbuf_reserve
  bbuf_push_total b src honest small =
      let need : ℕ = add_size (length b.bytes) (length src) in
      let start : ℕ = if b.cap == 0 then 64 else b.cap in
      let nonzero : 1 ≤ start = ground arith in
      let (r, e, covers, _) = grow_total 64 start need (omega arith) (omega arith) in
      let made : Bbuf = if leb need b.cap then b else record b { cap = r } in
      let sized : need ≤ made.cap = ground arith in
      let same : made.bytes ≡ b.bytes = ground arith in
      (
        record made { bytes = b.bytes ++ src },
        ground (arith, honest r),
        refl,
        omega (arith, length-append b.bytes src),
      )

  -- Whatever the allocator does, a push that succeeds has appended exactly its bytes.
  pub bbuf_push_bytes :
      (b b' : Bbuf) (src : List ℕ) → bbuf_push realloc b src ≡ some b' → b'.bytes ≡ b.bytes ++ src
  unfolding bbuf_push bbuf_reserve
  bbuf_push_bytes b b' src e = ground arith
