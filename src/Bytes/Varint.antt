-- ===== src/Bytes/Varint.antt =====
-- `rd_varint`, `rd_u32` and `rd_u64` against the writers.
use simplepool.Prelude.{
  ℕ, ◌+◌, ◌*◌, ◌%◌, ◌^◌, ◌<◌, ◌≡◌, refl, ◌⊎◌, ap, ◌∙◌, inl, inr, some, List, [], ◌∷◌, ◌++◌, arith,
  ltb, leb, length, get_or, length-append, get_or-append_right, append_assoc, Bool-cases, ltb→lt,
  leb→le,
}
use native.Mathlib.Nat.{mod-eq_of_lt}
use simplepool.Bytes.{
  IsU32, IsU64, le_bytes, u32_le, u64_le, varint, rd_le, rd_u32, rd_u64, rd_varint,
}
use simplepool.Bytes.Ints.{rd_le-le_bytes, length-le_bytes}

-- The lengths of a buffer with a piece in the middle.
abbrev pub around : List ℕ → List ℕ → List ℕ → List ℕ
around pre piece post = pre ++ (piece ++ post)

length-around :
    (pre piece post : List ℕ)
    → length (around pre piece post) ≡ length pre + length piece + length post
length-around pre piece post =
    omega (arith, length-append pre (piece ++ post), length-append piece post)

-- `rd_u32` reads back what `bbuf_push_u32_le` wrote, and moves past its four bytes.
pub rd_u32-u32_le :
    (pre : List ℕ) (v : ℕ) (post : List ℕ)
    → IsU32 v
    → length (around pre (u32_le v) post) < 2 ^ 63
    → rd_u32 (around pre (u32_le v) post) (length pre) ≡ some (v, length pre + 4)
unfolding rd_u32 u32_le
rd_u32-u32_le pre v post small short = ground (
  arith,
  length-around pre (le_bytes 4 0 v) post,
  length-le_bytes 4 0 v,
  rd_le-le_bytes pre 4 v post,
)

-- `rd_u64` reads back what `bbuf_push_u64_le` wrote, and moves past its eight bytes.
pub rd_u64-u64_le :
    (pre : List ℕ) (v : ℕ) (post : List ℕ)
    → IsU64 v
    → length (around pre (u64_le v) post) < 2 ^ 63
    → rd_u64 (around pre (u64_le v) post) (length pre) ≡ some (v, length pre + 8)
unfolding rd_u64 u64_le
rd_u64-u64_le pre v post small short = ground (
  arith,
  length-around pre (le_bytes 8 0 v) post,
  length-le_bytes 8 0 v,
  rd_le-le_bytes pre 8 v post,
)

-- The reader behind a tag byte.
rd_le_tagged :
    (pre : List ℕ) (tag n v : ℕ) (post : List ℕ)
    → rd_le (around pre (tag ∷ le_bytes n 0 v) post) (length pre + 1) n 0 0 ≡ v % 2 ^ (8 * n)
rd_le_tagged pre tag n v post =
    rw (← regroup, ← moved) (rd_le-le_bytes (pre ++ (tag ∷ [])) n v post)
  where
    regroup :
        (pre ++ (tag ∷ [])) ++ (le_bytes n 0 v ++ post) ≡ around pre (tag ∷ le_bytes n 0 v) post
    regroup = append_assoc pre (tag ∷ []) (le_bytes n 0 v ++ post)

    moved : length (pre ++ (tag ∷ [])) ≡ length pre + 1
    moved = length-append pre (tag ∷ [])

tag-read :
    (pre : List ℕ) (tag : ℕ) (rest post : List ℕ)
    → get_or (around pre (tag ∷ rest) post) (length pre) 0 ≡ tag
tag-read pre tag rest post =
    ap (λ k. get_or (around pre (tag ∷ rest) post) k 0) (omega arith)
    ∙ get_or-append_right pre (tag ∷ (rest ++ post)) 0 0

-- The width that a tag byte announces.
abbrev Announces : ℕ → ℕ → Type 0
Announces tag n = ((tag ≡ 0xfd) × (n ≡ 2)) ⊎ ((tag ≡ 0xfe) × (n ≡ 4)) ⊎ ((tag ≡ 0xff) × (n ≡ 8))

-- A varint is one byte, or a tag and as many bytes as it announces.
varint-cases :
    (v : ℕ)
    → IsU64 v
    → ((v < 0xfd) × (varint v ≡ v ∷ []))
      ⊎ ((tag : ℕ) × (n : ℕ) × (varint v ≡ tag ∷ le_bytes n 0 v)
          × Announces tag n
          × (v < 2 ^ (8 * n)))
unfolding varint
varint-cases v small = elim (Bool-cases (ltb v 0xfd)) [
  | inl one ↦ inl (ltb→lt v 0xfd one, rw one)
  | inr more ↦ elim (Bool-cases (leb v 0xffff)) [
    | inl two ↦ inr (0xfd, 2, rw (more, two), inl (refl, refl), omega (arith, leb→le v 0xffff two))
    | inr more2 ↦ elim (Bool-cases (leb v 0xffffffff)) [
      | inl four ↦ inr (
        0xfe,
        4,
        rw (more, more2, four),
        inr (inl (refl, refl)),
        omega (arith, leb→le v 0xffffffff four),
      )
      | inr eight ↦ inr (0xff, 8, rw (more, more2, eight), inr (inr (refl, refl)), small)
    ]
  ]
]

-- `rd_varint` reads back what `bbuf_push_varint` wrote, in each of the four encodings, and moves
-- past exactly its bytes.
pub rd_varint-varint :
    (pre : List ℕ) (v : ℕ) (post : List ℕ)
    → IsU64 v
    → length (around pre (varint v) post) < 2 ^ 63
    → rd_varint (around pre (varint v) post) (length pre) ≡ some (v, length pre + length (varint v))
unfolding rd_varint
rd_varint-varint pre v post small short = elim (varint-cases v small) [
  | inl (lt, e) ↦
      rw e (ground (arith, length-around pre (v ∷ []) post, tag-read pre v [] post, rw e at short))
  | inr (tag, n, e, tagged, fits) ↦ rw e (
      ground (
        arith,
        length-around pre (tag ∷ le_bytes n 0 v) post,
        length-le_bytes n 0 v,
        tag-read pre tag (le_bytes n 0 v) post,
        rd_le_tagged pre tag n v post,
        mod-eq_of_lt fits,
        rw e at short,
      ))
]
