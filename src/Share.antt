-- ===== src/Share.antt =====
-- The share arithmetic of src/share.c without its doubles: compact targets, the merkle fold, the
-- block header and its hash, and the merkle branches that src/main.c computes for a template.
-- `sha256` is the primitive of src/sha256.c, a parameter.

pub mod Target
mod Tests
pub mod Merkle
pub mod Compare
pub mod Header
pub mod Difficulty
use simplepool.Prelude.{
  ℕ, zero, suc, ◌+◌, ◌-◌, ◌*◌, ◌/◌, ◌%◌, ◌^◌, Bool, true, false, ◌||◌, Option, none, some, List, [],
  ◌∷◌, ◌++◌, ltb, leb, ◌==◌, if◌then◌else◌, length, set, get_or, replicate,
}
use simplepool.Bytes.{u32_le, add_size}

-- `p[i] = v`; `none` where `i` is outside the array, which C leaves undefined.
unfoldable pub store_at : List ℕ → ℕ → ℕ → Option (List ℕ)
store_at p i v = if ltb i (length p) then some (set p i v) else none

-- Three bytes from `off` on, most significant first.
unfoldable pub store_three : List ℕ → ℕ → ℕ → Option (List ℕ)
unfolding store_at
store_three p off v = elim (store_at p off (v / 2 ^ 16 % 256)) [
  | none ↦ none
  | some p1 ↦ elim (store_at p1 (add_size off 1) (v / 2 ^ 8 % 256)) [
    | none ↦ none
    | some p2 ↦ store_at p2 (add_size off 2) (v % 256)
  ]
]

-- `32u - (size_t)exp`, which wraps.
abbrev pub target_offset : ℕ → ℕ
target_offset exp = (2 ^ 64 + 32 - exp) % 2 ^ 64

-- The mantissa put where the exponent says; `none` for a write outside the 32 bytes.
unfoldable pub store_mantissa : ℕ → ℕ → Option (List ℕ)
store_mantissa exp mant =
    if leb exp 3
    then store_three (replicate 32 0) 29 (mant / 2 ^ (8 * (3 - exp)))
    else if leb (add_size (target_offset exp) 3) 32
    then store_three (replicate 32 0) (target_offset exp) mant
    else some (replicate 32 0)

-- The 32 bytes of a compact target, most significant first.
unfoldable pub nbits_to_target : ℕ → Option (List ℕ)
nbits_to_target nbits =
    let exp = nbits / 2 ^ 24 % 256 in
    let mant = nbits % 2 ^ 23 in
    let negative = nbits / 2 ^ 23 % 2 == 1 in
    if mant == 0 || negative then some (replicate 32 0) else store_mantissa exp mant

-- -1, 0 or 1 as the first byte that differs; here the three constructors.
pub data Order : Type 0 where
  below : Order
  same : Order
  above : Order

unfoldable pub be32_cmp : List ℕ → List ℕ → Order
be32_cmp [] bs = Order.same
be32_cmp (a ∷ as') [] = Order.same
be32_cmp (a ∷ as') (b ∷ bs) =
    if ltb a b then Order.below else if ltb b a then Order.above else be32_cmp as' bs

-- `version`, `ntime`, `nbits` and `nonce` as the 32-bit words they are stored as.
unfoldable pub build_header : ℕ → List ℕ → List ℕ → ℕ → ℕ → ℕ → List ℕ
build_header version prev_hash merkle_root ntime nbits nonce =
    u32_le version ++ prev_hash ++ merkle_root ++ u32_le ntime ++ u32_le nbits ++ u32_le nonce

unfoldable pub reverse_onto : List ℕ → List ℕ → List ℕ
reverse_onto [] acc = acc
reverse_onto (x ∷ xs) acc = reverse_onto xs (x ∷ acc)

module _ (sha256 : List ℕ → List ℕ) where
  unfoldable pub dsha256 : List ℕ → List ℕ
  dsha256 bytes = sha256 (sha256 bytes)

  unfoldable pub hash_header : List ℕ → List ℕ
  unfolding dsha256 reverse_onto
  hash_header header = reverse_onto (dsha256 header) []

  unfoldable pub merkle_root_from_branches : List ℕ → List (List ℕ) → List ℕ
  unfolding dsha256
  merkle_root_from_branches cur [] = cur
  merkle_root_from_branches cur (b ∷ bs) = merkle_root_from_branches (dsha256 (cur ++ b)) bs

  -- The next level: a node without a sibling is paired with itself.
  unfoldable pub next_level : List (List ℕ) → List (List ℕ)
  unfolding dsha256
  next_level [] = []
  next_level (x ∷ []) = dsha256 (x ++ x) ∷ []
  next_level (x ∷ y ∷ rest) = dsha256 (x ++ y) ∷ next_level rest

  -- The `while (n > 1)` loop, which notes the sibling of node 0 at each level; `none` is fuel that
  -- ran out.
  unfoldable pub branch_loop : ℕ → List (List ℕ) → Option (List (List ℕ))
  unfolding next_level
  branch_loop zero level = none
  branch_loop (suc fuel) [] = some []
  branch_loop (suc fuel) (x ∷ []) = some []
  branch_loop (suc fuel) (x ∷ y ∷ rest) = elim (branch_loop fuel (next_level (x ∷ y ∷ rest))) [
    | none ↦ none
    | some bs ↦ some (y ∷ bs)
  ]

  -- `calloc_ok` says whether the working buffer was allocated; without it there are no branches.
  unfoldable pub compute_merkle_branches_for_idx0 : Bool → List (List ℕ) → Option (List (List ℕ))
  compute_merkle_branches_for_idx0 calloc_ok [] = some []
  compute_merkle_branches_for_idx0 false (y ∷ rest) = some []
  compute_merkle_branches_for_idx0 true (y ∷ rest) =
      branch_loop (length (y ∷ rest) + 1) (replicate 32 0 ∷ y ∷ rest)
