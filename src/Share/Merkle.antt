-- ===== src/Share/Merkle.antt =====
-- The branches that src/main.c computes for the coinbase, against the whole merkle tree.
use simplepool.Prelude.{
  ℕ, zero, suc, ◌+◌, ◌≤◌, ◌%◌, ◌≡◌, refl, sym, ap, ◌∙◌, subst, Bool, true, false, ◌==◌,
  if◌then◌else◌, Option, none, some, List, [], ◌∷◌, ◌++◌, arith, length, replicate,
}
use simplepool.Share.{
  dsha256, merkle_root_from_branches, next_level, branch_loop, compute_merkle_branches_for_idx0,
}

module _ (sha256 : List ℕ → List ℕ) where
  -- The merkle tree of Bitcoin: a level with an odd number of nodes has its last node twice, and
  -- then the nodes are hashed in pairs.
  unfoldable pub last_twice : List ℕ → List (List ℕ) → List (List ℕ)
  last_twice x [] = x ∷ x ∷ []
  last_twice x (y ∷ ys) = x ∷ last_twice y ys

  unfoldable pub made_even : List (List ℕ) → List (List ℕ)
  made_even [] = []
  made_even (x ∷ xs) = if length (x ∷ xs) % 2 == 1 then last_twice x xs else x ∷ xs

  unfoldable pub hashed_pairs : List (List ℕ) → List (List ℕ)
  hashed_pairs [] = []
  hashed_pairs (x ∷ []) = []
  hashed_pairs (x ∷ y ∷ rest) = sha256 (sha256 (x ++ y)) ∷ hashed_pairs rest

  -- The root of a block's transactions: level by level, until one node is left.
  unfoldable pub merkle_root : ℕ → List (List ℕ) → Option (List ℕ)
  merkle_root zero level = none
  merkle_root (suc fuel) [] = none
  merkle_root (suc fuel) (x ∷ []) = some x
  merkle_root (suc fuel) (x ∷ y ∷ rest) = merkle_root fuel (hashed_pairs (made_even (x ∷ y ∷ rest)))

  -- Two nodes in front do not change which node stands twice.
  made_even-two :
      (x y : List ℕ) (rest : List (List ℕ))
      → hashed_pairs (made_even (x ∷ y ∷ rest))
        ≡ sha256 (sha256 (x ++ y)) ∷ hashed_pairs (made_even rest)
  unfolding made_even hashed_pairs last_twice
  made_even-two x y [] = refl
  made_even-two x y (z ∷ zs) =
      let odd : ℕ → Bool = λ n. n % 2 == 1 in
      subst
        (λ b.
          hashed_pairs (if b then x ∷ y ∷ last_twice z zs else x ∷ y ∷ z ∷ zs)
          ≡ sha256 (sha256 (x ++ y))
            ∷ hashed_pairs (if odd (length (z ∷ zs)) then last_twice z zs else z ∷ zs))
        (ap (λ n. n == 1) {x = length (z ∷ zs) % 2} {y = length (x ∷ y ∷ z ∷ zs) % 2} (omega arith))
        (either (odd (length (z ∷ zs))))
    where
      either :
          (b : Bool)
          → hashed_pairs (if b then x ∷ y ∷ last_twice z zs else x ∷ y ∷ z ∷ zs)
            ≡ sha256 (sha256 (x ++ y)) ∷ hashed_pairs (if b then last_twice z zs else z ∷ zs)
      either true = refl
      either false = refl

  -- The code's next level is that of the tree.
  next_level-hashed_pairs :
      (xs : List (List ℕ)) → next_level sha256 xs ≡ hashed_pairs (made_even xs)
  unfolding next_level dsha256 made_even hashed_pairs last_twice
  next_level-hashed_pairs [] = refl
  next_level-hashed_pairs (x ∷ []) = refl
  next_level-hashed_pairs (x ∷ y ∷ rest) =
      ap (λ zs. sha256 (sha256 (x ++ y)) ∷ zs) (next_level-hashed_pairs rest)
      ∙ sym (made_even-two x y rest)

  -- A level is at least halved.
  length-next_level :
      (xs : List (List ℕ))
      → length (next_level sha256 xs) + length (next_level sha256 xs) ≤ length xs + 1
  unfolding next_level
  length-next_level [] = omega arith
  length-next_level (x ∷ []) = omega arith
  length-next_level (x ∷ y ∷ rest) = omega (arith, length-next_level rest)

  merkle_root-step :
      (fuel : ℕ) (x y : List ℕ) (rest : List (List ℕ))
      → merkle_root (suc fuel) (x ∷ y ∷ rest)
        ≡ merkle_root fuel (dsha256 sha256 (x ++ y) ∷ next_level sha256 rest)
  unfolding merkle_root next_level
  merkle_root-step fuel x y rest =
      ap (merkle_root fuel) (sym (next_level-hashed_pairs (x ∷ y ∷ rest)))

  -- The branches do not read node 0, and from any leaf they lead to the root of its tree.
  BranchesOf : ℕ → List ℕ → List (List ℕ) → Type 0
  BranchesOf fuel p rest =
      (bs : List (List ℕ)) × (branch_loop sha256 fuel (p ∷ rest) ≡ some bs)
      × ((leaf : List ℕ)
          → merkle_root fuel (leaf ∷ rest) ≡ some (merkle_root_from_branches sha256 leaf bs))

  branch_loop-root :
      (fuel : ℕ) (p : List ℕ) (rest : List (List ℕ))
      → length rest + 1 ≤ fuel
      → BranchesOf fuel p rest
  unfolding BranchesOf branch_loop merkle_root merkle_root_from_branches next_level
  branch_loop-root zero p rest h = absurd (omega arith)
  branch_loop-root (suc fuel) p [] h = ([], refl, λ leaf. refl)
  branch_loop-root (suc fuel) p (y ∷ rest) h =
      let (bs, e, r) =
        branch_loop-root fuel (dsha256 sha256 (p ++ y)) (next_level sha256 rest)
          (omega (arith, length-next_level rest)) in
      (
        y ∷ bs,
        rw e refl,
        λ leaf. merkle_root-step fuel leaf y rest ∙ r (dsha256 sha256 (leaf ++ y)),
      )

  -- For any transactions and any coinbase hash the loop ends, and folding its branches over that
  -- hash gives the merkle root of the block that has this coinbase before the transactions: the
  -- root of the tree in which a level with an odd number of nodes has its last node twice. The
  -- buffer is taken to be allocated.
  pub compute_merkle_branches-root :
      (txids : List (List ℕ)) (leaf : List ℕ)
      → (bs : List (List ℕ)) × (compute_merkle_branches_for_idx0 sha256 true txids ≡ some bs)
        × (merkle_root (length txids + 1) (leaf ∷ txids)
            ≡ some (merkle_root_from_branches sha256 leaf bs))
  unfolding compute_merkle_branches_for_idx0 merkle_root merkle_root_from_branches BranchesOf
  compute_merkle_branches-root [] leaf = ([], refl, refl)
  compute_merkle_branches-root (y ∷ rest) leaf =
      let (bs, made, root) =
        branch_loop-root (length (y ∷ rest) + 1) (replicate 32 0) (y ∷ rest) (omega arith) in
      (bs, made, root leaf)
