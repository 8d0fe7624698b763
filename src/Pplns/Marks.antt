-- ===== src/Pplns/Marks.antt =====
-- Counting indices in an order, and the `placed` marks of src/pplns.c that keep them apart.
use simplepool.Prelude.{
  ℕ, zero, suc, ◌+◌, ◌≤◌, ◌<◌, ◌≡◌, refl, ◌∙◌, Bool, true, false, ◌&&◌, List, [], ◌∷◌, ◌++◌, arith,
  ltb, leb, ◌==◌, if◌then◌else◌, length, length-set, get_or, set, All,
}
use simplepool.Double.{DoubleOps}
use simplepool.Pplns.{Claim, Rank, insert_rank, sort_ranks, rank_from}

unfoldable pub count : ℕ → List ℕ → ℕ
count i [] = 0
count i (j ∷ js) = (if j == i then 1 else 0) + count i js

abbrev pub bit : Bool → ℕ
bit b = if b then 1 else 0

pub count-append : (i : ℕ) (xs ys : List ℕ) → count i (xs ++ ys) ≡ count i xs + count i ys
unfolding count
count-append i [] ys = omega arith
count-append i (x ∷ xs) ys = omega (arith, count-append i xs ys)

-- The marks that are set.
unfoldable pub marked : List Bool → ℕ
marked [] = 0
marked (b ∷ bs) = bit b + marked bs

pub marked-set :
    (bs : List Bool) (i : ℕ)
    → i < length bs
    → get_or bs i false ≡ false
    → marked (set bs i true) ≡ marked bs + 1
unfolding marked
marked-set [] i h e = absurd (omega arith)
marked-set (b ∷ bs) zero h e = ground arith
marked-set (b ∷ bs) (suc i) h e = omega (arith, marked-set bs i (omega arith) e)

pub bit-set :
    (bs : List Bool) (i j : ℕ)
    → j < length bs
    → get_or bs j false ≡ false
    → bit (get_or (set bs j true) i false) ≡ bit (get_or bs i false) + (if j == i then 1 else 0)
bit-set [] i j h e = absurd (omega arith)
bit-set (b ∷ bs) zero zero h e = ground arith
bit-set (b ∷ bs) zero (suc j) h e = ground arith
bit-set (b ∷ bs) (suc i) zero h e = ground arith
bit-set (b ∷ bs) (suc i) (suc j) h e = ground (arith, bit-set bs i j)

module _ (fl : DoubleOps) where
  unfoldable pub count_idx : ℕ → List (Rank fl) → ℕ
  count_idx i [] = 0
  count_idx i (r ∷ rs) = (if r.idx == i then 1 else 0) + count_idx i rs

  unfoldable pub Within : ℕ → List (Rank fl) → Type 0
  Within n rs = All (λ r. r.idx < n) rs

  pub count_idx-insert :
      (i : ℕ) (r : Rank fl) (rs : List (Rank fl))
      → count_idx i (insert_rank fl r rs) ≡ (if r.idx == i then 1 else 0) + count_idx i rs
  unfolding count_idx insert_rank
  count_idx-insert i r [] = refl
  count_idx-insert i r (s ∷ rs) = ground (arith, count_idx-insert i r rs)

  pub count_idx-sort :
      (i : ℕ) (rs : List (Rank fl)) → count_idx i (sort_ranks fl rs) ≡ count_idx i rs
  unfolding count_idx sort_ranks
  count_idx-sort i [] = refl
  count_idx-sort i (r ∷ rs) =
      omega (arith, count_idx-insert i r (sort_ranks fl rs), count_idx-sort i rs)

  pub insert-Within :
      (n : ℕ) (r : Rank fl) (rs : List (Rank fl))
      → r.idx < n
      → Within n rs
      → Within n (insert_rank fl r rs)
  unfolding insert_rank Within
  insert-Within n r [] h w = (h, tt)
  insert-Within n r (s ∷ rs) h w = ground (arith, insert-Within n r rs h w.1)

  pub sort-Within : (n : ℕ) (rs : List (Rank fl)) → Within n rs → Within n (sort_ranks fl rs)
  unfolding sort_ranks Within
  sort-Within n [] w = tt
  sort-Within n (r ∷ rs) w = insert-Within n r (sort_ranks fl rs) w.0 (sort-Within n rs w.1)

  pub rank_from-Within :
      (key : Claim fl → fl.Double) (cs : List (Claim fl)) (i n : ℕ)
      → i + length cs ≤ n
      → Within n (rank_from fl key i cs)
  unfolding rank_from Within
  rank_from-Within key [] i n h = tt
  rank_from-Within key (c ∷ cs) i n h =
      (omega arith, rank_from-Within key cs (i + 1) n (omega arith))

  pub count_idx-rank_from :
      (key : Claim fl → fl.Double) (cs : List (Claim fl)) (i j : ℕ)
      → count_idx j (rank_from fl key i cs) ≡ (if leb i j && ltb j (i + length cs) then 1 else 0)
  unfolding rank_from count_idx
  count_idx-rank_from key [] i j = ground arith
  count_idx-rank_from key (c ∷ cs) i j = ground (arith, count_idx-rank_from key cs (i + 1) j)

-- What a placing loop does to the marks: each index in the order was unmarked and is marked now.
pub record Placed (placed : List Bool) (order : List ℕ) (placed' : List Bool) : Type 0 where
  pub moved : (i : ℕ) → count i order + bit (get_or placed i false) ≡ bit (get_or placed' i false)
  pub size : length placed' ≡ length placed
  pub books : length order + marked placed ≡ marked placed'

pub nothing-Placed : (placed : List Bool) → Placed placed [] placed
unfolding count
nothing-Placed placed = record { moved = λ i. omega arith; size = refl; books = omega arith }

pub one-Placed :
    (placed placed' : List Bool) (j : ℕ) (order : List ℕ)
    → j < length placed
    → get_or placed j false ≡ false
    → Placed (set placed j true) order placed'
    → Placed placed (j ∷ order) placed'
unfolding count
one-Placed placed placed' j order h e v = record {
  moved = λ i. omega (arith, v.moved i, bit-set placed i j h e);
  size = v.size ∙ length-set placed j true;
  books = omega (arith, v.books, marked-set placed j h e);
}
