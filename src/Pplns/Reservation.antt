-- ===== src/Pplns/Reservation.antt =====
-- Who gets a reserved slot in `pplns_order_claims` of src/pplns.c, and who comes after.
use simplepool.Prelude.{
  ℕ, ◌/◌, ◌≡◌, sym, ap, ◌∙◌, Bool, true, false, Option, some, List, ◌++◌, arith, ◌==◌, not, length,
  length-replicate, get_or, replicate, take, min,
}
use simplepool.Prelude.Int.{ℤ}
use simplepool.Double.{DoubleOps}
use simplepool.Window.{clamp_floor}
use simplepool.Pplns.{
  Claim, Rank, sort_ranks, rank_from, place_owed, place_rest, reserved_slots, is_payable,
  pplns_order_claims,
}
use simplepool.Pplns.Marks.{count, Within, sort-Within, rank_from-Within}
use simplepool.Pplns.Permutation.{place_owed-Placed, unmarked}
use simplepool.Pplns.Ranking.{
  IsRanking, sort-IsRanking, keep, keep-same, indices, owing, place_owed-owing, place_rest-others,
}

-- A quarter of the slots, rounded down.
reserved_slots-quarter : (n expected : ℕ) → reserved_slots n expected ≡ min n expected / 4
unfolding reserved_slots
reserved_slots-quarter n expected = ground arith

-- An order of payment as two rankings make it.
pub record IsReserved (fl : DoubleOps) (claims : List (Claim fl)) (slots : ℕ) (payable : ℕ → Bool)
    (order : List ℕ) : Type 0 where
  pub by_owed : List (Rank fl)
  pub by_size : List (Rank fl)
  pub owed : IsRanking fl (λ c. c.owed_fraction) claims by_owed
  pub size : IsRanking fl (λ c. c.difficulty) claims by_size
  pub front : List ℕ
  pub reserved : front ≡ take (slots / 4) (keep payable (owing fl by_owed))
  pub whole : order ≡ front ++ keep (λ i. count i front == 0) (indices fl by_size)

-- The order is a front of reserved slots and everyone else. The front are the first of those that
-- are owed most and that the floor lets be paid, down to whom nothing is owed, and at most a
-- quarter, rounded down, of the slots that the coinbase is expected to have; the others follow by
-- the difficulty that they gave, the largest first. Both rankings hold each claim once, and leave
-- equal claims as they came; it is assumed that no number is both less and more than another.
pub order-reservation :
    (fl : DoubleOps) (claims : List (Claim fl)) (expected_slots : ℕ) (amounts : Option (List ℤ))
    (floor : ℤ) (order : List ℕ)
    → ((x y : fl.Double) → fl.lt x y ≡ true → fl.lt y x ≡ false)
    → pplns_order_claims fl claims expected_slots amounts floor ≡ some order
    → IsReserved fl claims
        (min (length claims) expected_slots)
        (is_payable amounts (clamp_floor floor))
        order
unfolding pplns_order_claims
order-reservation fl claims expected_slots amounts floor order asym e =
    let n : ℕ = length claims in
    let start : List Bool = replicate n false in
    let wide = length-replicate n false in
    let payable : ℕ → Bool = is_payable amounts (clamp_floor floor) in
    let by_size = sort_ranks fl (rank_from fl (λ (c : Claim fl). c.difficulty) 0 claims) in
    let by_owed = sort_ranks fl (rank_from fl (λ (c : Claim fl). c.owed_fraction) 0 claims) in
    let room = reserved_slots n expected_slots in
    let first = place_owed fl payable by_owed room start in
    let second = place_rest fl by_size first.1 in
    let owed = sort-IsRanking fl asym (λ (c : Claim fl). c.owed_fraction) claims in
    let size = sort-IsRanking fl asym (λ (c : Claim fl). c.difficulty) claims in
    let inside : (key : Claim fl → fl.Double)
        → Within fl n (sort_ranks fl (rank_from fl key 0 claims)) =
      λ key. sort-Within fl n _ (rank_from-Within fl key claims 0 n (omega arith)) in
    let p =
      place_owed-Placed fl payable by_owed room start
        (rw wide (inside (λ (c : Claim fl). c.owed_fraction)))
        (λ i. ground (arith, owed.once i, unmarked n i)) in
    let others =
      place_rest-others fl by_size first.1
        (rw (p.size, wide) (inside (λ (c : Claim fl). c.difficulty)))
        (λ i. ground (arith, size.once i)) in
    let rest =
      others
      ∙ keep-same (λ i. not (get_or first.1 i false)) (λ i. count i first.0 == 0)
          (indices fl by_size) (λ i. ground (arith, p.moved i, unmarked n i)) in
    let same : first.0 ++ second.0 ≡ order = ground arith in
    record {
      by_owed = by_owed;
      by_size = by_size;
      owed = owed;
      size = size;
      front = first.0;
      reserved =
          place_owed-owing fl payable by_owed room start
          ∙ ap (λ k. take k (keep payable (owing fl by_owed)))
              (reserved_slots-quarter n expected_slots);
      whole = sym same ∙ ap (λ l. first.0 ++ l) rest;
    }
