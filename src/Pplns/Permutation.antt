-- ===== src/Pplns/Permutation.antt =====
-- `pplns_order_claims` never loses a claim and never pays one twice.
use simplepool.Pplns.Marks.{
  count, bit, count-append, marked, bit-set, count_idx, Within, count_idx-sort, sort-Within,
  rank_from-Within, count_idx-rank_from, Placed, nothing-Placed, one-Placed,
}
use simplepool.Prelude.{
  ℕ, zero, suc, ◌+◌, ◌-◌, ◌≤◌, ◌<◌, ◌≡◌, ◌≢◌, refl, ◌∙◌, ◌⊎◌, inl, inr, Bool, true, false, ◌&&◌,
  Option, some, List, [], ◌∷◌, ◌++◌, arith, ltb, leb, ◌==◌, ==_iff, if◌then◌else◌, length,
  length-append, length-replicate, length-set, get_or, set, replicate, Bool-cases,
}
use simplepool.Prelude.Int.{ℤ, pos}
use simplepool.Double.{DoubleOps}
use simplepool.Window.{clamp_floor}
use simplepool.Pplns.{
  Claim, Rank, sort_ranks, rank_from, place_owed, place_rest, reserved_slots, is_payable,
  pplns_order_claims,
}

-- How often an index occurs.
module _ (fl : DoubleOps) where
  open fl use {of_ℤ, le}

  pub place_owed-Placed :
      (payable : ℕ → Bool) (rs : List (Rank fl)) (room : ℕ) (placed : List Bool)
      → Within fl (length placed) rs
      → ((i : ℕ) → count_idx fl i rs + bit (get_or placed i false) ≤ 1)
      → let (order, placed') = place_owed fl payable rs room placed in Placed placed order placed'
  unfolding place_owed Within count_idx
  place_owed-Placed payable [] room placed w free = nothing-Placed placed
  place_owed-Placed payable (r ∷ rs) room placed w free = elim (Bool-cases (room == 0)) [
    | inl done ↦ rw done (nothing-Placed placed)
    | inr more ↦ elim (Bool-cases (le r.key (of_ℤ (pos 0)))) [
      | inl settled ↦ rw (more, settled) (nothing-Placed placed)
      | inr owed ↦ elim (Bool-cases (payable r.idx)) [
        | inl good ↦
            let new : get_or placed r.idx false ≡ false = ground (arith, free r.idx) in
            rw (more, owed, good)
              (one-Placed placed _ r.idx _ w.0 new (
                place_owed-Placed payable rs (room - 1) (set placed r.idx true)
                  (rw (length-set placed r.idx true) w.1)
                  (λ i. omega (arith, free i, bit-set placed i r.idx w.0 new))))
        | inr bad ↦
            rw (more, owed, bad)
              (place_owed-Placed payable rs room placed w.1 (λ i. omega (arith, free i)))
      ]
    ]
  ]

  place_rest-Placed :
      (rs : List (Rank fl)) (placed : List Bool)
      → Within fl (length placed) rs
      → let (order, placed') = place_rest fl rs placed in Placed placed order placed'
  unfolding place_rest Within
  place_rest-Placed [] placed w = nothing-Placed placed
  place_rest-Placed (r ∷ rs) placed w = elim (Bool-cases (get_or placed r.idx false)) [
    | inl old ↦ rw old (place_rest-Placed rs placed w.1)
    | inr new ↦ rw new (
        one-Placed placed _ r.idx _ w.0 new
          (place_rest-Placed rs (set placed r.idx true) (rw (length-set placed r.idx true) w.1)))
  ]

  -- Every index of the ranks is marked in the end.
  place_rest-covers :
      (rs : List (Rank fl)) (placed : List Bool) (i : ℕ)
      → Within fl (length placed) rs
      → (count_idx fl i rs ≢ 0) ⊎ (get_or placed i false ≡ true)
      → get_or (place_rest fl rs placed).1 i false ≡ true
  unfolding place_rest Within count_idx
  place_rest-covers [] placed i w (inl h) = absurd (h refl)
  place_rest-covers [] placed i w (inr h) = h
  place_rest-covers (r ∷ rs) placed i w c = elim (Bool-cases (get_or placed r.idx false)) [
    | inl old ↦ rw old (
        place_rest-covers rs placed i w.1 (elim (Bool-cases (get_or placed i false)) [
          | inl marked_i ↦ inr marked_i
          | inr free_i ↦ inl (λ z. ground arith)
        ]))
    | inr new ↦
        let step = bit-set placed i r.idx w.0 new in
        rw new (
          place_rest-covers rs (set placed r.idx true) i (rw (length-set placed r.idx true) w.1)
            (elim (Bool-cases (get_or (set placed r.idx true) i false)) [
              | inl marked_i ↦ inr marked_i
              | inr free_i ↦ inl (λ z. ground arith)
            ]))
  ]

pub unmarked : (n i : ℕ) → get_or (replicate n false) i false ≡ false
unmarked zero i = refl
unmarked (suc n) zero = refl
unmarked (suc n) (suc i) = unmarked n i

marked-replicate : (n : ℕ) → marked (replicate n false) ≡ 0
unfolding marked
marked-replicate zero = refl
marked-replicate (suc n) = omega (arith, marked-replicate n)

marked_all :
    (bs : List Bool) → ((i : ℕ) → i < length bs → get_or bs i false ≡ true) → marked bs ≡ length bs
unfolding marked
marked_all [] h = refl
marked_all (b ∷ bs) h =
    let head : b ≡ true = h 0 (omega arith) in
    let tail = marked_all bs (λ i l. h (suc i) (omega arith)) in ground arith

-- The order, with every index at once.
order_whole :
    (fl : DoubleOps) (claims : List (Claim fl)) (expected_slots : ℕ) (amounts : Option (List ℤ))
    (floor : ℤ)
    → claims ≢ []
    → (order : List ℕ) × (pplns_order_claims fl claims expected_slots amounts floor ≡ some order)
      × (length order ≡ length claims)
      × ((i : ℕ) → i < length claims → count i order ≡ 1)
unfolding pplns_order_claims
order_whole fl [] expected_slots amounts floor ne = absurd (ne refl)
order_whole fl (c ∷ cs) expected_slots amounts floor ne =
    let claims : List (Claim fl) = c ∷ cs in
    let n : ℕ = length claims in
    let start : List Bool = replicate n false in
    let wide = length-replicate n false in
    let by_size = sort_ranks fl (rank_from fl (λ (d : Claim fl). d.difficulty) 0 claims) in
    let by_owed = sort_ranks fl (rank_from fl (λ (d : Claim fl). d.owed_fraction) 0 claims) in
    let payable : ℕ → Bool = is_payable amounts (clamp_floor floor) in
    let first = place_owed fl payable by_owed (reserved_slots n expected_slots) start in
    let second = place_rest fl by_size first.1 in
    let inside : (key : Claim fl → fl.Double)
        → Within fl n (sort_ranks fl (rank_from fl key 0 claims)) =
      λ key. sort-Within fl n _ (rank_from-Within fl key claims 0 n (omega arith)) in
    let once : (key : Claim fl → fl.Double) (i : ℕ)
        → count_idx fl i (sort_ranks fl (rank_from fl key 0 claims))
          ≡ (if leb 0 i && ltb i (0 + n) then 1 else 0) =
      λ key i. count_idx-sort fl i _ ∙ count_idx-rank_from fl key claims 0 i in
    let p1 =
      place_owed-Placed fl payable by_owed (reserved_slots n expected_slots) start
        (rw wide (inside (λ (d : Claim fl). d.owed_fraction)))
        (λ i. ground (arith, once (λ (d : Claim fl). d.owed_fraction) i, unmarked n i)) in
    let w2 : Within fl (length first.1) by_size =
      rw (p1.size, wide) (inside (λ (d : Claim fl). d.difficulty)) in
    let p2 = place_rest-Placed fl by_size first.1 w2 in
    let all_set : (i : ℕ) → i < n → get_or second.1 i false ≡ true = λ i h.
      place_rest-covers fl by_size first.1 i w2
        (inl (λ z. ground (arith, once (λ (d : Claim fl). d.difficulty) i))) in
    let long : length second.1 ≡ n = p2.size ∙ p1.size ∙ wide in
    let full = marked_all second.1 (λ i h. all_set i (omega arith)) in
    let size : length (first.0 ++ second.0) ≡ n =
      omega (arith, length-append first.0 second.0, p1.books, p2.books, full, marked-replicate n) in
    (
      first.0 ++ second.0,
      rw ((==_iff (length (first.0 ++ second.0)) n).1 size) (ground arith),
      size,
      λ i h. ground (
        arith,
        count-append i first.0 second.0,
        p1.moved i,
        p2.moved i,
        unmarked n i,
        all_set i h,
      ),
    )

-- Whatever the claims are owed and whatever they are worth, an order is made, has as many entries
-- as there are claims, and holds the index of each claim exactly once.
pub order-permutation :
    (fl : DoubleOps) (claims : List (Claim fl)) (expected_slots : ℕ) (amounts : Option (List ℤ))
    (floor : ℤ) (i : ℕ)
    → i < length claims
    → (order : List ℕ) × (pplns_order_claims fl claims expected_slots amounts floor ≡ some order)
      × (length order ≡ length claims)
      × (count i order ≡ 1)
order-permutation fl [] expected_slots amounts floor i h = absurd (omega arith)
order-permutation fl (c ∷ cs) expected_slots amounts floor i h =
    let (order, made, size, once) =
      order_whole fl (c ∷ cs) expected_slots amounts floor (λ e. ground arith) in
    (order, made, size, once i h)
