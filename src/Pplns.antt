-- ===== src/Pplns.antt =====
-- src/pplns.c: a PPLNS window as coinbase payees, and the order in which they are paid.
mod Tests
pub mod Exact
pub mod Agreement
pub mod Marks
pub mod Permutation
pub mod Ranking
pub mod Fee
pub mod Reservation
use simplepool.Prelude.{
  ℕ, zero, suc, ◌+◌, ◌-◌, ◌*◌, ◌/◌, Bool, true, false, ◌&&◌, ◌||◌, not, Option, none, some, List,
  [], ◌∷◌, ◌++◌, ltb, leb, ◌==◌, if◌then◌else◌, length, get_or, set, replicate,
}
use simplepool.Prelude.Int.{ℤ, pos, negsuc, ◌+ℤ◌, ◌-ℤ◌, ltb_ℤ}
use simplepool.Double.{DoubleOps}
use simplepool.Window.{Payee, dust_sats, fee_share, clamp_floor}

-- `pplns_claim_t`.
pub record Claim (fl : DoubleOps) : Type 0 where
  pub payout_address : Option (List ℕ)
  pub difficulty : fl.Double
  pub worker_id : ℤ
  pub owed_fraction : fl.Double

-- `pplns_split_t`.
pub record Split : Type 0 where
  pub fee_sats : ℤ
  pub payable_sats : ℤ
  pub below_floor : ℕ

-- ---------- pplns_split_window ----------

-- The fee off the top, dropped below the dust limit.
unfoldable pub split_fee : ℤ → ℤ → Bool → ℤ
split_fee reward_sats fee_bps have_operator =
    let f = fee_share reward_sats fee_bps in
    if have_operator && ltb_ℤ (pos 0) fee_bps && not (ltb_ℤ f (pos dust_sats)) then f else pos 0

-- `if (out[i].sats < floor_sats) r.below_floor++;` over all payees.
unfoldable pub count_below : ℤ → List Payee → ℕ
count_below floor [] = 0
count_below floor (pe ∷ pes) = (if ltb_ℤ pe.sats floor then 1 else 0) + count_below floor pes

-- `out[0].sats += extra;`
unfoldable pub add_first : List Payee → ℤ → List Payee
add_first [] extra = []
add_first (pe ∷ pes) extra = record pe { sats = pe.sats +ℤ extra } ∷ pes

module _ (fl : DoubleOps) where
  open fl use {of_ℤ, to_ℤ, mul, div, lt, le}

  -- The proportional part of one claim; `none` for a claim with no difficulty or a negative part.
  unfoldable pub divide_claim : ℤ → fl.Double → Claim fl → Option Payee
  divide_claim payable total_diff c =
      let sats = to_ℤ (mul (of_ℤ payable) (div c.difficulty total_diff)) in
      if not (le (of_ℤ (pos 0)) c.difficulty)
      then none
      else if ltb_ℤ sats (pos 0)
      then none
      else some (record { address = c.payout_address; sats = sats })

  -- The loop over the claims: the payees, and `assigned`.
  unfoldable pub divide_claims : ℤ → fl.Double → List (Claim fl) → ℤ → Option (List Payee × ℤ)
  divide_claims payable total_diff [] assigned = some ([], assigned)
  divide_claims payable total_diff (c ∷ cs) assigned = elim (divide_claim payable total_diff c) [
    | none ↦ none
    | some pe ↦ elim (divide_claims payable total_diff cs (assigned +ℤ pe.sats)) [
      | none ↦ none
      | some (pes, total) ↦ some (pe ∷ pes, total)
    ]
  ]

  -- `capacity` is `cap`; `none` is the -1 of every refusal.
  unfoldable pub pplns_split_window :
      ℤ → ℤ → Bool → List (Claim fl) → fl.Double → ℤ → ℕ → Option (List Payee × Split)
  pplns_split_window reward_sats fee_bps have_operator claims total_diff payout_floor_sats
        capacity =
      let fee = split_fee reward_sats fee_bps have_operator in
      let payable = reward_sats -ℤ fee in
      if length claims == 0 || ltb capacity (length claims)
      then none
      else if not (lt (of_ℤ (pos 0)) total_diff)
      then none
      else if not (ltb_ℤ (pos 0) reward_sats)
      then none
      else if not (ltb_ℤ (pos 0) payable)
      then none
      else elim (divide_claims payable total_diff claims (pos 0)) [
        | none ↦ none
        | some (pes, assigned) ↦
            if ltb_ℤ payable assigned
            then none
            else let out =
                if ltb_ℤ assigned payable then add_first pes (payable -ℤ assigned) else pes in
              some (
                out,
                record {
                  fee_sats = fee;
                  payable_sats = payable;
                  below_floor = count_below (clamp_floor payout_floor_sats) out;
                },
              )
      ]

  -- ---------- pplns_order_claims ----------

  -- `rank_t`.
  pub record Rank : Type 0 where
    pub idx : ℕ
    pub key : fl.Double

  unfoldable pub rank_desc : Rank → Rank → ℤ
  rank_desc x y =
      if lt x.key y.key
      then pos 1
      else if lt y.key x.key
      then negsuc 0
      else if ltb x.idx y.idx
      then negsuc 0
      else if ltb y.idx x.idx
      then pos 1
      else pos 0

  -- `qsort` with `rank_desc`, as an insertion sort: ties fall to the index, so that every sorting
  -- algorithm gives the same array.
  unfoldable pub insert_rank : Rank → List Rank → List Rank
  insert_rank r [] = r ∷ []
  insert_rank r (s ∷ rs) =
      let later = s ∷ insert_rank r rs in
      if ltb_ℤ (pos 0) (rank_desc r s) then later else r ∷ s ∷ rs

  unfoldable pub sort_ranks : List Rank → List Rank
  sort_ranks [] = []
  sort_ranks (r ∷ rs) = insert_rank r (sort_ranks rs)

  -- `ranks[i].idx = i; ranks[i].key = key(claims[i]);` from index `i` on.
  unfoldable pub rank_from : (Claim fl → fl.Double) → ℕ → List (Claim fl) → List Rank
  rank_from key i [] = []
  rank_from key i (c ∷ cs) = record { idx = i; key = key c } ∷ rank_from key (i + 1) cs

  -- The reserved slots. `room` is `reserved - n`, and `payable i` says that the floor lets claim
  -- `i` be paid. The order so far and the `placed` marks.
  unfoldable pub place_owed : (ℕ → Bool) → List Rank → ℕ → List Bool → List ℕ × List Bool
  place_owed payable [] room placed = ([], placed)
  place_owed payable (r ∷ rs) room placed =
      let skip = place_owed payable rs room placed in
      let (order, placed') = place_owed payable rs (room - 1) (set placed r.idx true) in
      if room == 0
      then ([], placed)
      else if le r.key (of_ℤ (pos 0))
      then ([], placed)
      else if not (payable r.idx)
      then skip
      else (r.idx ∷ order, placed')

  -- Everyone else, in the order of the ranks.
  unfoldable pub place_rest : List Rank → List Bool → List ℕ × List Bool
  place_rest [] placed = ([], placed)
  place_rest (r ∷ rs) placed =
      let skip = place_rest rs placed in
      let (order, placed') = place_rest rs (set placed r.idx true) in
      if get_or placed r.idx false then skip else (r.idx ∷ order, placed')

-- How many slots are held back.
unfoldable pub reserved_slots : ℕ → ℕ → ℕ
reserved_slots n_claims expected_slots =
    let slots = (if ltb n_claims expected_slots then n_claims else expected_slots) in
    let reserved = slots * 1 / 4 in
    if leb slots reserved && ltb 0 slots then slots - 1 else reserved

-- `!(amounts && amounts[i].sats < floor_sats)`; `none` is a NULL `amounts`.
unfoldable pub is_payable : Option (List ℤ) → ℤ → ℕ → Bool
is_payable none floor i = true
is_payable (some amounts) floor i = not (ltb_ℤ (get_or amounts i (pos 0)) floor)

module _ (fl : DoubleOps) where
  unfoldable pub pplns_order_claims : List (Claim fl) → ℕ → Option (List ℤ) → ℤ → Option (List ℕ)
  pplns_order_claims claims expected_slots amounts payout_floor_sats =
      let n = length claims in
      let by_size = sort_ranks fl (rank_from fl (λ c. c.difficulty) 0 claims) in
      let by_owed = sort_ranks fl (rank_from fl (λ c. c.owed_fraction) 0 claims) in
      let (front, placed) =
        place_owed fl (is_payable amounts (clamp_floor payout_floor_sats)) by_owed
          (reserved_slots n expected_slots) (replicate n false) in
      let (rest, _) = place_rest fl by_size placed in
      let order = front ++ rest in
      if n == 0 then none else if length order == n then some order else none
