-- ===== src/Pplns/Tests.antt =====
-- Runs of the window division and of the payment order, and their theorems at concrete claims.
use simplepool.Prelude.{ℕ, ◌≡◌, refl, true, false, none, some, List, [], ◌∷◌, arith, length}
use simplepool.Prelude.Int.{pos, ◌+ℤ◌, ◌-ℤ◌, ltb_ℤ}
use simplepool.Double.{fractions, Fraction}
use simplepool.Window.{Payee, fee_share, clamp_floor, claimed}
use simplepool.Window.Resolve.{fee_of}
use simplepool.Window.Tests.{opened, no_hash, alice, alice_script, window}
use simplepool.Pplns.{
  Claim, Split, split_fee, count_below, add_first, divide_claim, divide_claims, pplns_split_window,
  rank_desc, insert_rank, sort_ranks, rank_from, place_owed, place_rest, reserved_slots, is_payable,
  pplns_order_claims,
}
use simplepool.Pplns.Exact.{IsDivision, split-IsDivision}
use simplepool.Pplns.Agreement.{builder-accepts-split}
use simplepool.Pplns.Permutation.{order-permutation}
use simplepool.Pplns.Marks.{count}
use simplepool.Pplns.Reservation.{IsReserved, order-reservation}

abbrev claim : ℕ → ℕ → Claim fractions
claim difficulty owed = record {
  payout_address = some alice;
  difficulty = record { num = pos difficulty; den = 1 };
  worker_id = pos 1;
  owed_fraction = record { num = pos owed; den = 1 };
}

abbrev two_claims : List (Claim fractions)
two_claims = claim 2 0 ∷ claim 1 0 ∷ []

abbrev three : Fraction
three = record { num = pos 3; den = 1 }

abbrev two_payees : List Payee
two_payees =
    record { address = some alice; sats = pos 65334 }
    ∷ record { address = some alice; sats = pos 32666 }
    ∷ []

abbrev two_split : Split
two_split = record { fee_sats = pos 2000; payable_sats = pos 98000; below_floor = 0 }

divided :
    pplns_split_window fractions (pos 100000) (pos 200) true two_claims three (pos 0) 200
    ≡ some (two_payees, two_split)
unfolding pplns_split_window divide_claims divide_claim split_fee add_first count_below fee_share
    clamp_floor ◌+ℤ◌ ◌-ℤ◌ ltb_ℤ
divided = refl

split-IsDivision_example :
    IsDivision fractions (pos 100000) (pos 200) true two_claims (pos 0) two_payees two_split
split-IsDivision_example =
    split-IsDivision fractions (pos 100000) (pos 200) true two_claims three (pos 0) 200 two_payees
      two_split divided

builder-accepts-split_example :
    claimed two_payees (pos 0)
    ≡ some (pos 100000 -ℤ fee_of (some (record { spk = alice_script; sats = pos 2000 })))
unfolding opened
builder-accepts-split_example =
    builder-accepts-split fractions no_hash (record window { payees = two_payees })
      (some (record { spk = alice_script; sats = pos 2000 })) two_claims three (pos 0) 200 two_split
      divided (refl, (refl, tt)) refl

-- Eight slots: two are held back for the claims that are owed most.
abbrev many_claims : List (Claim fractions)
many_claims =
    claim 9 0
    ∷ claim 8 0
    ∷ claim 7 0
    ∷ claim 6 0
    ∷ claim 5 0
    ∷ claim 4 0
    ∷ claim 3 5
    ∷ claim 2 6
    ∷ []

many_order :
    pplns_order_claims fractions many_claims 8 none (pos 0)
    ≡ some (7 ∷ 6 ∷ 0 ∷ 1 ∷ 2 ∷ 3 ∷ 4 ∷ 5 ∷ [])
unfolding pplns_order_claims sort_ranks insert_rank rank_desc rank_from place_owed place_rest
    reserved_slots is_payable clamp_floor ltb_ℤ
many_order = refl

order-permutation_example :
    (order : List ℕ) × (pplns_order_claims fractions many_claims 8 none (pos 0) ≡ some order)
    × (length order ≡ length many_claims)
    × (count 7 order ≡ 1)
order-permutation_example = order-permutation fractions many_claims 8 none (pos 0) 7 (omega arith)

fractions-asym : (x y : Fraction) → fractions.lt x y ≡ true → fractions.lt y x ≡ false
fractions-asym x y h = ground arith

order-reservation_example :
    IsReserved fractions many_claims 8
      (is_payable none (clamp_floor (pos 0)))
      (7 ∷ 6 ∷ 0 ∷ 1 ∷ 2 ∷ 3 ∷ 4 ∷ 5 ∷ [])
order-reservation_example =
    order-reservation fractions many_claims 8 none (pos 0) (7 ∷ 6 ∷ 0 ∷ 1 ∷ 2 ∷ 3 ∷ 4 ∷ 5 ∷ [])
      fractions-asym many_order
