-- ===== src/Stratum/Vardiff/Tests.antt =====
-- Retargets of src/stratum.c on whole numbers in the place of doubles.
use simplepool.Prelude.{ℕ, ◌≡◌, refl, true, Option, some, arith}
use simplepool.Prelude.Int.{pos, ltb_ℤ}
use simplepool.Double.{whole}
use simplepool.Stratum.Vardiff.{
  VardiffConfig, Policy, Vardiff, ceiling_of, floor_of, clamp_assigned_difficulty, too_few,
  window_open, max_step_of, rate_step, raise_to_floor, within_policy, differ, reset_window,
  proposed, end_window, vardiff_maybe_retarget,
}
use simplepool.Stratum.Vardiff.Bounds.{OrderLaws, Sound, retarget-Sound}

whole-OrderLaws : OrderLaws whole
whole-OrderLaws = record {
  lt_irrefl = λ (a : ℕ). ground arith;
  lt_trans = λ (a : ℕ) (b : ℕ) (c : ℕ) p q. ground arith;
  le_lt_trans = λ (a : ℕ) (b : ℕ) (c : ℕ) p q. ground arith;
  le-of_gt = λ (a : ℕ) (b : ℕ) p. ground arith;
}

abbrev cfg : VardiffConfig whole
cfg = record {
  vardiff_enabled = true;
  vardiff_window_sec = 30;
  vardiff_min_samples = pos 6;
  vardiff_max_window_mult = pos 8;
  vardiff_target_spm = 12;
  vardiff_idle_step = 2;
  max_suggested_diff = 5000;
}

abbrev rental : Policy whole
rental = record { vardiff_min = 1; vardiff_max = 100000; min_diff = 1024 }

abbrev home : Policy whole
home = record { vardiff_min = 1; vardiff_max = 100000; min_diff = 0 }

-- Sixty shares in half a minute, ten times as many as wanted.
abbrev busy : Vardiff whole
busy = record {
  difficulty = 16;
  requested_min_diff = 0;
  window_start_ms = 1000;
  window_shares = 60;
  window_min_achieved = 17;
  window_max_assigned = 16;
}

retarget : ℕ → Policy whole → Vardiff whole → ℕ × Option ℕ
unfolding vardiff_maybe_retarget end_window proposed differ reset_window window_open too_few
    max_step_of rate_step raise_to_floor within_policy clamp_assigned_difficulty ceiling_of floor_of
    ltb_ℤ
retarget net pol c =
    let (c', sent) = vardiff_maybe_retarget whole cfg net pol 31000 c in (c'.difficulty, sent)

-- Four times up, less where the network is easier, and the floor of the rented port wins.
four_times : retarget 1000 home busy ≡ (64, some 64)
unfolding retarget
four_times = refl

below_the_network : retarget 50 home busy ≡ (50, some 50)
unfolding retarget
below_the_network = refl

rented : retarget 50 rental busy ≡ (1024, some 1024)
unfolding retarget
rented = refl

retarget-Sound_example :
    Sound whole whole-OrderLaws 50 rental busy
      (vardiff_maybe_retarget whole cfg 50 rental 31000 busy)
retarget-Sound_example = retarget-Sound whole whole-OrderLaws cfg 50 rental 31000 busy refl
