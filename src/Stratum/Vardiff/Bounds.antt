-- ===== src/Stratum/Vardiff/Bounds.antt =====
-- What a retarget of src/stratum.c hands out stays within the listener's bounds and the network's.
use simplepool.Prelude.{
  ℕ, ◌+◌, ◌-◌, ◌%◌, ◌^◌, ◌≡◌, refl, inl, inr, Bool, true, false, not, ◌&&◌, Option, none, some,
  arith, ◌==◌, if◌then◌else◌, Bool-cases,
}
use simplepool.Double.{DoubleOps}
use simplepool.Stratum.Vardiff.{
  VardiffConfig, Policy, Vardiff, number, ceiling_of, floor_of, clamp_assigned_difficulty,
  within_policy, raise_to_floor, rate_step, window_open, proposed, reset_window, differ, end_window,
  vardiff_maybe_retarget,
}

-- Laws of the comparisons that IEEE doubles have, operands that are no number included.
pub record OrderLaws (fl : DoubleOps) : Type 0 where
  pub lt_irrefl : (a : fl.Double) → fl.lt a a ≡ false
  pub lt_trans : (a b c : fl.Double) → fl.lt a b ≡ true → fl.lt b c ≡ true → fl.lt a c ≡ true
  pub le_lt_trans : (a b c : fl.Double) → fl.le a b ≡ true → fl.lt b c ≡ true → fl.lt a c ≡ true
  pub le-of_gt : (a b : fl.Double) → fl.lt a b ≡ true → fl.le b a ≡ false

-- The difficulty that a retarget sends.
pub record WithinBounds (fl : DoubleOps) (net_diff : fl.Double) (pol : Policy fl) (d : fl.Double)
    : Type 0 where
  -- The floor that the port promises.
  pub floor_kept : fl.lt (number fl 0) pol.min_diff ≡ true → fl.lt d pol.min_diff ≡ false
  -- The network's difficulty and the listener's maximum, where the port promises none.
  pub ceiling_kept :
      fl.lt (number fl 0) pol.min_diff ≡ false
      → fl.lt (number fl 0) net_diff ≡ true
      → fl.lt net_diff d ≡ false
  pub maximum_kept :
      fl.lt (number fl 0) pol.min_diff ≡ false
      → fl.lt (number fl 0) pol.vardiff_max ≡ true
      → fl.lt pol.vardiff_max d ≡ false

module _ (fl : DoubleOps) (laws : OrderLaws fl) where
  open fl use {Double, lt, le}

  -- The result of the clamp where its first two steps leave a number above 0.
  floor_of-kept : (m d : Double) → lt (number fl 0) m ≡ true → lt (floor_of fl m d) m ≡ false
  unfolding floor_of
  floor_of-kept m d on = elim (Bool-cases (lt d m)) [
    | inl e ↦ rw (on, e) (laws.lt_irrefl m)
    | inr e ↦ rw (on, e) e
  ]

  not_low : (m d : Double) → lt (number fl 0) m ≡ true → lt d m ≡ false → le d (number fl 0) ≡ false
  not_low m d on above = elim (Bool-cases (le d (number fl 0))) [
    | inl e ↦ absurd (ground (arith, laws.le_lt_trans d (number fl 0) m e on))
    | inr e ↦ e
  ]

  pub clamp_floor :
      (net_diff d : Double) (pol : Policy fl)
      → lt (number fl 0) pol.min_diff ≡ true
      → lt (clamp_assigned_difficulty fl net_diff pol d) pol.min_diff ≡ false
  unfolding clamp_assigned_difficulty
  clamp_floor net_diff d pol on =
      let kept = floor_of-kept pol.min_diff (ceiling_of fl net_diff d) on in
      let high =
        not_low pol.min_diff (floor_of fl pol.min_diff (ceiling_of fl net_diff d)) on kept in
      rw high kept

  -- Without a floor of the port the clamp takes the smaller of the two.
  ceiling_of-positive :
      (net_diff d : Double)
      → le d (number fl 0) ≡ false
      → le (ceiling_of fl net_diff d) (number fl 0) ≡ false
  unfolding ceiling_of
  ceiling_of-positive net_diff d above = elim (Bool-cases (lt (number fl 0) net_diff)) [
    | inl on ↦ elim (Bool-cases (lt net_diff d)) [
      | inl e ↦ rw (on, e) (laws.le-of_gt (number fl 0) net_diff on)
      | inr e ↦ rw (on, e) above
    ]
    | inr off ↦ rw off above
  ]

  clamp_plain :
      (net_diff d : Double) (pol : Policy fl)
      → lt (number fl 0) pol.min_diff ≡ false
      → le d (number fl 0) ≡ false
      → clamp_assigned_difficulty fl net_diff pol d ≡ ceiling_of fl net_diff d
  unfolding clamp_assigned_difficulty floor_of
  clamp_plain net_diff d pol off above = rw (off, ceiling_of-positive net_diff d above) refl

  ceiling_of-kept :
      (net_diff d : Double)
      → lt (number fl 0) net_diff ≡ true
      → lt net_diff (ceiling_of fl net_diff d) ≡ false
  unfolding ceiling_of
  ceiling_of-kept net_diff d on = elim (Bool-cases (lt net_diff d)) [
    | inl e ↦ rw (on, e) (laws.lt_irrefl net_diff)
    | inr e ↦ rw (on, e) e
  ]

  ceiling_of-below :
      (net_diff d m : Double) → lt m d ≡ false → lt m (ceiling_of fl net_diff d) ≡ false
  unfolding ceiling_of
  ceiling_of-below net_diff d m below =
      elim (Bool-cases (lt (number fl 0) net_diff && lt net_diff d)) [
        | inl e ↦ elim (Bool-cases (lt m net_diff)) [
          | inl k ↦ absurd (ground (arith, laws.lt_trans m net_diff d k))
          | inr k ↦ rw e k
        ]
        | inr e ↦ rw e below
      ]

  within_policy-positive :
      (pol : Policy fl) (requested d : Double)
      → lt (number fl 0) pol.vardiff_min ≡ true
      → le (within_policy fl pol requested d) (number fl 0) ≡ false
  unfolding within_policy
  within_policy-positive pol requested d on =
      let asked : Double = if lt (number fl 0) requested && lt d requested then requested else d in
      let low : Double = if lt asked pol.vardiff_min then pol.vardiff_min else asked in
      let low_above : le low (number fl 0) ≡ false = elim (Bool-cases (lt asked pol.vardiff_min)) [
        | inl e ↦ rw e (laws.le-of_gt (number fl 0) pol.vardiff_min on)
        | inr e ↦ rw e (not_low pol.vardiff_min asked on e)
      ] in
      elim (Bool-cases (lt (number fl 0) pol.vardiff_max)) [
        | inl a ↦ elim (Bool-cases (lt pol.vardiff_max low)) [
          | inl e ↦ rw (a, e) (laws.le-of_gt (number fl 0) pol.vardiff_max a)
          | inr e ↦ rw (a, e) low_above
        ]
        | inr a ↦ rw a low_above
      ]

  within_policy-max :
      (pol : Policy fl) (requested d : Double)
      → lt (number fl 0) pol.vardiff_max ≡ true
      → lt pol.vardiff_max (within_policy fl pol requested d) ≡ false
  unfolding within_policy
  within_policy-max pol requested d on =
      let asked : Double = if lt (number fl 0) requested && lt d requested then requested else d in
      let low : Double = if lt asked pol.vardiff_min then pol.vardiff_min else asked in
      elim (Bool-cases (lt pol.vardiff_max low)) [
        | inl e ↦ rw (on, e) (laws.lt_irrefl pol.vardiff_max)
        | inr e ↦ rw (on, e) e
      ]

  clamp-WithinBounds :
      (net_diff d : Double) (pol : Policy fl)
      → le d (number fl 0) ≡ false
      → (lt (number fl 0) pol.vardiff_max ≡ true → lt pol.vardiff_max d ≡ false)
      → WithinBounds fl net_diff pol (clamp_assigned_difficulty fl net_diff pol d)
  clamp-WithinBounds net_diff d pol above below = record {
    floor_kept = clamp_floor net_diff d pol;
    ceiling_kept =
        λ off net. rw (clamp_plain net_diff d pol off above) (ceiling_of-kept net_diff d net);
    maximum_kept = λ off max.
        rw (clamp_plain net_diff d pol off above)
          (ceiling_of-below net_diff d pol.vardiff_max (below max));
  }

  proposed-WithinBounds :
      (cfg : VardiffConfig fl) (net_diff : Double) (pol : Policy fl) (elapsed : ℕ) (c : Vardiff fl)
      → lt (number fl 0) pol.vardiff_min ≡ true
      → WithinBounds fl net_diff pol (proposed fl cfg net_diff pol elapsed c)
  unfolding proposed
  proposed-WithinBounds cfg net_diff pol elapsed c on =
      let d : Double =
        raise_to_floor fl c (rate_step fl cfg c.window_shares elapsed c.difficulty) in
      clamp-WithinBounds net_diff (within_policy fl pol c.requested_min_diff d) pol
        (within_policy-positive pol c.requested_min_diff d on)
        (within_policy-max pol c.requested_min_diff d)

  -- What a call may do to the difficulty of a connection.
  pub data Sound (net_diff : Double) (pol : Policy fl) (c : Vardiff fl)
      (r : Vardiff fl × Option Double) : Type 0 where
    kept : r.1 ≡ none → r.0.difficulty ≡ c.difficulty → Sound net_diff pol c r
    moved :
        r.1 ≡ some r.0.difficulty
        → WithinBounds fl net_diff pol r.0.difficulty
        → Sound net_diff pol c r

  end_window-Sound :
      (net_diff d : Double) (pol : Policy fl) (now : ℕ) (c : Vardiff fl)
      → WithinBounds fl net_diff pol d
      → Sound net_diff pol c (end_window fl now c d)
  unfolding end_window reset_window
  end_window-Sound net_diff d pol now c w = elim (Bool-cases (differ fl d c.difficulty)) [
    | inl differs ↦ rw differs (Sound.moved refl w)
    | inr same ↦ rw same (Sound.kept refl refl)
  ]

  if-Sound :
      (b : Bool) (net_diff : Double) (pol : Policy fl) (c : Vardiff fl)
      (r r' : Vardiff fl × Option Double)
      → Sound net_diff pol c r
      → Sound net_diff pol c r'
      → Sound net_diff pol c (if b then r else r')
  if-Sound true net_diff pol c r r' s s' = s
  if-Sound false net_diff pol c r r' s s' = s'

  -- A call of the retarget either leaves the difficulty as it is and sends nothing, or it sends the
  -- difficulty that it sets. What it sends is never below the floor that the port promises; where
  -- the port promises none, it is never above the network's difficulty nor above the listener's
  -- maximum. The listener's minimum must be positive.
  pub retarget-Sound :
      (cfg : VardiffConfig fl) (net_diff : Double) (pol : Policy fl) (now : ℕ) (c : Vardiff fl)
      → lt (number fl 0) pol.vardiff_min ≡ true
      → Sound net_diff pol c (vardiff_maybe_retarget fl cfg net_diff pol now c)
  unfolding vardiff_maybe_retarget reset_window
  retarget-Sound cfg net_diff pol now c on =
      let elapsed : ℕ = (now + 2 ^ 64 - c.window_start_ms) % 2 ^ 64 in
      let last : Vardiff fl × Option Double =
        end_window fl now c (proposed fl cfg net_diff pol elapsed c) in
      let inner : Vardiff fl × Option Double =
        if window_open fl cfg c.window_shares elapsed then (c, none) else last in
      let first : Vardiff fl × Option Double = (reset_window fl now c, none) in
      let started : Bool = c.window_start_ms == 0 in
      let ended =
        if-Sound (window_open fl cfg c.window_shares elapsed) net_diff pol c (c, none) last
          (Sound.kept refl refl)
          (end_window-Sound net_diff (proposed fl cfg net_diff pol elapsed c) pol now c
            (proposed-WithinBounds cfg net_diff pol elapsed c on)) in
      if-Sound (not cfg.vardiff_enabled) net_diff pol c (c, none) (if started then first else inner)
        (Sound.kept refl refl)
        (if-Sound started net_diff pol c first inner (Sound.kept refl refl) ended)
