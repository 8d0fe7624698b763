-- ===== src/Stratum/Limiter.antt =====
-- `submit_rate_exceeded` of src/stratum.c, and how many submits it lets through.
use simplepool.Prelude.{
  ℕ, ◌+◌, ◌-◌, ◌%◌, ◌^◌, ◌≤◌, ◌<◌, min, ◌≡◌, refl, ap, ◌∙◌, inl, inr, Bool, true, false, not, List,
  [], ◌∷◌, arith, ltb, leb, if◌then◌else◌, length, All, Bool-cases, ltb→lt, ltb→ge, lt→ltb,
}
use simplepool.Prelude.Int.{ℤ, pos, pos_part, ltb_ℤ}

-- The `rl_` fields of `stratum_conn`.
pub record Limiter : Type 0 where
  pub window_start_ms : ℕ
  pub window_count : ℕ
  pub limited : ℕ
  pub limited_total : ℕ

-- A window of a second that has passed is forgotten. The difference wraps, as `uint64_t` does.
unfoldable pub roll_window : ℕ → Limiter → Limiter
roll_window now c =
    if leb 1000 ((now + 2 ^ 64 - c.window_start_ms) % 2 ^ 64)
    then record c { window_start_ms = now; window_count = 0 }
    else c

-- `true` is a refusal. `limit` is `max_submits_per_sec`, an `int`.
unfoldable pub submit_rate_exceeded : ℤ → ℕ → Limiter → Bool × Limiter
submit_rate_exceeded limit now c =
    let c' = roll_window now c in
    if not (ltb_ℤ (pos 0) limit)
    then (false, c)
    else if ltb c'.window_count (pos_part limit)
    then (false, record c' { window_count = (c'.window_count + 1) % 2 ^ 32 })
    else (
      true,
      record c' {
        limited = (c'.limited + 1) % 2 ^ 32;
        limited_total = (c'.limited_total + 1) % 2 ^ 64;
      },
    )

-- Submits at these times, and how many of them were let through.
unfoldable pub submits : ℤ → List ℕ → Limiter → ℕ × Limiter
submits limit [] c = (0, c)
submits limit (now ∷ times) c =
    let (refused, c') = submit_rate_exceeded limit now c in
    let (passed, c'') = submits limit times c' in (if refused then passed else passed + 1, c'')

pub record Tally (ceiling : ℕ) (times : List ℕ) (c : Limiter) (run : ℕ × Limiter) : Type 0 where
  pub passed : run.0 ≡ min (length times) (ceiling - c.window_count)
  pub refused : (run.1).limited_total ≡ (c.limited_total + (length times - run.0)) % 2 ^ 64
  pub bounded : (run.1).window_count ≤ ceiling

-- In the second that the window has open.
abbrev pub InWindow : Limiter → ℕ → Type 0
InWindow c now = (c.window_start_ms ≤ now) × (now < c.window_start_ms + 1000) × (now < 2 ^ 64)

stays : (now : ℕ) (c : Limiter) → InWindow c now → roll_window now c ≡ c
unfolding roll_window
stays now c h =
    let (early, late, word) = h in
    let inside : leb 1000 ((now + 2 ^ 64 - c.window_start_ms) % 2 ^ 64) ≡ false = ground arith in
    rw inside refl

module _ (ceiling : ℕ) (positive : 0 < ceiling) (small : ceiling < 2 ^ 31) where
  switched_on : ltb_ℤ (pos 0) (pos ceiling) ≡ true
  unfolding ltb_ℤ
  switched_on = lt→ltb (0 + 0) (ceiling + 0) (omega arith)

  -- One submit inside the window: let through below the ceiling, and counted, else refused.
  step_inside :
      (now : ℕ) (c : Limiter)
      → InWindow c now
      → submit_rate_exceeded (pos ceiling) now c ≡ (
          if ltb c.window_count ceiling
          then (false, record c { window_count = (c.window_count + 1) % 2 ^ 32 })
          else (
            true,
            record c {
              limited = (c.limited + 1) % 2 ^ 32;
              limited_total = (c.limited_total + 1) % 2 ^ 64;
            },
          ))
  unfolding submit_rate_exceeded
  step_inside now c h = rw (stays now c h, switched_on) refl

  -- Submits within one second of the window's start: exactly as many are let through as the
  -- ceiling leaves room for, the others are all counted as refused, and the window's count never
  -- exceeds the ceiling.
  pub submits-Tally :
      (times : List ℕ) (c : Limiter)
      → c.window_count ≤ ceiling
      → c.limited_total < 2 ^ 64
      → All (InWindow c) times
      → Tally ceiling times c (submits (pos ceiling) times c)
  unfolding submits
  submits-Tally [] c h w inside = record {
    passed = omega arith;
    refused = omega arith;
    bounded = h;
  }
  submits-Tally (now ∷ times) c h w inside =
      let one = step_inside now c inside.0 in
      elim (Bool-cases (ltb c.window_count ceiling)) [
        | inl free ↦
            let next : Limiter = record c { window_count = (c.window_count + 1) % 2 ^ 32 } in
            let room = ltb→lt c.window_count ceiling free in
            let rest = submits-Tally times next (omega arith) w inside.1 in
            rw (one, free)
              (record {
                passed = omega (arith, rest.passed, room);
                refused =
                    rest.refused ∙ ap (λ (n : ℕ). (c.limited_total + n) % 2 ^ 64) (omega arith);
                bounded = rest.bounded;
              })
        | inr full ↦
            let next : Limiter = record c {
              limited = (c.limited + 1) % 2 ^ 32;
              limited_total = (c.limited_total + 1) % 2 ^ 64;
            } in
            let none_left = ltb→ge c.window_count ceiling full in
            let rest = submits-Tally times next h (omega arith) inside.1 in
            rw (one, full)
              (record {
                passed = omega (arith, rest.passed, none_left);
                refused = omega (arith, rest.refused, rest.passed, none_left);
                bounded = rest.bounded;
              })
      ]
