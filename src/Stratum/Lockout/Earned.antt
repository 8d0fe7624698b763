-- ===== src/Stratum/Lockout/Earned.antt =====
-- No address is refused by the authorize budget of src/stratum.c that has not failed often enough.
use simplepool.Stratum.Lockout.Events.{AuthEvent, after_event, after_events, empty_table, failures}
use simplepool.Stratum.Lockout.Counts.{
  if_both, if_case, IsEarned, Looked, look-Looked, auth_gate-IsEarned, auth_succeeded-IsEarned,
  auth_failed-IsEarned,
}
use simplepool.Prelude.{
  ℕ, ◌≤◌, ◌≡◌, sym, subst, leb→le, true, false, Option, none, some, List, [], ◌∷◌, leb, ◌==◌, arith,
}
use Prim.Native.Nat.{zero-le}
use simplepool.Stratum.Lockout.{
  FailTable, AuthConfig, AuthConn, Gate, is_present, lockout_of, pass_gate, auth_gate,
}

events-IsEarned :
    (cfg : AuthConfig) (es : List AuthEvent)
    → IsEarned (failures es) (after_events cfg es empty_table)
unfolding after_events after_event
events-IsEarned cfg [] = λ j live. zero-le
events-IsEarned cfg (AuthEvent.asked now c ∷ es) =
    auth_gate-IsEarned (failures es) cfg now c _ (events-IsEarned cfg es)
events-IsEarned cfg (AuthEvent.failed now c ∷ es) =
    auth_failed-IsEarned cfg (failures es) now c _ (events-IsEarned cfg es)
events-IsEarned cfg (AuthEvent.succeeded now c ∷ es) =
    auth_succeeded-IsEarned (failures es) cfg now c _ (events-IsEarned cfg es)

-- A refusal as the gate gives it.
abbrev Refused : AuthConfig → List ℕ → (List ℕ → ℕ) → Gate → Type 0
Refused cfg ip n (Gate.locked retry) = cfg.auth_max_failures ≤ n ip
Refused cfg ip n (Gate.proceed over) = Unit {0}

lockout_of-Refused :
    (cfg : AuthConfig) (n : List ℕ → ℕ) (now : ℕ) (c : AuthConn) (r : Option ℕ × FailTable)
    → is_present c.peer_ip ≡ true
    → Looked n c.peer_ip r
    → Refused cfg c.peer_ip n (pass_gate cfg now c (lockout_of cfg now r)).0
unfolding lockout_of pass_gate
lockout_of-Refused cfg n now c (none, t) some_ip earned = tt
lockout_of-Refused cfg n now c (some i, t) some_ip (earned, owner) =
    if_case (λ (x : Option ℕ × FailTable). Refused cfg c.peer_ip n (pass_gate cfg now c x).0)
      (leb cfg.auth_max_failures (t i).fails) _ (none, t)
      (λ enough.
        let live : is_present (t i).ip ≡ true =
          subst (λ x. is_present x ≡ true) (sym owner) some_ip in
        subst (λ x. cfg.auth_max_failures ≤ n x) owner
          (omega (arith, leb→le cfg.auth_max_failures (t i).fails enough, earned i live)))
      tt

auth_gate-Refused :
    (cfg : AuthConfig) (n : List ℕ → ℕ) (now : ℕ) (c : AuthConn) (t : FailTable)
    → IsEarned n t
    → Refused cfg c.peer_ip n (auth_gate cfg now c t).0
unfolding auth_gate pass_gate
auth_gate-Refused cfg n now c t earned =
    if_both (λ (x : Gate × AuthConn × FailTable). Refused cfg c.peer_ip n x.0)
      (cfg.auth_max_failures == 0) (Gate.proceed false, c, t) _ tt
      (if_case (λ (x : Option ℕ × FailTable). Refused cfg c.peer_ip n (pass_gate cfg now c x).0)
        (is_present c.peer_ip) _ (none, t)
        (λ some_ip.
          lockout_of-Refused cfg n now c _ some_ip (look-Looked n cfg t c.peer_ip now false earned))
        tt)

-- Whatever the handlers of any connections did before, in whatever order and at whatever times, and
-- whatever they pushed out of the table: where the gate refuses the address of a connection as
-- locked, at least `auth_max_failures` calls of that address have failed.
pub auth_gate-earned :
    (cfg : AuthConfig) (es : List AuthEvent) (now retry : ℕ) (c : AuthConn)
    → (auth_gate cfg now c (after_events cfg es empty_table)).0 ≡ Gate.locked retry
    → cfg.auth_max_failures ≤ failures es c.peer_ip
auth_gate-earned cfg es now retry c locked =
    subst (Refused cfg c.peer_ip (failures es)) locked
      (auth_gate-Refused cfg (failures es) now c _ (events-IsEarned cfg es))
