-- ===== src/Stratum/Lockout/Events.antt =====
-- What the handlers of src/stratum.c do to the table of failed addresses, as a sequence of events.
use simplepool.Prelude.{ℕ, ◌+◌, Bool, true, false, List, [], ◌∷◌}
use simplepool.Prelude.Text.{same_text}
use simplepool.Stratum.Lockout.{
  FailTable, AuthConfig, AuthConn, auth_gate, auth_failed, auth_succeeded,
}

-- What the handlers of any connections do to the table, one after the other: they pass the gate, they
-- fail or they succeed.
pub data AuthEvent : Type 0 where
  asked failed succeeded : ℕ → AuthConn → AuthEvent

unfoldable pub after_event : AuthConfig → AuthEvent → FailTable → FailTable
after_event cfg (AuthEvent.asked now c) t = (auth_gate cfg now c t).2
after_event cfg (AuthEvent.failed now c) t = (auth_failed cfg now c t).2
after_event cfg (AuthEvent.succeeded now c) t = (auth_succeeded cfg now c t).1

-- The last event stands first.
unfoldable pub after_events : AuthConfig → List AuthEvent → FailTable → FailTable
after_events cfg [] t = t
after_events cfg (e ∷ es) t = after_event cfg e (after_events cfg es t)

abbrev pub empty_table : FailTable
empty_table j = record { ip = []; fails = 0; window_start_mono = 0; reported = false }

abbrev pub one_if : Bool → ℕ
one_if true = 1
one_if false = 0

-- How often an address has failed.
abbrev pub failures : List AuthEvent → List ℕ → ℕ
failures [] ip = 0
failures (AuthEvent.asked now c ∷ es) ip = failures es ip
failures (AuthEvent.succeeded now c ∷ es) ip = failures es ip
failures (AuthEvent.failed now c ∷ es) ip = one_if (same_text c.peer_ip ip) + failures es ip
