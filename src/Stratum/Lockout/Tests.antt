-- ===== src/Stratum/Lockout/Tests.antt =====
-- The authorize budget of src/stratum.c on an address that fails twice, with a limit of two.
use simplepool.Prelude.{◌≡◌, ◌≤◌, refl, List, [], ◌∷◌}
use simplepool.Prelude.Text.{codes, same_text}
use simplepool.Stratum.Dedupe.{fnv1a, fnv1a_from}
use simplepool.Stratum.Lockout.{
  AuthConfig, AuthConn, Gate, auth_gate, auth_fail_find, probe_from, expired, find_entry, renewed,
  write_entry, lockout_of, pass_gate, count_fail, auth_failed,
}
use simplepool.Stratum.Lockout.Earned.{auth_gate-earned}
use simplepool.Stratum.Lockout.Events.{AuthEvent, after_events, after_event, empty_table, failures}

abbrev two_in_a_minute : AuthConfig
two_in_a_minute = record { auth_max_failures = 2; auth_fail_lockout_sec = 60 }

abbrev peer : AuthConn
peer = record {
  peer_ip = codes "10.0.0.7";
  auth_failures = 0;
  auth_call_window_ms = 0;
  auth_calls_in_window = 0;
}

abbrev two_failures : List AuthEvent
two_failures =
    AuthEvent.failed 5000 peer ∷ AuthEvent.asked 4000 peer ∷ AuthEvent.failed 1000 peer ∷ []

-- Fifty-five seconds are left, and one is added by rounding up.
refused_at_once :
    (auth_gate two_in_a_minute 6000 peer (after_events two_in_a_minute two_failures empty_table)).0
    ≡ Gate.locked 55
unfolding auth_gate pass_gate lockout_of auth_fail_find find_entry probe_from after_events
    after_event auth_failed count_fail write_entry fnv1a fnv1a_from same_text renewed expired
refused_at_once = refl

auth_gate-earned_example : 2 ≤ failures two_failures peer.peer_ip
auth_gate-earned_example =
    auth_gate-earned two_in_a_minute two_failures 6000 55 peer refused_at_once
