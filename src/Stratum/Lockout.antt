-- ===== src/Stratum/Lockout.antt =====
-- The budget of failed authorizations of src/stratum.c: `auth_fail_find`, `auth_gate`,
-- `auth_failed` and `auth_succeeded`. The array of entries is a function from its subscripts, and
-- the texts of the refusals are left out.
pub mod Events
mod Counts
pub mod Earned
mod Tests
use simplepool.Prelude.{
  ℕ, zero, suc, ◌+◌, ◌-◌, ◌*◌, ◌/◌, ◌%◌, ◌^◌, Bool, true, false, not, ◌&&◌, ◌||◌, Option, none,
  some, List, [], ◌∷◌, ltb, leb, ◌==◌, if◌then◌else◌,
}
use simplepool.Prelude.Text.{same_text}
use simplepool.Stratum.Dedupe.{fnv1a}

-- AUTH_FAIL_SLOTS, AUTH_FAIL_PROBE, AUTH_CALL_WINDOW_MS and AUTH_MAX_CALLS_PER_WINDOW
abbrev pub auth_fail_slots : ℕ
auth_fail_slots = 1024

abbrev pub auth_fail_probe : ℕ
auth_fail_probe = 8

abbrev pub auth_call_window_ms : ℕ
auth_call_window_ms = 10000

abbrev pub auth_max_calls_per_window : ℕ
auth_max_calls_per_window = 60

-- `struct auth_fail_entry`
pub record FailEntry : Type 0 where
  pub ip : List ℕ
  pub fails : ℕ
  pub window_start_mono : ℕ
  pub reported : Bool

abbrev pub FailTable : Type 0
FailTable = ℕ → FailEntry

-- `auth_max_failures`, where 0 stands for no limit, and `auth_fail_lockout_sec`.
pub record AuthConfig : Type 0 where
  pub auth_max_failures : ℕ
  pub auth_fail_lockout_sec : ℕ

abbrev pub lockout_ms : AuthConfig → ℕ
lockout_ms cfg = cfg.auth_fail_lockout_sec * 1000 % 2 ^ 64

abbrev pub elapsed_ms : ℕ → ℕ → ℕ
elapsed_ms start now = (now + 2 ^ 64 - start) % 2 ^ 64

abbrev pub is_present : List ℕ → Bool
is_present [] = false
is_present (c ∷ cs) = true

unfoldable pub write_entry : FailTable → ℕ → FailEntry → FailTable
write_entry t i e j = if i == j then e else t j

abbrev pub fresh_entry : List ℕ → ℕ → FailEntry
fresh_entry ip now = record { ip = ip; fails = 0; window_start_mono = now; reported = false }

abbrev pub belongs_to : List ℕ → FailEntry → Bool
belongs_to ip e = is_present e.ip && same_text e.ip ip

abbrev pub probe_slot : List ℕ → ℕ → ℕ
probe_slot ip k = (fnv1a ip + k) % auth_fail_slots

-- How the probe ends: at the entry of the address, or with the first free slot and the one whose
-- window started earliest.
pub data Probe : Type 0 where
  found : ℕ → Probe
  absent : Option ℕ → Option ℕ → Probe

abbrev pub first_of : Option ℕ → Bool → ℕ → Option ℕ
first_of (some i) b j = some i
first_of none b j = if b then some j else none

abbrev pub older_of : FailTable → Option ℕ → ℕ → Option ℕ
older_of t none j = some j
older_of t (some i) j =
    if ltb (t j).window_start_mono (t i).window_start_mono then some j else some i

abbrev pub claimed_slot : Option ℕ → Option ℕ → ℕ
claimed_slot (some i) oldest = i
claimed_slot none (some i) = i
claimed_slot none none = 0

unfoldable pub count_fail : Option ℕ × FailTable → FailTable
count_fail (none, t) = t
count_fail (some i, t) = write_entry t i (record (t i) { fails = ((t i).fails + 1) % 2 ^ 32 })

unfoldable pub forget : Option ℕ × FailTable → FailTable
forget (none, t) = t
forget (some i, t) = write_entry t i (record (t i) { ip = [] })

module _ (cfg : AuthConfig) where
  unfoldable pub expired : ℕ → FailEntry → Bool
  expired now e = leb (lockout_ms cfg) (elapsed_ms e.window_start_mono now)

  -- The probe from its `k`th slot on, of which `n` are left.
  unfoldable pub probe_from : ℕ → ℕ → FailTable → List ℕ → ℕ → Option ℕ → Option ℕ → Probe
  probe_from zero k t ip now free_slot oldest = absent free_slot oldest
  probe_from (suc n) k t ip now free_slot oldest =
      let i = probe_slot ip k in
      let e = t i in
      let rest =
        probe_from n (k + 1) t ip now
          (first_of free_slot (not (is_present e.ip) || expired now e) i) (older_of t oldest i) in
      if belongs_to ip e then found i else rest

  -- An expired entry is started again in its slot.
  unfoldable pub renewed : ℕ → FailTable → ℕ → FailTable
  renewed now t i =
      if expired now (t i)
      then write_entry t i (record (t i) { fails = 0; window_start_mono = now; reported = false })
      else t

  unfoldable pub find_entry : Probe → Bool → FailTable → List ℕ → ℕ → Option ℕ × FailTable
  find_entry (found i) create t ip now = (some i, renewed now t i)
  find_entry (absent free_slot oldest) false t ip now = (none, t)
  find_entry (absent free_slot oldest) true t ip now =
      let i = claimed_slot free_slot oldest in (some i, write_entry t i (fresh_entry ip now))

  unfoldable pub auth_fail_find : FailTable → List ℕ → ℕ → Bool → Option ℕ × FailTable
  auth_fail_find t ip now create =
      find_entry (probe_from auth_fail_probe 0 t ip now none none) create t ip now

-- The fields of a connection that the budget uses.
pub record AuthConn : Type 0 where
  pub peer_ip : List ℕ
  pub auth_failures : ℕ
  pub auth_call_window_ms : ℕ
  pub auth_calls_in_window : ℕ

-- `locked` has the seconds to wait; `proceed` has whether the calls are over their ceiling.
pub data Gate : Type 0 where
  locked : ℕ → Gate
  proceed : Bool → Gate

module _ (cfg : AuthConfig) where
  -- The lockout of an address, and the seconds that are left of it.
  unfoldable pub lockout_of : ℕ → Option ℕ × FailTable → Option ℕ × FailTable
  lockout_of now (none, t) = (none, t)
  lockout_of now (some i, t) =
      let elapsed = elapsed_ms (t i).window_start_mono now in
      if leb cfg.auth_max_failures (t i).fails
      then (
        some ((if ltb elapsed (lockout_ms cfg) then lockout_ms cfg - elapsed + 999 else 0) / 1000),
        write_entry t i (record (t i) { reported = true }),
      )
      else (none, t)

  unfoldable pub count_call : ℕ → AuthConn → AuthConn
  count_call now c =
      if leb auth_call_window_ms (elapsed_ms c.auth_call_window_ms now)
      then record c { auth_call_window_ms = now; auth_calls_in_window = 1 }
      else record c { auth_calls_in_window = (c.auth_calls_in_window + 1) % 2 ^ 32 }

  unfoldable pub pass_gate : ℕ → AuthConn → Option ℕ × FailTable → Gate × AuthConn × FailTable
  pass_gate now c (some retry, t) = (locked retry, c, t)
  pass_gate now c (none, t) =
      let c' = count_call now c in
      (proceed (ltb auth_max_calls_per_window c'.auth_calls_in_window), c', t)

  unfoldable pub auth_gate : ℕ → AuthConn → FailTable → Gate × AuthConn × FailTable
  auth_gate now c t =
      if cfg.auth_max_failures == 0
      then (proceed false, c, t)
      else pass_gate now c (
          if is_present c.peer_ip
          then lockout_of now (auth_fail_find cfg t c.peer_ip now false)
          else (none, t))

  -- A failed authorize; `true` is the return of -1, which closes the connection, where the code
  -- without a limit returns what it was given.
  unfoldable pub auth_failed : ℕ → AuthConn → FailTable → Bool × AuthConn × FailTable
  auth_failed now c t =
      let c' = record c { auth_failures = (c.auth_failures + 1) % 2 ^ 32 } in
      if cfg.auth_max_failures == 0 then (false, c, t) else (
        leb cfg.auth_max_failures c'.auth_failures,
        c',
        if is_present c.peer_ip then count_fail (auth_fail_find cfg t c.peer_ip now true) else t,
      )

  unfoldable pub auth_succeeded : ℕ → AuthConn → FailTable → AuthConn × FailTable
  auth_succeeded now c t = (
    record c { auth_failures = 0 },
    if cfg.auth_max_failures == 0 || not (is_present c.peer_ip)
        then t
        else forget (auth_fail_find cfg t c.peer_ip now false),
  )
