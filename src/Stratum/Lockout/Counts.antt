-- ===== src/Stratum/Lockout/Counts.antt =====
-- Each step on the table of failed addresses of src/stratum.c keeps every count within the number of
-- failures of its address.
use simplepool.Prelude.{
  ℕ, zero, suc, ◌+◌, ◌%◌, ◌^◌, ◌≤◌, ◌≡◌, refl, sym, ap, subst, inl, inr, Bool-cases, Bool, true,
  false, not, ◌||◌, Option, none, some, List, [], leb, ◌==◌, if◌then◌else◌, arith,
}
use Prim.Native.Nat.{zero-le}
use simplepool.Stratum.Lockout.Events.{one_if}
use simplepool.Prelude.Text.{same_text}
use simplepool.Stratum.JobDiff.{same_text_refl, same_text_sound}
use simplepool.Stratum.Lockout.{
  FailEntry, FailTable, AuthConfig, AuthConn, Probe, Gate, is_present, write_entry, fresh_entry,
  belongs_to, probe_slot, first_of, older_of, expired, probe_from, renewed, claimed_slot,
  find_entry, auth_fail_find, lockout_of, pass_gate, auth_gate, count_fail, auth_failed, forget,
  auth_succeeded, auth_fail_probe,
}

-- What both branches of a test have, the test has.
pub if_both :
    {A : Type 0} (P : A → Type 0) (b : Bool) (x y : A) → P x → P y → P (if b then x else y)
if_both P true x y p q = p
if_both P false x y p q = q

-- The same, with what the test says.
pub if_case :
    {A : Type 0} (P : A → Type 0) (b : Bool) (x y : A)
    → (b ≡ true → P x)
    → P y
    → P (if b then x else y)
if_case P true x y p q = p refl
if_case P false x y p q = q

-- A probe that finds an entry finds one of the address.
abbrev pub IsOwner : FailTable → List ℕ → Probe → Type 0
IsOwner t ip (Probe.found i) = (t i).ip ≡ ip
IsOwner t ip (Probe.absent free_slot oldest) = Unit {0}

pub belongs_to_owner : (ip : List ℕ) (e : FailEntry) → belongs_to ip e ≡ true → e.ip ≡ ip
belongs_to_owner ip e own = same_text_sound e.ip ip (ground arith)

pub probe_from-IsOwner :
    (cfg : AuthConfig) (n k : ℕ) (t : FailTable) (ip : List ℕ) (now : ℕ)
    (free_slot oldest : Option ℕ)
    → IsOwner t ip (probe_from cfg n k t ip now free_slot oldest)
unfolding probe_from
probe_from-IsOwner cfg zero k t ip now free_slot oldest = tt
probe_from-IsOwner cfg (suc n) k t ip now free_slot oldest =
    let i : ℕ = probe_slot ip k in
    let free : Option ℕ =
      first_of free_slot (not (is_present (t i).ip) || expired cfg now (t i)) i in
    let old : Option ℕ = older_of t oldest i in
    if_case (IsOwner t ip) (belongs_to ip (t i)) (Probe.found i)
      (probe_from cfg n (k + 1) t ip now free old) (belongs_to_owner ip (t i))
      (probe_from-IsOwner cfg n (k + 1) t ip now free old)

module _ (n : List ℕ → ℕ) where
  abbrev pub IsEarned : FailTable → Type 0
  IsEarned t = (j : ℕ) → is_present (t j).ip ≡ true → (t j).fails ≤ n (t j).ip

  -- The table after a look-up, with the entry that it found.
  abbrev pub Looked : List ℕ → Option ℕ × FailTable → Type 0
  Looked ip (none, t) = IsEarned t
  Looked ip (some i, t) = IsEarned t × ((t i).ip ≡ ip)

  pub write-IsEarned :
      (t : FailTable) (i : ℕ) (e : FailEntry)
      → IsEarned t
      → (is_present e.ip ≡ true → e.fails ≤ n e.ip)
      → IsEarned (write_entry t i e)
  unfolding write_entry
  write-IsEarned t i e earned new j = elim (Bool-cases (i == j)) [
    | inl same ↦ rw same new
    | inr other ↦ rw other (earned j)
  ]

  pub written_at : (t : FailTable) (i : ℕ) (e : FailEntry) → write_entry t i e i ≡ e
  unfolding write_entry
  written_at t i e = ground arith

  pub renewed-Looked :
      (cfg : AuthConfig) (now : ℕ) (t : FailTable) (i : ℕ)
      → IsEarned t
      → Looked (t i).ip (some i, renewed cfg now t i)
  unfolding renewed
  renewed-Looked cfg now t i earned =
      let e : FailEntry = record (t i) { fails = 0; window_start_mono = now; reported = false } in
      if_both (λ t'. Looked (t i).ip (some i, t')) (expired cfg now (t i)) (write_entry t i e) t
        (write-IsEarned t i e earned (λ _. zero-le), ap (λ x. x.ip) (written_at t i e))
        (earned, refl)

  pub find_entry-Looked :
      (cfg : AuthConfig) (p : Probe) (create : Bool) (t : FailTable) (ip : List ℕ) (now : ℕ)
      → IsEarned t
      → IsOwner t ip p
      → Looked ip (find_entry cfg p create t ip now)
  unfolding find_entry
  find_entry-Looked cfg (Probe.found i) create t ip now earned owner =
      subst (λ x. Looked x (some i, renewed cfg now t i)) owner (renewed-Looked cfg now t i earned)
  find_entry-Looked cfg (Probe.absent free_slot oldest) false t ip now earned owner = earned
  find_entry-Looked cfg (Probe.absent free_slot oldest) true t ip now earned owner =
      let i : ℕ = claimed_slot free_slot oldest in
      (
        write-IsEarned t i (fresh_entry ip now) earned (λ _. zero-le),
        ap (λ x. x.ip) (written_at t i (fresh_entry ip now)),
      )

  pub look-Looked :
      (cfg : AuthConfig) (t : FailTable) (ip : List ℕ) (now : ℕ) (create : Bool)
      → IsEarned t
      → Looked ip (auth_fail_find cfg t ip now create)
  unfolding auth_fail_find
  look-Looked cfg t ip now create earned =
      find_entry-Looked cfg _ create t ip now earned
        (probe_from-IsOwner cfg auth_fail_probe 0 t ip now none none)

  pub lockout_of-IsEarned :
      (cfg : AuthConfig) (now : ℕ) (ip : List ℕ) (r : Option ℕ × FailTable)
      → Looked ip r
      → IsEarned (lockout_of cfg now r).1
  unfolding lockout_of
  lockout_of-IsEarned cfg now ip (none, t) earned = earned
  lockout_of-IsEarned cfg now ip (some i, t) (earned, owner) =
      if_both (λ (x : Option ℕ × FailTable). IsEarned x.1) (leb cfg.auth_max_failures (t i).fails) _
        _ (write-IsEarned t i (record (t i) { reported = true }) earned (earned i)) earned

  pub forget-IsEarned : (ip : List ℕ) (r : Option ℕ × FailTable) → Looked ip r → IsEarned (forget r)
  unfolding forget
  forget-IsEarned ip (none, t) earned = earned
  forget-IsEarned ip (some i, t) (earned, owner) =
      write-IsEarned t i (record (t i) { ip = [] }) earned (λ e. absurd (ground arith))

  pub pass_gate-IsEarned :
      (cfg : AuthConfig) (now : ℕ) (c : AuthConn) (r : Option ℕ × FailTable)
      → IsEarned r.1
      → IsEarned (pass_gate cfg now c r).2
  unfolding pass_gate
  pass_gate-IsEarned cfg now c (none, t) earned = earned
  pass_gate-IsEarned cfg now c (some retry, t) earned = earned

  pub auth_gate-IsEarned :
      (cfg : AuthConfig) (now : ℕ) (c : AuthConn) (t : FailTable)
      → IsEarned t
      → IsEarned (auth_gate cfg now c t).2
  unfolding auth_gate
  auth_gate-IsEarned cfg now c t earned =
      if_both (λ (x : Gate × AuthConn × FailTable). IsEarned x.2) (cfg.auth_max_failures == 0)
        (Gate.proceed false, c, t) _ earned
        (pass_gate-IsEarned cfg now c _ (
          if_both (λ (x : Option ℕ × FailTable). IsEarned x.1) (is_present c.peer_ip) _ (none, t)
            (lockout_of-IsEarned cfg now c.peer_ip _ (look-Looked cfg t c.peer_ip now false earned))
            earned))

  pub auth_succeeded-IsEarned :
      (cfg : AuthConfig) (now : ℕ) (c : AuthConn) (t : FailTable)
      → IsEarned t
      → IsEarned (auth_succeeded cfg now c t).1
  unfolding auth_succeeded
  auth_succeeded-IsEarned cfg now c t earned =
      if_both IsEarned (cfg.auth_max_failures == 0 || not (is_present c.peer_ip)) t _ earned
        (forget-IsEarned c.peer_ip _ (look-Looked cfg t c.peer_ip now false earned))

-- More failures allow as much.
pub IsEarned-more :
    (n : List ℕ → ℕ) (ip : List ℕ) (t : FailTable)
    → IsEarned n t
    → IsEarned (λ x. one_if (same_text ip x) + n x) t
IsEarned-more n ip t earned j live = omega (arith, earned j live)

-- A failure is counted for the address of its connection, and for no other.
pub count_fail-IsEarned :
    (n : List ℕ → ℕ) (ip : List ℕ) (r : Option ℕ × FailTable)
    → Looked n ip r
    → IsEarned (λ x. one_if (same_text ip x) + n x) (count_fail r)
unfolding count_fail
count_fail-IsEarned n ip (none, t) earned = IsEarned-more n ip t earned
count_fail-IsEarned n ip (some i, t) (earned, owner) =
    let more : List ℕ → ℕ = λ x. one_if (same_text ip x) + n x in
    let hit : same_text ip (t i).ip ≡ true =
      subst (λ x. same_text ip x ≡ true) (sym owner) (same_text_refl ip) in
    write-IsEarned more t i (record (t i) { fails = ((t i).fails + 1) % 2 ^ 32 })
      (IsEarned-more n ip t earned) (λ live. rw hit (omega (arith, earned i live)))

pub auth_failed-IsEarned :
    (cfg : AuthConfig) (n : List ℕ → ℕ) (now : ℕ) (c : AuthConn) (t : FailTable)
    → IsEarned n t
    → IsEarned (λ x. one_if (same_text c.peer_ip x) + n x) (auth_failed cfg now c t).2
unfolding auth_failed
auth_failed-IsEarned cfg n now c t earned =
    let more : List ℕ → ℕ = λ x. one_if (same_text c.peer_ip x) + n x in
    if_both (λ (x : Bool × AuthConn × FailTable). IsEarned more x.2) (cfg.auth_max_failures == 0)
      (false, c, t) _ (IsEarned-more n c.peer_ip t earned)
      (if_both (IsEarned more) (is_present c.peer_ip) _ t
        (count_fail-IsEarned n c.peer_ip _ (look-Looked n cfg t c.peer_ip now true earned))
        (IsEarned-more n c.peer_ip t earned))
