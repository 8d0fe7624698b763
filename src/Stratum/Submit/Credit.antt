-- ===== src/Stratum/Submit/Credit.antt =====
-- What a submit to src/stratum.c has to show before it is credited.
use simplepool.Prelude.{
  ℕ, ◌≡◌, ◌⊎◌, refl, sym, inl, inr, Bool, true, false, not, ◌&&◌, ◌||◌, Option, none, some, List,
  if◌then◌else◌, length, All, All-append,
}
use simplepool.Double.{DoubleOps}
use simplepool.Hex.{bytes_to_hex}
use simplepool.Share.{be32_cmp}
use simplepool.Share.Difficulty.{target_to_diff}
use simplepool.Template.{Outcome}
use simplepool.Stratum.JobDiff.{DiffRing}
use simplepool.Stratum.Vardiff.{Vardiff}
use simplepool.Stratum.Jobs.{StratumJob}
use simplepool.Stratum.Render.{Payer}
use simplepool.Stratum.Block.{assemble_block_hex}
use simplepool.Stratum.Submit.Judge.{Judgement, judge, clears, assigned_for, is_at_most}
use simplepool.Stratum.Submit.{
  Reason, SubmitConfig, Conn, Server, Event, Turn, Work, outside_roll, refuse, reject, announced,
  work_of, submit_hex, submit_block, found_event, credit,
}

-- What holds of the turn, where the code comes to one.
module _ {fl : DoubleOps} where
  abbrev pub Holds : (Turn fl → Type 0) → Outcome (Turn fl) → Type 0
  Holds P Outcome.refused = Unit {0}
  Holds P Outcome.fault = Unit {0}
  Holds P (Outcome.ok t) = P t

  pub if-Holds :
      (P : Turn fl → Type 0) (b : Bool) (o o' : Outcome (Turn fl))
      → Holds P o
      → Holds P o'
      → Holds P (if b then o else o')
  if-Holds P true o o' h h' = h
  if-Holds P false o o' h h' = h'

-- The event says whether the hash is at most the network's target, and the credited difficulty is
-- one that the hash clears, or the hash is at most that target and is credited at its difficulty.
module _ (fl : DoubleOps) (job : StratumJob) (hash : List ℕ) where
  abbrev pub Earned : fl.Double → Bool → Type 0
  Earned d is_block =
      (is_block ≡ is_at_most (be32_cmp hash job.network_target_be))
      × ((clears fl hash d ≡ true)
          ⊎ ((is_at_most (be32_cmp hash job.network_target_be) ≡ true)
              × (d ≡ target_to_diff fl job.network_target_be)))

  -- The three tests of the judgement.
  credited_diff-Earned :
      (assigned current : fl.Double) (first easier second is_block : Bool)
      → is_at_most (be32_cmp hash job.network_target_be) ≡ is_block
      → clears fl hash assigned ≡ first
      → clears fl hash current ≡ second
      → (not is_block && not (first || (not first && easier && second))) ≡ false
      → Earned
          (if not first && easier && second
            then current
            else if is_block && not first
            then target_to_diff fl job.network_target_be
            else assigned)
          is_block
  credited_diff-Earned assigned current true easier second true b p q kept = (sym b, inl p)
  credited_diff-Earned assigned current true easier second false b p q kept = (sym b, inl p)
  credited_diff-Earned assigned current false true true true b p q kept = (sym b, inl q)
  credited_diff-Earned assigned current false true true false b p q kept = (sym b, inl q)
  credited_diff-Earned assigned current false true false true b p q kept = (sym b, inr (b, refl))
  credited_diff-Earned assigned current false true false false b p q kept = cc
  credited_diff-Earned assigned current false false second true b p q kept = (sym b, inr (b, refl))
  credited_diff-Earned assigned current false false second false b p q kept = cc

  pub judge-Earned :
      (ring : DiffRing fl) (c : Vardiff fl)
      → (not (judge fl job hash ring c).is_block && not (judge fl job hash ring c).meets_worker)
        ≡ false
      → Earned (judge fl job hash ring c).share_diff (judge fl job hash ring c).is_block
  unfolding judge
  judge-Earned ring c kept =
      let assigned : fl.Double = assigned_for fl job ring c in
      credited_diff-Earned assigned c.difficulty (clears fl hash assigned)
        (fl.lt c.difficulty assigned) (clears fl hash c.difficulty)
        (is_at_most (be32_cmp hash job.network_target_be)) refl refl refl kept

-- What stands behind a credit: a header over a coinbase of this connection, with an extranonce2 of
-- the width that was announced and a time within the bounds, whose hash has earned the difficulty.
pub record IsBacked (fl : DoubleOps) (sha256 : List ℕ → List ℕ) (job : StratumJob)
    (extranonce1 : List ℕ) (d : fl.Double) (is_block : Bool) (shown : List ℕ) : Type 0 where
  pub payer : Payer
  pub extranonce2 : List ℕ
  pub version : ℕ
  pub ntime : ℕ
  pub nonce : ℕ
  pub width : length extranonce2 ≡ job.en2_size
  pub timely : outside_roll job.ntime ntime ≡ false
  pub hash_shown :
      shown
      ≡ bytes_to_hex (work_of sha256 job payer extranonce1 extranonce2 version ntime nonce).hash_be
  pub earned :
      Earned fl job
        (work_of sha256 job payer extranonce1 extranonce2 version ntime nonce).hash_be
        d
        is_block

module _ (fl : DoubleOps) (sha256 : List ℕ → List ℕ) (job : StratumJob) (extranonce1 : List ℕ) where
  abbrev pub Backed : Event fl → Type 0
  Backed (Event.share d is_block shown) = IsBacked fl sha256 job extranonce1 d is_block shown
  Backed (Event.rejected why) = Unit {0}
  Backed (Event.block_submitted hex) = Unit {0}
  Backed (Event.block_found height hash reward fee accepted) = Unit {0}
  Backed (Event.set_difficulty d) = Unit {0}

  abbrev pub AllBacked : Turn fl → Type 0
  AllBacked t = All Backed t.events

  announced-Backed : (sent : Option fl.Double) → All Backed (announced sent)
  unfolding announced
  announced-Backed none = tt
  announced-Backed (some d) = (tt, tt)

  pub refuse-Backed : (why : Reason) (c : Conn fl) (s : Server) → Holds AllBacked (refuse why c s)
  unfolding refuse
  refuse-Backed why c s = tt

  pub reject-Backed : (why : Reason) (c : Conn fl) (s : Server) → Holds AllBacked (reject why c s)
  unfolding reject
  reject-Backed why c s = (tt, tt)

module _ (realloc calloc malloc : ℕ → Bool) (fl : DoubleOps) (sha256 : List ℕ → List ℕ)
    (on_block : List ℕ → Bool) (cfg : SubmitConfig fl) (now : ℕ) (job : StratumJob) where
  submit_hex-Backed :
      (extranonce1 : List ℕ) (o : Option (List ℕ))
      → All
          (Backed fl sha256 job extranonce1)
          (submit_hex realloc calloc malloc fl sha256 on_block cfg now o).1
  unfolding submit_hex
  submit_hex-Backed extranonce1 none = tt
  submit_hex-Backed extranonce1 (some hex) = (tt, tt)

  submit_block-Backed :
      (extranonce1 : List ℕ) (is_block : Bool) (w : Work)
      → All
          (Backed fl sha256 job extranonce1)
          (submit_block realloc calloc malloc fl sha256 on_block cfg now is_block job w).1
  unfolding submit_block
  submit_block-Backed extranonce1 false w = tt
  submit_block-Backed extranonce1 true w =
      submit_hex-Backed extranonce1 (assemble_block_hex job w.coinbase w.header)

  found_event-Backed :
      (extranonce1 : List ℕ) (is_block : Bool) (w : Work) (accepted : Bool)
      → All
          (Backed fl sha256 job extranonce1)
          (found_event realloc calloc malloc fl sha256 on_block cfg now is_block job w accepted)
  unfolding found_event
  found_event-Backed extranonce1 false w accepted = tt
  found_event-Backed extranonce1 true w accepted = (tt, tt)

  pub credit-Backed :
      (w : Work) (j : Judgement fl) (extranonce1 : List ℕ) (c : Conn fl) (s : Server)
      → IsBacked fl sha256 job extranonce1 j.share_diff j.is_block (bytes_to_hex w.hash_be)
      → AllBacked fl sha256 job extranonce1
          (credit realloc calloc malloc fl sha256 on_block cfg now job w j c s)
  unfolding credit
  credit-Backed w j extranonce1 c s backed =
      let P = Backed fl sha256 job extranonce1 in
      All-append P _ _
        (All-append P _ _ (submit_block-Backed extranonce1 j.is_block w)
          (backed, announced-Backed fl sha256 job extranonce1 _))
        (found_event-Backed extranonce1 j.is_block w _)
