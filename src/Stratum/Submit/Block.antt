-- ===== src/Stratum/Submit/Block.antt =====
-- A hash that meets the network's target reaches the node, whatever src/stratum.c thinks of it as a
-- share.
use simplepool.Prelude.{
  ℕ, ◌≡◌, refl, ap, ◌∙◌, Bool, true, false, not, ◌&&◌, Option, none, some, List, [], ◌∷◌, ◌++◌,
  if◌then◌else◌,
}
use simplepool.Double.{DoubleOps}
use simplepool.Prelude.Int.{◌-ℤ◌}
use simplepool.Hex.{bytes_to_hex}
use simplepool.Share.{be32_cmp}
use simplepool.Template.{Outcome}
use simplepool.Stratum.ShareDedupe.{ShareDedupe, share_dedupe_check_and_add}
use simplepool.Stratum.Jobs.{StratumJob}
use simplepool.Stratum.Block.{assemble_block_hex}
use simplepool.Stratum.Submit.Judge.{Judgement, judge, is_at_most, count_share}
use simplepool.Stratum.Submit.{
  SubmitConfig, Conn, Server, Event, Turn, Work, found_fee, submit_hex, submit_block, found_event,
  credit, submit_judged, submit_checked, submit_hashed, announced, current_target, reject, Reason,
}
use simplepool.Stratum.Vardiff.{vardiff_maybe_retarget, current_net_diff}

module _ (realloc calloc malloc : ℕ → Bool) (fl : DoubleOps) (sha256 : List ℕ → List ℕ)
    (on_block : List ℕ → Bool) (cfg : SubmitConfig fl) (now : ℕ) (job : StratumJob) (w : Work)
    (c : Conn fl) (s : Server) where
  -- The turn of a block: the node is asked first, and its answer is in what is reported last.
  pub record IsBlockTurn (hex : List ℕ) (d : ShareDedupe) (t : Turn fl) : Type 0 where
    pub replied : t.reply ≡ none
    pub remembered : t.server ≡ record s { share_dedupe = d }
    pub told :
        (credited : fl.Double) × (others : List (Event fl)) × (t.events
          ≡ Event.block_submitted hex
            ∷ Event.share credited true (bytes_to_hex w.hash_be)
            ∷ (others
                ++ (Event.block_found job.height
                      (bytes_to_hex w.hash_be)
                      (job.value_sats -ℤ found_fee cfg.pay job.value_sats)
                      (found_fee cfg.pay job.value_sats)
                      (on_block hex)
                    ∷ [])))

  block_credit :
      (hex : List ℕ) (d : ShareDedupe) (j : Judgement fl)
      → j.is_block ≡ true
      → assemble_block_hex job w.coinbase w.header ≡ some hex
      → IsBlockTurn hex d (
          credit realloc calloc malloc fl sha256 on_block cfg now job w j c
            (record s { share_dedupe = d }))
  unfolding credit submit_block submit_hex found_event
  block_credit hex d j block assembled =
      let sent =
        announced
          (vardiff_maybe_retarget fl cfg.vardiff
            (current_net_diff fl (current_target s.jobs.current_job)) c.policy now
            (count_share fl j w.hash_be c.vardiff)).1 in
      let shown : List ℕ = bytes_to_hex w.hash_be in
      let told_of : Bool → Bool × List (Event fl) → List (Event fl) = λ b asked.
        asked.1
        ++ (Event.share j.share_diff b shown ∷ sent)
        ++ found_event realloc calloc malloc fl sha256 on_block cfg now b job w asked.0 in
      let asks : Bool → Bool × List (Event fl) =
        λ b. submit_block realloc calloc malloc fl sha256 on_block cfg now b job w in
      record {
        replied = refl;
        remembered = refl;
        told = (
          j.share_diff,
          sent,
          ap (λ (b : Bool). told_of b (asks b)) block
              ∙ ap
                  (λ (o : Option (List ℕ)).
                    told_of true (submit_hex realloc calloc malloc fl sha256 on_block cfg now o))
                  assembled,
        );
      }

  -- Where the hash is at most the network's target, has not been seen before and the block can be
  -- put together, the block is handed to the node, the share is credited, and the outcome is
  -- reported with the node's answer, even where the hash misses the target of the connection.
  pub block-submitted :
      (hex : List ℕ) (d : ShareDedupe)
      → is_at_most (be32_cmp w.hash_be job.network_target_be) ≡ true
      → share_dedupe_check_and_add s.share_dedupe w.hash_be ≡ some (false, d)
      → assemble_block_hex job w.coinbase w.header ≡ some hex
      → (t : Turn fl) × (submit_hashed realloc calloc malloc fl sha256 on_block cfg now job w c s
          ≡ Outcome.ok t)
        × IsBlockTurn hex d t
  unfolding submit_hashed submit_checked submit_judged judge
  block-submitted hex d block fresh assembled =
      let j : Judgement fl = judge fl job w.hash_be c.job_diffs c.vardiff in
      let kept : (not j.is_block && not j.meets_worker) ≡ false =
        ap (λ (b : Bool). not b && not j.meets_worker) block in
      let s' : Server = record s { share_dedupe = d } in
      let t : Turn fl = credit realloc calloc malloc fl sha256 on_block cfg now job w j c s' in
      let judged : submit_judged realloc calloc malloc fl sha256 on_block cfg now job w j c s'
          ≡ Outcome.ok t =
        ap (λ (b : Bool). if b then reject Reason.low_difficulty c s' else Outcome.ok t) kept in
      (
        t,
        ap (submit_checked realloc calloc malloc fl sha256 on_block cfg now job w c s) fresh
            ∙ judged,
        block_credit hex d j block assembled,
      )
