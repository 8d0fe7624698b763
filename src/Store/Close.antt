-- ===== src/Store/Close.antt =====
-- The writer thread of src/store.c after `store_close` has set `stop`: it ends, with every accepted
-- event settled.
use simplepool.Prelude.{
  ℕ, zero, suc, ◌+◌, ◌^◌, ◌<◌, ◌≡◌, ◌≢◌, refl, sym, ap, subst, ◌∙◌, inl, inr, Bool-cases, Bool,
  Option, some, ◌++◌, append-nil, arith, ◌==◌, if◌then◌else◌,
}
use simplepool.Double.{DoubleOps}
use simplepool.Store.Process.{DbOps}
use simplepool.Store.Writer.{
  Attempt, Store, batch_size, take_batch, sequence_after, finish_round, writer_round, writer_main,
}
use simplepool.Store.Ring.{contents_from}
use simplepool.Store.Steps.{Phase, System, after_take, after_commit, Step, Reach}
use simplepool.Store.Accounted.{waiting_account, Reach-IsAccounted}
use simplepool.Store.Account.{events_of}

module _ {fl : DoubleOps} {dbs : DbOps fl} (ring_cap commit_max_shares : ℕ) (db : dbs.Db) where
  -- A round of the writer, as a state of the whole store.
  abbrev after_round : (ℕ → Attempt dbs.Db) → System fl dbs → System fl dbs
  after_round answer s =
      let step = take_batch (batch_size commit_max_shares s.store.queue) s.store.queue in
      after_commit answer step.0 (sequence_after step.1) (after_take commit_max_shares s)

  round-Reach :
      (answer : ℕ → Attempt dbs.Db) (s : System fl dbs)
      → s.phase ≡ Phase.waiting
      → s.store.queue.ring_count ≢ 0
      → Reach ring_cap commit_max_shares db s
      → Reach ring_cap commit_max_shares db (after_round answer s)
  round-Reach answer s idle ne r =
      Reach.later (Reach.later r (Step.take idle ne)) (Step.commit refl answer)

  round-store :
      (answer : ℕ → Attempt dbs.Db) (s : System fl dbs)
      → (after_round answer s).store ≡ writer_round commit_max_shares answer s.store
  unfolding writer_round
  round-store answer s = refl

  round-count :
      (answer : ℕ → Attempt dbs.Db) (s : System fl dbs)
      → 0 < commit_max_shares
      → s.store.queue.ring_count ≢ 0
      → (after_round answer s).store.queue.ring_count < s.store.queue.ring_count
  unfolding finish_round take_batch batch_size
  round-count answer s positive ne = ground arith

  pub record IsClosed (s : System fl dbs) (o : Option (Store fl dbs)) : Type 0 where
    pub last : System fl dbs
    pub reached : Reach ring_cap commit_max_shares db last
    pub returned : o ≡ some last.store
    pub idle : last.phase ≡ Phase.waiting
    pub empty : last.store.queue.ring_count ≡ 0
    pub no_more : last.accepted ≡ s.accepted

  main-IsClosed :
      (fuel : ℕ) (answers : ℕ → ℕ → Attempt dbs.Db) (s : System fl dbs)
      → 0 < commit_max_shares
      → s.phase ≡ Phase.waiting
      → s.store.queue.ring_count < fuel
      → Reach ring_cap commit_max_shares db s
      → IsClosed s (writer_main commit_max_shares fuel answers s.store)
  unfolding writer_main
  main-IsClosed zero answers s positive idle small r = absurd (omega arith)
  main-IsClosed (suc n) answers s positive idle small r =
      let rest : Option (Store fl dbs) =
        writer_main commit_max_shares n (λ i. answers (i + 1))
          (writer_round commit_max_shares (answers 0) s.store) in
      let choose : Bool → Option (Store fl dbs) = λ b. if b then some s.store else rest in
      elim (Bool-cases (s.store.queue.ring_count == 0)) [
        | inl e ↦
            subst (λ b. IsClosed s (choose b)) (sym e)
              (record {
                last = s;
                reached = r;
                returned = refl;
                idle = idle;
                empty = ground arith;
                no_more = refl;
              })
        | inr e ↦
            let ne : s.store.queue.ring_count ≢ 0 = ground arith in
            let c =
              main-IsClosed n (λ i. answers (i + 1)) (after_round (answers 0) s) positive refl
                (omega (arith, round-count (answers 0) s positive ne, small))
                (round-Reach (answers 0) s idle ne r) in
            subst (λ b. IsClosed s (choose b)) (sym e)
              (record {
                last = c.last;
                reached = c.reached;
                returned =
                    ap (writer_main commit_max_shares n (λ i. answers (i + 1)))
                      (sym (round-store (answers 0) s))
                    ∙ c.returned;
                idle = c.idle;
                empty = c.empty;
                no_more = c.no_more;
              })
      ]

  -- Once the writer is told to stop, in any state that producers and it can reach, and no producer
  -- is left, its loop ends after at most one round more than there are events in the ring, whatever
  -- SQLite answers: the ring is empty, and all the events that were ever accepted are in batches that
  -- are done with.
  pub close-settles :
      (fuel : ℕ) (answers : ℕ → ℕ → Attempt dbs.Db) (s : System fl dbs)
      → 0 < ring_cap
      → ring_cap < 2 ^ 64
      → 0 < commit_max_shares
      → s.phase ≡ Phase.waiting
      → s.store.queue.ring_count < fuel
      → Reach ring_cap commit_max_shares db s
      → (t : System fl dbs) × Reach ring_cap commit_max_shares db t
        × (writer_main commit_max_shares fuel answers s.store ≡ some t.store)
        × (t.store.queue.ring_count ≡ 0)
        × (t.accepted ≡ s.accepted)
        × (t.accepted ≡ events_of t.settled)
  close-settles fuel answers s room small positive idle enough r =
      let c = main-IsClosed fuel answers s positive idle enough r in
      (
        c.last,
        c.reached,
        c.returned,
        c.empty,
        c.no_more,
        waiting_account c.last c.idle
              (Reach-IsAccounted ring_cap commit_max_shares db room small c.reached)
            ∙ ap
                (λ n.
                  events_of c.last.settled
                  ++ contents_from c.last.store.queue.ring c.last.store.queue.ring_cap
                      c.last.store.queue.ring_tail n)
                c.empty
            ∙ append-nil (events_of c.last.settled),
      )
