-- ===== src/Store/Accounted.antt =====
-- No accepted event of the store of src/store.c is out of account, in whatever order its threads run.
use simplepool.Store.Account.{
  events_of, lost_of, events_of-append, lost_of-append, in_flight, Sequenced, batch_size_le,
  sequence_lem, lost_lem, account_grows, counted_one,
}
use simplepool.Prelude.{
  ℕ, ◌+◌, ◌-◌, ◌%◌, ◌^◌, ◌<◌, ◌≡◌, ◌≢◌, refl, sym, ap, subst, subst₂, ◌∙◌, Option, some, Bool, true,
  false, List, ◌++◌, length, length-append, append_assoc, arith,
}
use native.Mathlib.Nat.{mod-eq_of_lt}
use simplepool.Double.{DoubleOps}
use simplepool.Store.Asked.{event_of}
use simplepool.Store.{Event, Queue, Intake, pushed}
use simplepool.Store.Process.{DbOps, Desk}
use simplepool.Store.Writer.{
  Attempt, commit_batch, batch_size, take_batch, sequence_after, finish_round,
}
use simplepool.Store.Ring.{
  contents, IsRing, pushed-contents, take_batch-contents, length-contents_from,
}
use simplepool.Store.Calls.{Called, store_record-Called}
use simplepool.Store.Counters.{commit_batch-lost}
use simplepool.Store.Steps.{
  Phase, System, opened, after_call, after_take, after_commit, Step, Reach,
}

module _ {fl : DoubleOps} {dbs : DbOps fl} where
  pub record IsAccounted (s : System fl dbs) : Type 0 where
    pub ring : IsRing s.store.queue
    pub account : s.accepted ≡ events_of s.settled ++ (in_flight s.phase ++ contents s.store.queue)
    pub enqueued : s.store.queue.enqueue_seq ≡ length s.accepted % 2 ^ 64
    pub committed : s.store.queue.committed_seq ≡ length (events_of s.settled) % 2 ^ 64
    pub sequenced : Sequenced s.phase (length (events_of s.settled))
    pub lost : s.store.desk.stats.events_lost ≡ lost_of s.settled % 2 ^ 64

  opened-IsAccounted :
      (ring_cap : ℕ) (db : dbs.Db)
      → 0 < ring_cap
      → ring_cap < 2 ^ 64
      → IsAccounted (opened {fl = fl} {dbs = dbs} ring_cap db)
  opened-IsAccounted ring_cap db room small = record {
    ring = record {
      has_room = room;
      small = small;
      count_in = omega arith;
      tail_in = room;
      head_at = sym (mod-eq_of_lt {n = 0} {m = ring_cap} room);
    };
    account = refl;
    enqueued = refl;
    committed = refl;
    sequenced = tt;
    lost = refl;
  }

  -- A call that has put the event into the ring.
  put-IsAccounted :
      (e : Option (Event fl)) (s : System fl dbs) (i : Intake fl) (ev : Event fl)
      → e ≡ some ev
      → s.store.queue.ring_count ≢ s.store.queue.ring_cap
      → i.queue ≡ pushed ev s.store.queue
      → i.stats.events_lost ≡ s.store.desk.stats.events_lost
      → IsAccounted s
      → IsAccounted (after_call e s (true, i))
  unfolding pushed
  put-IsAccounted e s i ev asked free moved kept a =
      let q : Queue (Event fl) = s.store.queue in
      let (ring, whole) = pushed-contents ev q a.ring free in
      subst₂ (λ e' q'. IsAccounted (after_call e' s (true, record i { queue = q' }))) (sym asked)
        (sym moved)
        (record {
          ring = ring;
          account =
              account_grows (events_of s.settled) (in_flight s.phase) (contents q) a.account refl
                whole;
          enqueued = counted_one s.store.queue.enqueue_seq s.accepted ev a.enqueued;
          committed = a.committed;
          sequenced = a.sequenced;
          lost = kept ∙ a.lost;
        })

  call-IsAccounted :
      (e : Option (Event fl)) (s : System fl dbs) (r : Bool × Intake fl)
      → Called e (record { queue = s.store.queue; stats = s.store.desk.stats }) r
      → IsAccounted s
      → IsAccounted (after_call e s r)
  call-IsAccounted e s (false, i) (moved, kept) a =
      subst (λ q'. IsAccounted (after_call e s (false, record i { queue = q' }))) (sym moved)
        (record {
          ring = a.ring;
          account = a.account;
          enqueued = a.enqueued;
          committed = a.committed;
          sequenced = a.sequenced;
          lost = kept ∙ a.lost;
        })
  call-IsAccounted e s (true, i) (ev, asked, free, moved, kept) a =
      put-IsAccounted e s i ev asked free moved kept a

  pub waiting_account :
      (s : System fl dbs)
      → s.phase ≡ Phase.waiting
      → IsAccounted s
      → s.accepted ≡ events_of s.settled ++ contents s.store.queue
  waiting_account s idle a =
      a.account ∙ ap (λ ph. events_of s.settled ++ (in_flight ph ++ contents s.store.queue)) idle

  waiting_length :
      (s : System fl dbs)
      → s.phase ≡ Phase.waiting
      → IsAccounted s
      → length s.accepted ≡ length (events_of s.settled) + s.store.queue.ring_count
  waiting_length s idle a =
      let q : Queue (Event fl) = s.store.queue in
      ap length (waiting_account s idle a)
      ∙ length-append (events_of s.settled) (contents q)
      ∙ ap (λ k. length (events_of s.settled) + k)
          (length-contents_from q.ring q.ring_cap q.ring_tail q.ring_count)

  take-IsAccounted :
      (commit_max_shares : ℕ) (s : System fl dbs)
      → s.phase ≡ Phase.waiting
      → IsAccounted s
      → IsAccounted (after_take commit_max_shares s)
  unfolding take_batch sequence_after
  take-IsAccounted commit_max_shares s idle a =
      let q : Queue (Event fl) = s.store.queue in
      let n : ℕ = batch_size commit_max_shares q in
      let (ring, whole, size) =
        take_batch-contents n q (batch_size_le commit_max_shares q) a.ring in
      record {
        ring = ring;
        account = waiting_account s idle a ∙ ap (λ es. events_of s.settled ++ es) whole;
        enqueued = a.enqueued;
        committed = a.committed;
        sequenced =
            sequence_lem q.enqueue_seq (length s.accepted) (length (events_of s.settled)) n
              (q.ring_count - n) a.enqueued
              (waiting_length s idle a
                ∙ ap (λ k. length (events_of s.settled) + k) {x = q.ring_count}
                    {y = n + (q.ring_count - n)} (omega (arith, batch_size_le commit_max_shares q)))
              (omega (arith, a.ring.count_in, a.ring.small))
            ∙ ap (λ k. (length (events_of s.settled) + k) % 2 ^ 64) (sym size);
        lost = a.lost;
      }

  commit-IsAccounted :
      (answer : ℕ → Attempt dbs.Db) (batch : List (Event fl)) (seq_after : ℕ) (s : System fl dbs)
      → s.phase ≡ Phase.committing batch seq_after
      → IsAccounted s
      → IsAccounted (after_commit answer batch seq_after s)
  unfolding finish_round
  commit-IsAccounted answer batch seq_after s busy a =
      let result : Bool × Desk fl dbs = commit_batch answer batch s.store.desk in
      record {
        ring = record {
          has_room = a.ring.has_room;
          small = a.ring.small;
          count_in = a.ring.count_in;
          tail_in = a.ring.tail_in;
          head_at = a.ring.head_at;
        };
        account =
            a.account
            ∙ ap (λ ph. events_of s.settled ++ (in_flight ph ++ contents s.store.queue)) busy
            ∙ sym (append_assoc (events_of s.settled) batch (contents s.store.queue))
            ∙ ap (λ es. es ++ contents s.store.queue)
                (sym (events_of-append s.settled (record { events = batch; done = result.0 })));
        enqueued = a.enqueued;
        committed =
            subst (λ ph. Sequenced ph (length (events_of s.settled))) busy a.sequenced
            ∙ ap (λ k. k % 2 ^ 64)
                (sym (length-append (events_of s.settled) batch)
                  ∙ ap length (
                      sym
                        (events_of-append s.settled (record { events = batch; done = result.0 }))));
        sequenced = tt;
        lost =
            lost_lem result.0 (length batch) (lost_of s.settled) result.1.stats
              (commit_batch-lost answer batch s.store.desk ∙ a.lost)
            ∙ ap (λ k. k % 2 ^ 64)
                (sym (lost_of-append s.settled (record { events = batch; done = result.0 })));
      }

  pub Step-IsAccounted :
      (commit_max_shares : ℕ) {s t : System fl dbs}
      → IsAccounted s
      → Step commit_max_shares s t
      → IsAccounted t
  Step-IsAccounted commit_max_shares {s} a (Step.call r) =
      call-IsAccounted (event_of r) s _ (store_record-Called r _) a
  Step-IsAccounted commit_max_shares {s} a (Step.take idle ne) =
      take-IsAccounted commit_max_shares s idle a
  Step-IsAccounted commit_max_shares {s} a (Step.commit {batch} {seq_after} busy answer) =
      commit-IsAccounted answer batch seq_after s busy a

  -- In whatever order producers and the writer thread run, every event that a call asked the store
  -- to keep and that it accepted is, unchanged and in the order of acceptance, in exactly one
  -- place: in a batch that is done with, in the batch that is being committed, or in the ring. The
  -- sequence numbers count, modulo 2 ^ 64, the accepted events and those that are done with,
  -- `events_lost` those of the batches that the database did not take, and the ring stays within
  -- its bounds; it has fewer than 2 ^ 64 slots.
  pub Reach-IsAccounted :
      (ring_cap commit_max_shares : ℕ) (db : dbs.Db) {s : System fl dbs}
      → 0 < ring_cap
      → ring_cap < 2 ^ 64
      → Reach ring_cap commit_max_shares db s
      → IsAccounted s
  Reach-IsAccounted ring_cap commit_max_shares db room small Reach.start =
      opened-IsAccounted ring_cap db room small
  Reach-IsAccounted ring_cap commit_max_shares db room small (Reach.later r step) =
      Step-IsAccounted commit_max_shares
        (Reach-IsAccounted ring_cap commit_max_shares db room small r) step
