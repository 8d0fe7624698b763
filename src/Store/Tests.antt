-- ===== src/Store/Tests.antt =====
-- The store of src/store.c on a small run: a ring of two slots, batches of one event, and a database
-- that keeps the difficulty of each share and the hash of each block.
use simplepool.Prelude.{
  ℕ, ◌≡◌, refl, sym, subst, inl, inr, Bool, Bool-cases, false, true, none, some, List, [], ◌∷◌,
  ◌==◌, if◌then◌else◌, length, arith,
}
use simplepool.Prelude.Int.{ℤ, pos, ltb_ℤ}
use simplepool.Prelude.Text.{codes, same_text}
use simplepool.Double.{fractions}
use simplepool.Store.{
  Kind, Event, Request, zeroed, store_record, store_record_share_addr, store_record_credit,
  put_event, after_enqueue, enqueue, pushed, ring_write,
}
use simplepool.Store.Process.{
  DbOps, cache_lookup, name_hash, name_hash_from, same_name, lookup_from, cache_insert, insert_from,
  process_event, process_kind, resolve_worker_id, resolved, process_share, count_step, count_error,
}
use simplepool.Store.Writer.{
  Attempt, writer_main, commit_batch, store_commit_attempts, attempts_from, attempt_once,
  process_all, count_batch,
}
use simplepool.Store.Steps.{Phase, System, opened, after_record, after_take, Step, Reach}
use simplepool.Store.Atomic.{Once, Undone, any_committed, commit_batch-Once}
use simplepool.Store.Accounted.{IsAccounted, Reach-IsAccounted}
use simplepool.Store.Account.{events_of}
use simplepool.Store.Close.{close-settles}

-- A row of a share has its worker and its amount, one of a credit its amount.
abbrev log : DbOps fractions
log = record {
  Db = List ℤ;
  upsert_worker = λ name ts address db. (some (pos (length name)), db);
  insert_share = λ id ts diff is_block hash sats rate db. (true, id ∷ sats ∷ db);
  insert_reject = λ name ts reason db. (true, db);
  insert_block =
      λ ts height hash finder address reward fee status error w db. (some true, height ∷ db);
  upsert_credit = λ id sats ts db. (true, sats ∷ db);
}

abbrev ann : List ℕ
ann = codes "ann"

abbrev paid_share : ℤ → Request fractions
paid_share sats =
    Request.share (some ann) none 1000 (fractions.of_ℤ (pos 8)) (pos 0) none sats
      (fractions.of_ℤ (pos 1))

abbrev empty_db : List ℤ
empty_db = []

abbrev SystemLog : Type 0
SystemLog = System fractions log

abbrev s0 : SystemLog
s0 = opened 2 empty_db

abbrev s1 : SystemLog
s1 = after_record (paid_share (pos 5)) s0

abbrev s2 : SystemLog
s2 = after_record (Request.credit (some ann) none 1000 (pos 9)) s1

-- the ring is full
abbrev s3 : SystemLog
s3 = after_record (paid_share (pos 6)) s2

abbrev s4 : SystemLog
s4 = after_take 1 s3

-- BEGIN fails once, and COMMIT once
abbrev answer_at : Bool → Bool → Attempt (List ℤ)
answer_at first second =
    if first
    then Attempt.begin_failed
    else if second
    then Attempt.commit_failed (λ before after. before)
    else Attempt.committed

abbrev third_time : ℕ → Attempt (List ℤ)
third_time k = answer_at (k == 1) (k == 2)

-- SQLite has rolled the transaction back by itself before the inserts, which then stand alone: the
-- COMMIT fails and there is nothing to undo.
abbrev rolled_back_before : ℕ → Attempt (List ℤ)
rolled_back_before k =
    if k == 1 then Attempt.commit_failed (λ before after. after) else Attempt.committed

full_ring : (s3.phase ≡ Phase.waiting) × (s3.store.queue.ring_count ≡ 2)
unfolding store_record store_record_share_addr store_record_credit put_event after_enqueue enqueue
    pushed ltb_ℤ
full_ring = (refl, refl)

idle_writer : (s2.phase ≡ Phase.waiting) × (s2.store.queue.ring_count ≡ 2)
unfolding store_record store_record_share_addr store_record_credit put_event after_enqueue enqueue
    pushed ltb_ℤ
idle_writer = (refl, refl)

two_reached : Reach 2 1 empty_db s2
two_reached = Reach.later (Reach.later Reach.start (Step.call _)) (Step.call _)

taken_reached : Reach 2 1 empty_db s4
taken_reached =
    Reach.later (Reach.later two_reached (Step.call (paid_share (pos 6))))
      (Step.take full_ring.0 (omega (arith, full_ring.1)))

Reach-IsAccounted_example : IsAccounted s4
Reach-IsAccounted_example = Reach-IsAccounted 2 1 empty_db (omega arith) (omega arith) taken_reached

close-settles_example :
    (t : SystemLog) × Reach 2 1 empty_db t
    × (writer_main 1 3 (λ _. third_time) s2.store ≡ some t.store)
    × (t.store.queue.ring_count ≡ 0)
    × (t.accepted ≡ s2.accepted)
    × (t.accepted ≡ events_of t.settled)
close-settles_example =
    close-settles 2 1 empty_db 3 (λ _. third_time) s2 (omega arith) (omega arith) (omega arith)
      idle_writer.0 (omega (arith, idle_writer.1)) two_reached

abbrev ann_share : Event fractions
ann_share = record (zeroed fractions Kind.share 1000) { worker_name = ann; delta_sats = pos 5 }

third_time-Undone : (k : ℕ) → Undone (third_time k)
third_time-Undone k = elim (Bool-cases (k == 1)) [
  | inl first ↦ subst (λ b. Undone (answer_at b (k == 2))) (sym first) tt
  | inr later ↦ elim (Bool-cases (k == 2)) [
    | inl second ↦
        subst (λ b. Undone (answer_at b (k == 2))) (sym later)
          (subst (λ b. Undone (answer_at false b)) (sym second) (λ before after. refl))
    | inr third ↦
        subst (λ b. Undone (answer_at b (k == 2))) (sym later)
          (subst (λ b. Undone (answer_at false b)) (sym third) tt)
  ]
]

commit_batch-Once_example :
    Once {dbs = log} s0.store.desk
      (ann_share ∷ [])
      store_commit_attempts
      (commit_batch third_time (ann_share ∷ []) s0.store.desk)
    × ((commit_batch third_time (ann_share ∷ []) s0.store.desk).0
        ≡ any_committed third_time store_commit_attempts 1)
commit_batch-Once_example =
    commit_batch-Once third_time (ann_share ∷ []) s0.store.desk third_time-Undone

-- The row is there once; the counter counts the share of the attempt that was rolled back as well.
retried :
    ((commit_batch third_time (ann_share ∷ []) s0.store.desk).1.db ≡ pos 3 ∷ pos 5 ∷ [])
    × ((commit_batch third_time (ann_share ∷ []) s0.store.desk).1.stats.shares_committed ≡ 2)
unfolding commit_batch attempts_from attempt_once process_all process_event process_kind
    resolve_worker_id resolved process_share count_step count_batch count_error zeroed cache_lookup
    lookup_from ltb_ℤ cache_insert insert_from ring_write name_hash name_hash_from same_name
    same_text
retried = (refl, refl)

-- The row of the one event is there twice.
doubled :
    (commit_batch rolled_back_before (ann_share ∷ []) s0.store.desk).1.db
    ≡ pos 3 ∷ pos 5 ∷ pos 3 ∷ pos 5 ∷ []
unfolding commit_batch attempts_from attempt_once process_all process_event process_kind
    resolve_worker_id resolved process_share count_step count_batch count_error zeroed cache_lookup
    lookup_from ltb_ℤ cache_insert insert_from ring_write name_hash name_hash_from same_name
    same_text
doubled = refl
