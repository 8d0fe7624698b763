-- ===== src/Store/Calls.antt =====
-- What a call of a `store_record_` function of src/store.c does to the ring.
use simplepool.Prelude.{
  Option, ◌≡◌, ◌≢◌, refl, sym, subst, inl, inr, Bool, true, false, not, none, some, if◌then◌else◌,
}
use simplepool.Prelude.Int.{pos, ltb_ℤ}
use simplepool.Double.{DoubleOps}
use simplepool.Store.Asked.{event_of, share_event, reject_event, block_event, credit_event}
use simplepool.Store.{
  Event, Stats, Intake, Request, pushed, after_enqueue, put_event, store_record,
  store_record_share_addr, store_record_reject, store_record_block, store_record_credit,
}
use simplepool.Store.Ring.{enqueue_cases}

module _ {fl : DoubleOps} where
  -- The event that the call asks to keep is the newest of the ring, or the ring is as it was; none
  -- is counted as lost.
  abbrev pub Called : Option (Event fl) → Intake fl → Bool × Intake fl → Type 0
  Called e s (false, i) = (i.queue ≡ s.queue) × (i.stats.events_lost ≡ s.stats.events_lost)
  Called e s (true, i) =
      (ev : Event fl) × (e ≡ some ev)
      × (s.queue.ring_count ≢ s.queue.ring_cap)
      × (i.queue ≡ pushed ev s.queue)
      × (i.stats.events_lost ≡ s.stats.events_lost)

  put_event-Called :
      (queued : Stats → Stats) (ev : Event fl) (s : Intake fl)
      → ((t : Stats) → (queued t).events_lost ≡ t.events_lost)
      → Called (some ev) s (put_event queued ev s)
  unfolding put_event after_enqueue
  put_event-Called queued ev s keeps = elim (enqueue_cases ev s.queue) [
    | inl e ↦ subst (λ o. Called (some ev) s (after_enqueue queued s o)) (sym e) (refl, refl)
    | inr (free, e) ↦
        subst (λ o. Called (some ev) s (after_enqueue queued s o)) (sym e)
          (ev, refl, free, refl, keeps s.stats)
  ]

  if-Called :
      (b : Bool) (e : Option (Event fl)) (s : Intake fl) (x y : Bool × Intake fl)
      → Called e s x
      → Called e s y
      → Called e s (if b then x else y)
  if-Called true e s x y p q = p
  if-Called false e s x y p q = q

  pub store_record-Called :
      (r : Request fl) (s : Intake fl) → Called (event_of r) s (store_record r s)
  unfolding store_record store_record_share_addr store_record_reject store_record_block
      store_record_credit event_of share_event reject_event block_event credit_event
  store_record-Called (Request.share none address ts d is_block hash sats rate) s = (refl, refl)
  store_record-Called (Request.share (some name) address ts d is_block hash sats rate) s =
      put_event-Called _ _ s (λ t. refl)
  store_record-Called (Request.reject name ts none) s = (refl, refl)
  store_record-Called (Request.reject name ts (some reason)) s = put_event-Called _ _ s (λ t. refl)
  store_record-Called (Request.block ts height none finder address reward fee status error w) s =
      (refl, refl)
  store_record-Called (Request.block ts height (some hash) finder address reward fee status error w)
        s =
      if-Called (not (ltb_ℤ (pos 0) height)) _ s _ _ (refl, refl)
        (put_event-Called _ _ s (λ t. refl))
  store_record-Called (Request.credit none address ts sats) s = (refl, refl)
  store_record-Called (Request.credit (some name) address ts sats) s =
      if-Called (not (ltb_ℤ (pos 0) sats)) _ s _ _ (refl, refl) (put_event-Called _ _ s (λ t. refl))
