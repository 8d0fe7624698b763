-- ===== src/Store/Account.antt =====
-- The accounts of the events of src/store.c, and the arithmetic of its sequence numbers.
use simplepool.Prelude.{
  ℕ, ◌+◌, ◌-◌, ◌%◌, ◌^◌, ◌≤◌, ◌<◌, ◌≡◌, sym, ap, ◌∙◌, Bool, true, false, List, [], ◌∷◌, ◌++◌,
  length, length-append, append_assoc, append-nil, arith, if◌then◌else◌,
}
use simplepool.Double.{DoubleOps}
use simplepool.Store.{Event, Queue, add_u64, Stats}
use simplepool.Store.Writer.{batch_size, count_lost}
use simplepool.Store.Steps.{Phase, Batch}

module _ {fl : DoubleOps} where
  abbrev pub events_of : List (Batch fl) → List (Event fl)
  events_of [] = []
  events_of (b ∷ bs) = b.events ++ events_of bs

  -- How many events the batches hold that the database did not take.
  abbrev pub lost_of : List (Batch fl) → ℕ
  lost_of [] = 0
  lost_of (b ∷ bs) = (if b.done then 0 else length b.events) + lost_of bs

  pub events_of-append :
      (bs : List (Batch fl)) (b : Batch fl) → events_of (bs ++ (b ∷ [])) ≡ events_of bs ++ b.events
  events_of-append [] b = append-nil b.events
  events_of-append (a ∷ bs) b =
      ap (λ es. a.events ++ es) (events_of-append bs b)
      ∙ sym (append_assoc a.events (events_of bs) b.events)

  pub lost_of-append :
      (bs : List (Batch fl)) (b : Batch fl)
      → lost_of (bs ++ (b ∷ [])) ≡ lost_of bs + (if b.done then 0 else length b.events)
  lost_of-append [] b = omega arith
  lost_of-append (a ∷ bs) b = omega (arith, lost_of-append bs b)

  abbrev pub in_flight : Phase fl → List (Event fl)
  in_flight Phase.waiting = []
  in_flight (Phase.committing batch seq_after) = batch

  abbrev pub Sequenced : Phase fl → ℕ → Type 0
  Sequenced Phase.waiting settled = Unit {0}
  Sequenced (Phase.committing batch seq_after) settled =
      seq_after ≡ (settled + length batch) % 2 ^ 64

pub batch_size_le :
    {A : Type 0} (commit_max_shares : ℕ) (q : Queue A)
    → batch_size commit_max_shares q ≤ q.ring_count
unfolding batch_size
batch_size_le commit_max_shares q = ground arith

-- The sequence number behind a batch of `n` events, of which `left` stay in the ring.
pub sequence_lem :
    (seq accepted settled n left : ℕ)
    → seq ≡ accepted % 2 ^ 64
    → accepted ≡ settled + (n + left)
    → left < 2 ^ 64
    → (seq + 2 ^ 64 - left) % 2 ^ 64 ≡ (settled + n) % 2 ^ 64
sequence_lem seq accepted settled n left e w small = omega arith

pub lost_lem :
    (done : Bool) (n before : ℕ) (t : Stats)
    → t.events_lost ≡ before % 2 ^ 64
    → (count_lost done n t).events_lost ≡ (before + (if done then 0 else n)) % 2 ^ 64
unfolding count_lost
lost_lem true n before t e = omega arith
lost_lem false n before t e = omega arith

-- The account after an event has come into the ring.
pub account_grows :
    {A : Type 0} (settled flying ring : List A) {accepted ring' : List A} {x ev : A}
    → accepted ≡ settled ++ (flying ++ ring)
    → x ≡ ev
    → ring' ≡ ring ++ (ev ∷ [])
    → accepted ++ (x ∷ []) ≡ settled ++ (flying ++ ring')
account_grows settled flying ring {accepted} {ring'} {x} {ev} a e r =
    ap (λ es. es ++ (x ∷ [])) a
    ∙ append_assoc settled (flying ++ ring) (x ∷ [])
    ∙ ap (λ es. settled ++ es)
        (append_assoc flying ring (x ∷ [])
          ∙ ap (λ es. flying ++ es) (ap (λ y. ring ++ (y ∷ [])) e ∙ sym r))

pub counted_one :
    {A : Type 0} (seq : ℕ) (accepted : List A) (x : A)
    → seq ≡ length accepted % 2 ^ 64
    → add_u64 seq 1 ≡ length (accepted ++ (x ∷ [])) % 2 ^ 64
counted_one seq accepted x e = omega (arith, length-append accepted (x ∷ []))
