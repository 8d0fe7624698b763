-- ===== src/Stratum/Submit/Answered.antt =====
-- What it is that a request to submit is answered by src/stratum.c, and the look-up of a hash on the
-- way there.
use simplepool.Prelude.{
  ℕ, ◌<◌, ◌≡◌, refl, Bool, true, false, some, List, [], ◌∷◌, arith, if◌then◌else◌,
}
use simplepool.Double.{DoubleOps}
use simplepool.Template.{Outcome}
use simplepool.Stratum.ShareDedupe.{
  ShareDedupe, share_dedupe_ring, share_dedupe_slot_bits, slots, fnv1a_bytes,
  share_dedupe_check_and_add,
}
use simplepool.Stratum.ShareDedupe.Fifo.{Represents, admit}
use simplepool.Stratum.ShareDedupe.Refine.{check_and_add-admit}
use simplepool.Stratum.Submit.{Reason, Conn, Server, Event, Turn, refuse, reject}

-- The server's set of credited hashes is in order: it stands for some list of keys.
pub record IsOrdered (s : Server) : Type 0 where
  pub keys : List ℕ
  pub represents : Represents share_dedupe_slot_bits share_dedupe_ring s.share_dedupe keys

-- The code comes to a turn, and the server is in order after it.
module _ {fl : DoubleOps} where
  abbrev pub Answered : Outcome (Turn fl) → Type 0
  Answered o = (t : Turn fl) × (o ≡ Outcome.ok t) × IsOrdered t.server

  pub if-Answered :
      (b : Bool) (o o' : Outcome (Turn fl))
      → Answered o
      → Answered o'
      → Answered (if b then o else o')
  if-Answered true o o' h h' = h
  if-Answered false o o' h h' = h'

  pub refuse-Answered :
      (why : Reason) (c : Conn fl) (s : Server) → IsOrdered s → Answered (refuse why c s)
  unfolding refuse
  refuse-Answered why c s o =
      (record { reply = some why; conn = c; server = s; events = [] }, refl, o)

  pub reject-Answered :
      (why : Reason) (c : Conn fl) (s : Server) → IsOrdered s → Answered (reject why c s)
  unfolding reject
  reject-Answered why c s o =
      (record { reply = some why; conn = c; server = s; events = Event.rejected why ∷ [] }, refl, o)

small_ring : share_dedupe_ring < slots share_dedupe_slot_bits
unfolding slots
small_ring = omega arith

-- Neither outcome of the look-up is missing, and what it leaves is in order.
pub lookup-IsOrdered :
    (s : Server) (hash : List ℕ)
    → IsOrdered s
    → (dup : Bool) × (d : ShareDedupe) × (share_dedupe_check_and_add s.share_dedupe hash
        ≡ some (dup, d))
      × IsOrdered (record s { share_dedupe = d })
unfolding share_dedupe_check_and_add
lookup-IsOrdered s hash o =
    let (d, done, r) =
      check_and_add-admit share_dedupe_slot_bits share_dedupe_ring (omega arith) small_ring
        s.share_dedupe o.keys (fnv1a_bytes hash) (omega arith) o.represents in
    (
      (admit share_dedupe_ring o.keys (fnv1a_bytes hash)).0,
      d,
      done,
      record { keys = (admit share_dedupe_ring o.keys (fnv1a_bytes hash)).1; represents = r },
    )
