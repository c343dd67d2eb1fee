-- ===== src/Outbox/Relay.antt =====
-- internal/outbox/relay.go: one iteration of the relay, against a store, a queue and a ledger that may
-- fail at every call. A relay that dies in the middle is one whose further calls all fail.
use resilient_mesh_razorpayb.Base.{
  ℕ, suc, Bool, true, false, not, ◌&&◌, ◌||◌, Option, none, some, List, [], ◌∷◌, ◌++◌, ltb, ◌==◌,
  if◌then◌else◌, is_some, length, pos, ltb_ℤ,
}
use resilient_mesh_razorpayb.Domain.Times.{Time, Duration}
use resilient_mesh_razorpayb.Outbox.Config.{Config, backoff}
use resilient_mesh_razorpayb.Outbox.Table.{
  OutboxEvent, ids_from, claimed, lease, mark_dispatched, mark_failed, record_failure,
  release_claim, max_dispatch_ids,
}

-- How a call ended: done and answered; failed without effect; done, with the answer lost.
pub data Reply : Type 0 where
  done lost unanswered : Reply

abbrev pub takes_effect : Reply → Bool
takes_effect lost = false
takes_effect _ = true

abbrev pub answered : Reply → Bool
answered done = true
answered _ = false

-- What the parts around the relay do during one iteration.
pub record Surroundings : Type 0 where
  pub now : Time
  pub locked : ℕ → Bool
  pub claiming : Reply
  pub cancelled : ℕ → Bool
  pub publishing : ℕ → Reply
  pub pinging : Bool
  pub releasing : List ℕ → Reply
  pub recording : Reply
  pub parking : Reply
  pub auditing : Reply
  pub marking : Reply

-- The table, the ids of the events on the queue, and those of the dead letters in the ledger.
pub record World : Type 0 where
  pub rows : List OutboxEvent
  pub queue : List ℕ
  pub dead_letters : List ℕ

-- What the loop over the batch leaves behind.
pub record Pass : Type 0 where
  pub sent : List ℕ
  pub queued : List ℕ
  pub stuck : Option OutboxEvent
  pub unpublished : List ℕ

abbrev stuck_at : OutboxEvent → List OutboxEvent → List ℕ → Pass
stuck_at r rest queued = record {
  sent = [];
  queued = queued;
  stuck = some r;
  unpublished = ids_from rest;
}

abbrev published_then : OutboxEvent → Pass → Pass
published_then r p = record p { sent = r.id ∷ p.sent; queued = r.id ∷ p.queued }

unfoldable pub after_publish : Reply → OutboxEvent → List OutboxEvent → Pass → Pass
after_publish done r rest p = published_then r p
after_publish lost r rest p = stuck_at r rest []
after_publish unanswered r rest p = stuck_at r rest (r.id ∷ [])

-- The loop of Relay.Once over the batch.
unfoldable pub publish_all : Surroundings → List OutboxEvent → Pass
unfolding after_publish
publish_all e [] = record { sent = []; queued = []; stuck = none; unpublished = [] }
publish_all e (r ∷ rest) =
    let later = publish_all e rest in
    if e.cancelled r.id
    then record { sent = []; queued = []; stuck = none; unpublished = ids_from (r ∷ rest) }
    else after_publish (e.publishing r.id) r rest later

abbrev pub with_effect : Reply → (List OutboxEvent → List OutboxEvent) → World → World
with_effect reply f w = if takes_effect reply then record w { rows = f w.rows } else w

abbrev pub no_ids : List ℕ → Bool
no_ids [] = true
no_ids _ = false

-- Relay.release; the store ignores an empty list as well.
unfoldable pub release : Surroundings → List ℕ → World → World
release e ids w =
    if no_ids ids then w else with_effect (e.releasing ids) (release_claim e.now ids) w

unfoldable pub park : Surroundings → OutboxEvent → World → World
park e r w =
    let parked = with_effect e.parking (mark_failed e.now r.id) w in
    if takes_effect e.auditing
    then record parked { dead_letters = parked.dead_letters ++ r.id ∷ [] }
    else parked

-- Relay.handlePublishFailure, with a ledger.
unfoldable pub handle_publish_failure : Config → Surroundings → OutboxEvent → List ℕ → World → World
unfolding release park
handle_publish_failure c e r tail w =
    if not e.pinging
    then release e (r.id ∷ tail) w
    else if ltb_ℤ (pos (suc r.attempts)) c.max_publish_attempts
    then with_effect e.recording (record_failure e.now r.id) (release e tail w)
    else park e r (release e tail w)

-- The rows that were not published are handed back.
unfoldable pub hand_back : Config → Surroundings → Option OutboxEvent → List ℕ → World → World
hand_back c e none tail w = release e tail w
hand_back c e (some r) tail w = handle_publish_failure c e r tail w

-- MarkOutboxDispatched, which refuses more ids than its maximum.
abbrev pub oversized : List ℕ → Bool
oversized ids = ltb max_dispatch_ids (length ids)

unfoldable pub close_out : Surroundings → List ℕ → World → World
close_out e ids w =
    if no_ids ids || oversized ids then w else with_effect e.marking (mark_dispatched ids) w

-- The numbers of rows dispatched, and whether an error is returned.
pub record Answer : Type 0 where
  pub count : ℕ
  pub erred : Bool

unfoldable pub answer_of : Surroundings → Pass → Answer
answer_of e p = record {
  count = length p.sent;
  erred = is_some p.stuck || not (no_ids p.sent) && (oversized p.sent || not (answered e.marking));
}

-- The iteration after a claim that returned this batch.
unfoldable pub relay_batch : Config → Surroundings → List OutboxEvent → World → World
relay_batch c e batch w =
    let p = publish_all e batch in
    close_out e p.sent
      (hand_back c e p.stuck p.unpublished (record w { queue = w.queue ++ p.queued }))

abbrev pub batch_of : Config → Surroundings → World → List OutboxEvent
batch_of c e w = claimed e.now e.locked c.batch_size w.rows

abbrev pub leased : Config → Surroundings → World → World
leased c e w = with_effect e.claiming (lease e.now (ids_from (batch_of c e w))) w

-- Relay.Once: the world after it.
unfoldable pub once : Config → Surroundings → World → World
once c e w =
    if answered e.claiming then relay_batch c e (batch_of c e w) (leased c e w) else leased c e w

-- Relay.Once: what it returns.
unfoldable pub once_answer : Config → Surroundings → World → Answer
unfolding answer_of
once_answer c e w =
    if answered e.claiming
    then answer_of e (publish_all e (batch_of c e w))
    else record { count = 0; erred = true }

-- One turn of the loop of Relay.Run: the failures in a row, and the wait before the next turn.
pub record Turn : Type 0 where
  pub failures : ℕ
  pub wait : Duration

unfoldable pub turn : Config → (Duration → Duration) → ℕ → Answer → Turn
turn c int63n failures a =
    if a.erred
    then record { failures = suc failures; wait = backoff c int63n (suc failures) }
    else if a.count == 0
    then record { failures = 0; wait = c.poll_interval }
    else record { failures = 0; wait = pos 0 }
