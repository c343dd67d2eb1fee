-- ===== src/Outbox/Table.antt =====
-- internal/store/postgres.go: the outbox_events table and the statements that the relay runs. The table
-- is a list of rows in the order of the primary key; `now()` is an argument. Texts that only a reader
-- looks at (last_error, created_at, dispatched_at) are left out.
use resilient_mesh_razorpayb.Base.{
  ℕ, suc, ◌*◌, Bool, true, false, not, ◌&&◌, List, [], ◌∷◌, ◌++◌, map, ◌==◌, if◌then◌else◌, length,
  take, any, ℤ, pos, pos_part, ◌+ℤ◌, ltb_ℤ, leb_ℤ,
}
use resilient_mesh_razorpayb.Text.{Bytes}
use resilient_mesh_razorpayb.Domain.Times.{Time, second}

-- OutboxState
pub data OutboxState : Type 0 where
  pending dispatched failed : OutboxState

abbrev pub is_pending : OutboxState → Bool
is_pending pending = true
is_pending _ = false

abbrev pub is_dispatched : OutboxState → Bool
is_dispatched dispatched = true
is_dispatched _ = false

abbrev pub is_failed : OutboxState → Bool
is_failed failed = true
is_failed _ = false

-- OutboxEvent, with the lease of the row.
pub record OutboxEvent : Type 0 where
  pub id : ℕ
  pub incident_id : Bytes
  pub topic : Bytes
  pub payload : Bytes
  pub state : OutboxState
  pub attempts : ℕ
  pub claimed_until : Time

unfoldable pub member : ℕ → List ℕ → Bool
member k ks = any (λ (x : ℕ). x == k) ks

-- UPDATE ... SET f WHERE p, on one row and on the table.
unfoldable pub set_where :
    (OutboxEvent → Bool) → (OutboxEvent → OutboxEvent) → OutboxEvent → OutboxEvent
set_where p f r = if p r then f r else r

abbrev pub update_where :
    (OutboxEvent → Bool) → (OutboxEvent → OutboxEvent) → List OutboxEvent → List OutboxEvent
update_where p f = map (set_where p f)

unfoldable pub select_where : (OutboxEvent → Bool) → List OutboxEvent → List OutboxEvent
select_where p [] = []
select_where p (r ∷ rs) = let rest = select_where p rs in if p r then r ∷ rest else rest

abbrev pub ids_from : List OutboxEvent → List ℕ
ids_from rs = map (λ (r : OutboxEvent). r.id) rs

-- state='PENDING' AND claimed_until <= now(), and no lock of another transaction on the row.
abbrev pub claimable : Time → (ℕ → Bool) → OutboxEvent → Bool
claimable now locked r = is_pending r.state && leb_ℤ r.claimed_until now && not (locked r.id)

-- boundLimit
unfoldable pub bound_limit : ℤ → ℕ → ℕ
bound_limit limit upper =
    if ltb_ℤ limit (pos 1) then 1 else if ltb_ℤ (pos upper) limit then upper else pos_part limit

abbrev max_claim_batch : ℕ
max_claim_batch = 1000

abbrev pub claim_lease : ℕ
claim_lease = 60

abbrev pub max_dispatch_ids : ℕ
max_dispatch_ids = 10_000

-- ClaimOutboxBatch: the rows it returns, in the order of their ids.
unfoldable pub claimed : Time → (ℕ → Bool) → ℤ → List OutboxEvent → List OutboxEvent
unfolding bound_limit
claimed now locked limit rows =
    take (bound_limit limit max_claim_batch) (select_where (claimable now locked) rows)

-- Its update, which takes the lease and nothing else.
unfoldable pub lease : Time → List ℕ → List OutboxEvent → List OutboxEvent
lease now ids =
    update_where (λ (r : OutboxEvent). member r.id ids)
      (λ (r : OutboxEvent). record r { claimed_until = now +ℤ pos (claim_lease * second) })

-- MarkOutboxDispatched
unfoldable pub mark_dispatched : List ℕ → List OutboxEvent → List OutboxEvent
mark_dispatched ids =
    update_where (λ (r : OutboxEvent). member r.id ids && not (is_dispatched r.state))
      (λ (r : OutboxEvent). record r { state = dispatched })

-- MarkOutboxFailed
unfoldable pub mark_failed : Time → ℕ → List OutboxEvent → List OutboxEvent
mark_failed now id =
    update_where (λ (r : OutboxEvent). r.id == id)
      (λ (r : OutboxEvent). record r { state = failed; claimed_until = now })

-- RecordOutboxFailure
unfoldable pub record_failure : Time → ℕ → List OutboxEvent → List OutboxEvent
record_failure now id =
    update_where (λ (r : OutboxEvent). r.id == id && is_pending r.state)
      (λ (r : OutboxEvent). record r { attempts = suc r.attempts; claimed_until = now })

-- ReleaseOutboxClaim
unfoldable pub release_claim : Time → List ℕ → List OutboxEvent → List OutboxEvent
release_claim now ids =
    update_where (λ (r : OutboxEvent). member r.id ids && is_pending r.state)
      (λ (r : OutboxEvent). record r { claimed_until = now })

-- OutboxDepth
unfoldable pub outbox_depth : List OutboxEvent → ℕ × ℕ
outbox_depth rows = (
  length (select_where (λ (r : OutboxEvent). is_pending r.state) rows),
  length (select_where (λ (r : OutboxEvent). is_failed r.state) rows),
)

-- InsertOutboxEvent, of an event that has no state or is pending: the identity column gives it an id
-- that no row has.
unfoldable pub insert_event : OutboxEvent → List OutboxEvent → List OutboxEvent
insert_event ev rows = rows ++ ev ∷ []
