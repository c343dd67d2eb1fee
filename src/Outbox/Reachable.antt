-- ===== src/Outbox/Reachable.antt =====
-- internal/outbox/relay.go and the outbox of internal/store/postgres.go: every state that inserts and
-- iterations of relays lead to.
use resilient_mesh_razorpayb.Base.{
  ℕ, ◌≡◌, refl, sym, ◌∙◌, subst, on, true, false, ◌||◌, List, [], ◌∷◌, ◌++◌, map, arith, ◌==◌, All,
  any-append,
}
use resilient_mesh_razorpayb.Outbox.Config.{Config, IsUsable}
use resilient_mesh_razorpayb.Outbox.Table.{
  OutboxEvent, pending, dispatched, member, ids_from, insert_event,
}
use resilient_mesh_razorpayb.Outbox.Relay.{Surroundings, World, once}
use resilient_mesh_razorpayb.Outbox.Fates.{fate, once-rows}
use resilient_mesh_razorpayb.Outbox.Delivery.{once-Kept, queue_grows}
use resilient_mesh_razorpayb.Outbox.Budget.{IsKeyed, WithinBudget, once-WithinBudget, map-All}
use resilient_mesh_razorpayb.Modelcheck.Keeps.{All-append}

-- The states of the table and the queue, from empty ones.
pub data Evolves (c : Config) : World → Type 0 where
  empty : Evolves c (record { rows = []; queue = []; dead_letters = [] })
  inserted :
      (w : World) (ev : OutboxEvent)
      → Evolves c w
      → ev.state ≡ pending
      → ev.attempts ≡ 0
      → member ev.id (ids_from w.rows) ≡ false
      → Evolves c (record w { rows = insert_event ev w.rows })
  iterated : (w : World) (e : Surroundings) → Evolves c w → Evolves c (once c e w)

abbrev pub Delivered : List ℕ → OutboxEvent → Type 0
Delivered queue r = r.state ≡ dispatched → member r.id queue ≡ true

pub record IsSound (c : Config) (w : World) : Type 0 where
  pub keyed : IsKeyed w.rows
  pub budgets : All (WithinBudget c) w.rows
  pub delivered : All (Delivered w.queue) w.rows

map-ids :
    (f : OutboxEvent → OutboxEvent) (rows : List OutboxEvent)
    → ((r : OutboxEvent) → (f r).id ≡ r.id)
    → ids_from (map f rows) ≡ ids_from rows
map-ids f [] h = refl
map-ids f (r ∷ rs) h = rw (h r, map-ids f rs h) refl

map-IsKeyed :
    (f : OutboxEvent → OutboxEvent) (rows : List OutboxEvent)
    → ((r : OutboxEvent) → (f r).id ≡ r.id)
    → IsKeyed rows
    → IsKeyed (map f rows)
map-IsKeyed f [] h k = tt
map-IsKeyed f (r ∷ rs) h (n, k) = (rw (h r, map-ids f rs h) n, map-IsKeyed f rs h k)

member_last : (k i : ℕ) (ks : List ℕ) → member k (ks ++ i ∷ []) ≡ (member k ks || i == k)
unfolding member
member_last k i ks = any-append (λ (x : ℕ). x == k) ks (i ∷ []) ∙ ground arith

ids-append :
    (ev : OutboxEvent) (rows : List OutboxEvent)
    → ids_from (rows ++ ev ∷ []) ≡ ids_from rows ++ ev.id ∷ []
ids-append ev [] = refl
ids-append ev (r ∷ rs) = rw (ids-append ev rs) refl

insert-IsKeyed :
    (ev : OutboxEvent) (rows : List OutboxEvent)
    → member ev.id (ids_from rows) ≡ false
    → IsKeyed rows
    → IsKeyed (rows ++ ev ∷ [])
unfolding member
insert-IsKeyed ev [] n k = (refl, tt)
insert-IsKeyed ev (r ∷ rs) n (m, k) = (
  rw (ids-append ev rs) (rw (member_last r.id ev.id (ids_from rs)) (ground arith)),
  insert-IsKeyed ev rs (ground arith) k,
)

-- A dispatched row was dispatched before, or has just been put on the queue.
still-Delivered :
    (c : Config) (e : Surroundings) (w : World) (r : OutboxEvent)
    → Delivered w.queue r
    → Delivered (once c e w).queue (fate c e w r)
still-Delivered c e w r before h =
    let (event, st) = once-Kept c e w r in
    rw event.same_id (
      on st (λ same. queue_grows c e w r.id (before (sym same ∙ h)))
        (λ other. on other (λ (d, m). m) (λ (f, _, _). cc)))

once-IsSound : (c : Config) (e : Surroundings) (w : World) → IsSound c w → IsSound c (once c e w)
once-IsSound c e w s = record {
  keyed =
      rw (once-rows c e w)
        (map-IsKeyed (fate c e w) w.rows (λ r. (once-Kept c e w r).0.same_id) s.keyed);
  budgets = once-WithinBudget c e w s.keyed s.budgets;
  delivered = subst (All (Delivered (once c e w).queue)) (sym (once-rows c e w)) (
      map-All (Delivered (once c e w).queue) (Delivered w.queue) (fate c e w) w.rows
        (λ r d. still-Delivered c e w r d) s.delivered);
}

-- In every state that inserts of new events and iterations of the relay lead to, whatever fails around
-- them: the ids are unique, a dispatched event is on the queue, a pending one has been charged fewer
-- attempts than MaxPublishAttempts, and a failed one all but the last.
pub Evolves-IsSound : (c : Config) (w : World) → IsUsable c → Evolves c w → IsSound c w
unfolding insert_event
Evolves-IsSound c w u empty = record { keyed = tt; budgets = tt; delivered = tt }
Evolves-IsSound c w u (inserted v ev r st at new) =
    let s = Evolves-IsSound c v u r in
    record {
      keyed = insert-IsKeyed ev v.rows new s.keyed;
      budgets = All-append (WithinBudget c) v.rows (ev ∷ []) s.budgets (
        record { has_left = λ h. omega (arith, at, u.attempts_positive); used_up = λ h. cc },
        tt,
      );
      delivered = All-append (Delivered v.queue) v.rows (ev ∷ []) s.delivered ((λ h. cc), tt);
    }
Evolves-IsSound c w u (iterated v e r) = once-IsSound c e v (Evolves-IsSound c v u r)
