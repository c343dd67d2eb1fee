-- ===== src/Outbox/Order.antt =====
-- internal/outbox/relay.go: an iteration in which nothing fails.
use resilient_mesh_razorpayb.Base.{
  ℕ, suc, ◌≤◌, ◌≡◌, refl, ap, ◌∙◌, true, false, none, List, [], ◌∷◌, ◌++◌, arith, length, take,
  length-take,
}
use resilient_mesh_razorpayb.Outbox.Config.{Config}
use resilient_mesh_razorpayb.Outbox.Table.{
  OutboxEvent, dispatched, member, set_where, ids_from, claimed, bound_limit,
}
use resilient_mesh_razorpayb.Outbox.Relay.{
  after_publish, done, answered, Surroundings, World, Pass, answer_of, publish_all, batch_of,
  leased, once, once_answer,
}
use resilient_mesh_razorpayb.Outbox.Fates.{
  lease_row, release_row, back_row, marked_row, close_row, relayed, fate, once-rows,
}
use resilient_mesh_razorpayb.Outbox.Safety.{lease_row-SameEvent}
use resilient_mesh_razorpayb.Outbox.Delivery.{Each, map-Each, relay_batch-queue, leased-queue}

-- Nothing fails around the relay, and its context lives.
pub record IsHealthy (e : Surroundings) : Type 0 where
  pub claims : e.claiming ≡ done
  pub lives : (k : ℕ) → e.cancelled k ≡ false
  pub publishes : (k : ℕ) → e.publishing k ≡ done
  pub marks : e.marking ≡ done

abbrev whole_pass : List ℕ → Pass
whole_pass ids = record { sent = ids; queued = ids; stuck = none; unpublished = [] }

length-ids : (rs : List OutboxEvent) → length (ids_from rs) ≡ length rs
length-ids [] = refl
length-ids (r ∷ rs) = ap suc (length-ids rs)

take_small : (n : ℕ) (rs : List OutboxEvent) → n ≤ 1000 → length (take n rs) ≤ 1000
take_small n rs h = omega (arith, length-take n rs)

none_member : (k : ℕ) → member k [] ≡ true → ⊥
unfolding member
none_member k h = cc

module _ (e : Surroundings) (h : IsHealthy e) where
  publish_all-whole : (batch : List OutboxEvent) → publish_all e batch ≡ whole_pass (ids_from batch)
  unfolding publish_all after_publish
  publish_all-whole [] = refl
  publish_all-whole (r ∷ rest) =
      rw (h.lives r.id, h.publishes r.id) (rw (publish_all-whole rest) refl)

  batch-small : (c : Config) (w : World) → length (ids_from (batch_of c e w)) ≤ 1000
  unfolding claimed bound_limit
  batch-small c w =
      rw (length-ids (batch_of c e w)) (take_small (bound_limit c.batch_size 1000) _ (ground arith))

  once-publishes :
      (c : Config) (w : World)
      → ((once c e w).queue ≡ w.queue ++ ids_from (batch_of c e w))
        × ((once_answer c e w).count ≡ length (ids_from (batch_of c e w)))
        × ((once_answer c e w).erred ≡ false)
  unfolding once once_answer answer_of
  once-publishes c w =
      let batch = batch_of c e w in
      let small = batch-small c w in
      rw (ap answered h.claims) (
        relay_batch-queue c e batch (leased c e w)
            ∙ rw (leased-queue c e w, publish_all-whole batch) refl,
        rw (publish_all-whole batch) refl,
        rw (publish_all-whole batch, ap answered h.marks) (ground arith),
      )

  abbrev pub Closed : List ℕ → OutboxEvent → OutboxEvent → Type 0
  Closed ids r s =
      (member r.id ids ≡ true → s.state ≡ dispatched) × (member r.id ids ≡ false → s ≡ r)

  fate-whole :
      (c : Config) (w : World) (r : OutboxEvent)
      → fate c e w r
        ≡ close_row c e
            (ids_from (batch_of c e w))
            (release_row c e [] (lease_row c e (ids_from (batch_of c e w)) r))
  unfolding fate relayed back_row
  fate-whole c w r = rw (ap answered h.claims, publish_all-whole (batch_of c e w)) refl

  release_none : (c : Config) (r : OutboxEvent) → release_row c e [] r ≡ r
  unfolding release_row set_where member
  release_none c r = ground arith

  lease_none :
      (c : Config) (ids : List ℕ) (r : OutboxEvent)
      → member r.id ids ≡ false
      → lease_row c e ids r ≡ r
  unfolding lease_row set_where
  lease_none c ids r n = rw n (ground arith)

  close_none :
      (c : Config) (ids : List ℕ) (r : OutboxEvent)
      → member r.id ids ≡ false
      → close_row c e ids r ≡ r
  unfolding close_row marked_row set_where
  close_none c ids r n = rw n (ground arith)

  close_member :
      (c : Config) (ids : List ℕ) (r : OutboxEvent)
      → member r.id ids ≡ true
      → length ids ≤ 1000
      → (close_row c e ids r).state ≡ dispatched
  unfolding close_row marked_row set_where
  close_member c [] r m small = absurd (none_member r.id m)
  close_member c (k ∷ ks) r m small = rw m (ground (arith, h.marks))

  closes :
      (c : Config) (ids : List ℕ) (r : OutboxEvent)
      → length ids ≤ 1000
      → Closed ids r (close_row c e ids (release_row c e [] (lease_row c e ids r)))
  closes c ids r small =
      let s = lease_row c e ids r in
      (
        λ m.
            close_member c ids (release_row c e [] s)
              (rw (release_none c s, (lease_row-SameEvent c e ids r).same_id) m) small,
        λ n. rw (lease_none c ids r n, release_none c r) (close_none c ids r n),
      )

  once_closes :
      (c : Config) (w : World) → Each (Closed (ids_from (batch_of c e w))) w.rows (once c e w).rows
  once_closes c w =
      let batch = batch_of c e w in
      rw (once-rows c e w) (
        map-Each (Closed (ids_from batch)) (fate c e w) w.rows
          (λ r. rw (fate-whole c w r) (closes c (ids_from batch) r (batch-small c w))))

  -- An iteration in which nothing fails puts the whole batch on the queue, in the order of the batch,
  -- reports its number without an error, marks the rows of the batch as dispatched, and leaves every
  -- other row as it was.
  pub once_healthy :
      (c : Config) (w : World)
      → ((once c e w).queue ≡ w.queue ++ ids_from (batch_of c e w))
        × ((once_answer c e w).count ≡ length (ids_from (batch_of c e w)))
        × ((once_answer c e w).erred ≡ false)
        × Each (Closed (ids_from (batch_of c e w))) w.rows (once c e w).rows
  once_healthy c w =
      let (queue, count, erred) = once-publishes c w in (queue, count, erred, once_closes c w)
