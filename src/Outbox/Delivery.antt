-- ===== src/Outbox/Delivery.antt =====
-- internal/outbox/relay.go: no event is lost, and a queue that cannot be reached costs no row anything.
use resilient_mesh_razorpayb.Base.{
  ◌++◌, ℕ, ◌≡◌, refl, sym, ap, ◌∙◌, subst, ◌⊎◌, on, inl, inr, Bool, true, false, Option, none, some,
  List, [], ◌∷◌, map, arith, ◌==◌, if◌then◌else◌, Bool-cases, any, any-append,
}
use resilient_mesh_razorpayb.Outbox.Relay.{
  after_publish, Reply, done, lost, unanswered, answered, Surroundings, World, Pass, publish_all,
  batch_of, once, relay_batch, leased, hand_back, release, park, handle_publish_failure, close_out,
}
use resilient_mesh_razorpayb.Outbox.Config.{Config}
use resilient_mesh_razorpayb.Outbox.Table.{OutboxEvent, dispatched, failed, member, ids_from}
use resilient_mesh_razorpayb.Outbox.Fates.{lease_row, back_row, relayed, fate, once-rows}
use resilient_mesh_razorpayb.Outbox.Safety.{
  SameEvent, Handling, untouched, charged, parked, by_if, SameEvent-trans, back_row-Handled,
  lease_row-SameEvent, lease_row-same, marked_row-SameEvent, close_row_cases,
}

-- Each row of a table against the row at its place in another.
abbrev pub Each :
    (OutboxEvent → OutboxEvent → Type 0) → List OutboxEvent → List OutboxEvent → Type 0
Each P [] [] = Unit
Each P [] (s ∷ ss) = ⊥
Each P (r ∷ rs) [] = ⊥
Each P (r ∷ rs) (s ∷ ss) = P r s × Each P rs ss

pub map-Each :
    (P : OutboxEvent → OutboxEvent → Type 0) (f : OutboxEvent → OutboxEvent) (rs : List OutboxEvent)
    → ((r : OutboxEvent) → P r (f r))
    → Each P rs (map f rs)
map-Each P f [] h = tt
map-Each P f (r ∷ rs) h = (h r, map-Each P f rs h)

-- What holds of the passes over the rest of a batch and of its first row holds of the pass.
pub publish_all-step :
    (P : Pass → Type 0) (e : Surroundings) (r : OutboxEvent) (rest : List OutboxEvent)
    → P (record { sent = []; queued = []; stuck = none; unpublished = ids_from (r ∷ rest) })
    → ((q : Reply) → e.publishing r.id ≡ q → P (after_publish q r rest (publish_all e rest)))
    → P (publish_all e (r ∷ rest))
unfolding publish_all
publish_all-step P e r rest stop go =
    by_if P (e.cancelled r.id) _ _ (λ c. stop) (λ c. go (e.publishing r.id) refl)

after_publish-sent :
    (q : Reply) (r : OutboxEvent) (rest : List OutboxEvent) (p : Pass) (k : ℕ)
    → (member k p.sent ≡ true → member k p.queued ≡ true)
    → member k (after_publish q r rest p).sent ≡ true
    → member k (after_publish q r rest p).queued ≡ true
unfolding after_publish member
after_publish-sent done r rest p k later h = elim (Bool-cases (any (λ (x : ℕ). x == k) p.sent)) [
  | inl y ↦ ground (arith, later y)
  | inr n ↦ ground arith
]
after_publish-sent lost r rest p k later h = h
after_publish-sent unanswered r rest p k later h = cc

-- Only what the queue has acknowledged is reported as sent, and it is on the queue.
sent-queued :
    (e : Surroundings) (batch : List OutboxEvent) (k : ℕ)
    → member k (publish_all e batch).sent ≡ true
    → member k (publish_all e batch).queued ≡ true
unfolding publish_all
sent-queued e [] k h = h
sent-queued e (r ∷ rest) k h =
    publish_all-step (λ (p : Pass). member k p.sent ≡ true → member k p.queued ≡ true) e r rest
      (λ g. g) (λ q eq. after_publish-sent q r rest (publish_all e rest) k (sent-queued e rest k)) h

after_publish-stuck :
    (e : Surroundings) (q : Reply) (r : OutboxEvent) (rest : List OutboxEvent) (p : Pass)
    (t : OutboxEvent)
    → (p.stuck ≡ some t → answered (e.publishing t.id) ≡ false)
    → e.publishing r.id ≡ q
    → (after_publish q r rest p).stuck ≡ some t
    → answered (e.publishing t.id) ≡ false
unfolding after_publish
after_publish-stuck e done r rest p t later eq h = later h
after_publish-stuck e lost r rest p t later eq h = cc
after_publish-stuck e unanswered r rest p t later eq h = cc

-- The row that a pass stops at is one that the queue did not acknowledge.
stuck-refused :
    (e : Surroundings) (batch : List OutboxEvent) (t : OutboxEvent)
    → (publish_all e batch).stuck ≡ some t
    → answered (e.publishing t.id) ≡ false
unfolding publish_all
stuck-refused e [] t h = cc
stuck-refused e (r ∷ rest) t h =
    publish_all-step (λ (p : Pass). p.stuck ≡ some t → answered (e.publishing t.id) ≡ false) e r
      rest (λ g. cc)
      (λ q eq. after_publish-stuck e q r rest (publish_all e rest) t (stuck-refused e rest t) eq) h

handled_state :
    (c : Config) (e : Surroundings) (o : Option OutboxEvent) (r s : OutboxEvent)
    → Handling c e o r s
    → (s.state ≡ r.state)
      ⊎ ((s.state ≡ failed)
          × (e.pinging ≡ true)
          × ((t : OutboxEvent) × (o ≡ some t) × (r.id ≡ t.id)))
handled_state c e o r s (untouched a b) = inl a
handled_state c e o r s (charged t h i y m p q a) = inl (q ∙ sym p)
handled_state c e o r s (parked t h i y m q a) = inr (q, y, (t, h, i))

-- What a row may come to.
abbrev pub Kept : Surroundings → List ℕ → OutboxEvent → OutboxEvent → Type 0
Kept e queue r s =
    SameEvent r s
    × ((s.state ≡ r.state)
        ⊎ ((s.state ≡ dispatched) × (member r.id queue ≡ true))
        ⊎ ((s.state ≡ failed) × (e.pinging ≡ true) × (answered (e.publishing r.id) ≡ false)))

module _ (c : Config) (e : Surroundings) where
  once_if :
      (b : Bool) (x y : World) (r s t : OutboxEvent)
      → Kept e x.queue r s
      → Kept e y.queue r t
      → Kept e (if b then x else y).queue r (if b then s else t)
  once_if true x y r s t p q = p
  once_if false x y r s t p q = q

  relayed-Kept :
      (batch : List OutboxEvent) (r : OutboxEvent)
      → Kept e (publish_all e batch).queued r (relayed c e batch r)
  unfolding relayed
  relayed-Kept batch r =
      let p = publish_all e batch in
      let s = back_row c e p.stuck p.unpublished r in
      let (event, handling) = back_row-Handled c e p.stuck p.unpublished r in
      let (_, closing) = close_row_cases c e p.sent s in
      (
        SameEvent-trans r s _ event (marked_row-SameEvent c e p.sent s),
        on closing
            (λ same.
              on (handled_state c e p.stuck r s handling) (λ h. inl (same ∙ h))
                (λ (h, ping, (t, o, i)). inr (
                  inr (
                    same ∙ h,
                    ping,
                    ap (λ k. answered (e.publishing k)) i ∙ stuck-refused e batch t o,
                  ))))
            (λ (h, m). inr (
              inl (
                h,
                sent-queued e batch r.id (subst (λ k. member k p.sent ≡ true) event.same_id m),
              ))),
      )

  release-queue : (ids : List ℕ) (w : World) → (release e ids w).queue ≡ w.queue
  unfolding release
  release-queue ids w = ground arith

  handle_publish_failure-queue :
      (t : OutboxEvent) (tail : List ℕ) (w : World)
      → (handle_publish_failure c e t tail w).queue ≡ w.queue
  unfolding handle_publish_failure park
  handle_publish_failure-queue t tail w =
      ground (arith, release-queue (t.id ∷ tail) w, release-queue tail w)

  hand_back-queue :
      (o : Option OutboxEvent) (tail : List ℕ) (w : World)
      → (hand_back c e o tail w).queue ≡ w.queue
  unfolding hand_back
  hand_back-queue none tail w = release-queue tail w
  hand_back-queue (some t) tail w = handle_publish_failure-queue t tail w

  close_out-queue : (ids : List ℕ) (w : World) → (close_out e ids w).queue ≡ w.queue
  unfolding close_out
  close_out-queue ids w = ground arith

  pub leased-queue : (w : World) → (leased c e w).queue ≡ w.queue
  leased-queue w = ground arith

  pub relay_batch-queue :
      (batch : List OutboxEvent) (w : World)
      → (relay_batch c e batch w).queue ≡ w.queue ++ (publish_all e batch).queued
  unfolding relay_batch
  relay_batch-queue batch w =
      let p = publish_all e batch in
      close_out-queue p.sent _ ∙ hand_back-queue p.stuck p.unpublished _

  member-append : (k : ℕ) (xs ys : List ℕ) → member k ys ≡ true → member k (xs ++ ys) ≡ true
  unfolding member
  member-append k xs ys h = rw (any-append (λ (x : ℕ). x == k) xs ys, h) (ground arith)

  member_front : (k : ℕ) (xs ys : List ℕ) → member k xs ≡ true → member k (xs ++ ys) ≡ true
  unfolding member
  member_front k xs ys h = rw (any-append (λ (x : ℕ). x == k) xs ys, h) refl

  -- A longer queue keeps what a shorter one does.
  Kept-more :
      (q q' : List ℕ) (r s : OutboxEvent)
      → (member r.id q ≡ true → member r.id q' ≡ true)
      → Kept e q r s
      → Kept e q' r s
  Kept-more q q' r s more (ev, st) =
      (ev, on st inl (λ h. inr (on h (λ (d, m). inl (d, more m)) inr)))

  leased-Kept :
      (q ids : List ℕ) (r t : OutboxEvent) → Kept e q (lease_row c e ids r) t → Kept e q r t
  leased-Kept q ids r t (ev, st) =
      let first = lease_row-SameEvent c e ids r in
      let (same, _) = lease_row-same c e ids r in
      (
        SameEvent-trans r (lease_row c e ids r) t first ev,
        subst
            (λ k.
              (t.state ≡ r.state)
              ⊎ ((t.state ≡ dispatched) × (member k q ≡ true))
              ⊎ ((t.state ≡ failed) × (e.pinging ≡ true) × (answered (e.publishing k) ≡ false)))
            first.same_id (on st (λ h. inl (h ∙ same)) inr),
      )

  pub once-Kept : (w : World) (r : OutboxEvent) → Kept e (once c e w).queue r (fate c e w r)
  unfolding once fate
  once-Kept w r =
      let batch = batch_of c e w in
      let ids = ids_from batch in
      let p = publish_all e batch in
      once_if (answered e.claiming) (relay_batch c e batch (leased c e w)) (leased c e w) r
        (relayed c e batch (lease_row c e ids r)) (lease_row c e ids r)
        (leased-Kept (relay_batch c e batch (leased c e w)).queue ids r _ (
          Kept-more p.queued (relay_batch c e batch (leased c e w)).queue _ _
            (λ m. rw (relay_batch-queue batch (leased c e w)) (member-append _ _ p.queued m))
            (relayed-Kept batch (lease_row c e ids r))))
        (lease_row-SameEvent c e ids r, inl (lease_row-same c e ids r).0)

  -- No event is lost by an iteration, whatever fails around it: every row is still there with its event,
  -- and its state is what it was, or it is dispatched and its event is on the queue, or it is parked as
  -- failed after the queue did not acknowledge it and then answered the probe.
  pub once_keeps : (w : World) → Each (Kept e (once c e w).queue) w.rows (once c e w).rows
  once_keeps w =
      rw (once-rows c e w) (map-Each (Kept e (once c e w).queue) (fate c e w) w.rows (once-Kept w))

  -- Nothing is taken off the queue.
  pub queue_grows :
      (w : World) (k : ℕ) → member k w.queue ≡ true → member k (once c e w).queue ≡ true
  unfolding once
  queue_grows w k h =
      by_if (λ (v : World). member k v.queue ≡ true) (answered e.claiming) _ _
        (λ y.
          rw (relay_batch-queue (batch_of c e w) (leased c e w), leased-queue w)
            (member_front k w.queue _ h))
        (λ n. rw (leased-queue w) h)
