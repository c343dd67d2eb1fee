-- ===== src/Outbox/Fates.antt =====
-- internal/outbox/relay.go: what one iteration does to each row of the table.
use resilient_mesh_razorpayb.Base.{
  ℕ, suc, ◌*◌, ◌≡◌, refl, sym, ap, ◌∙◌, Bool, true, false, not, ◌&&◌, ◌||◌, Option, none, some,
  List, [], ◌∷◌, ◌++◌, map, arith, ◌==◌, if◌then◌else◌, pos, ◌+ℤ◌, ltb_ℤ,
}
use resilient_mesh_razorpayb.Outbox.Config.{Config}
use resilient_mesh_razorpayb.Domain.Times.{second}
use resilient_mesh_razorpayb.Outbox.Table.{
  OutboxEvent, dispatched, failed, is_pending, is_dispatched, member, set_where, update_where,
  ids_from, claim_lease, lease, mark_dispatched, mark_failed, record_failure, release_claim,
}
use resilient_mesh_razorpayb.Outbox.Relay.{
  Reply, done, lost, unanswered, takes_effect, answered, Surroundings, World, publish_all,
  with_effect, no_ids, release, park, handle_publish_failure, hand_back, oversized, close_out,
  relay_batch, batch_of, leased, once,
}

map_same {ℓ} : {A : Type ℓ} (f : A → A) (xs : List A) → ((x : A) → f x ≡ x) → map f xs ≡ xs
map_same f [] h = refl
map_same f (x ∷ xs) h = rw (h x, map_same f xs h) refl

map-map :
    (f g : OutboxEvent → OutboxEvent) (xs : List OutboxEvent)
    → map f (map g xs) ≡ map (λ x. f (g x)) xs
map-map f g [] = refl
map-map f g (x ∷ xs) = rw (map-map f g xs) refl

-- A statement on one row that a call may run.
abbrev pub run_on :
    Reply → (OutboxEvent → Bool) → (OutboxEvent → OutboxEvent) → OutboxEvent → OutboxEvent
run_on reply p f r = if takes_effect reply then set_where p f r else r

with_effect-rows :
    (reply : Reply) (p : OutboxEvent → Bool) (f : OutboxEvent → OutboxEvent) (w : World)
    → (with_effect reply (update_where p f) w).rows ≡ map (run_on reply p f) w.rows
with_effect-rows done p f w = refl
with_effect-rows lost p f w = sym (map_same _ w.rows (λ r. refl))
with_effect-rows unanswered p f w = refl

pub choose :
    (b : Bool) (f g : OutboxEvent → OutboxEvent) (x y w : World)
    → x.rows ≡ map f w.rows
    → y.rows ≡ map g w.rows
    → (if b then x else y).rows ≡ map (λ r. if b then f r else g r) w.rows
choose true f g x y w p q = p
choose false f g x y w p q = q

-- An entry of the ledger does not touch the table.
audited-rows :
    (b : Bool) (w : World) (letters : List ℕ)
    → (if b then record w { dead_letters = letters } else w).rows ≡ w.rows
audited-rows true w letters = refl
audited-rows false w letters = refl

module _ (c : Config) (e : Surroundings) where
  unfoldable pub lease_row : List ℕ → OutboxEvent → OutboxEvent
  lease_row ids =
      run_on e.claiming (λ (r : OutboxEvent). member r.id ids)
        (λ (r : OutboxEvent). record r { claimed_until = e.now +ℤ pos (claim_lease * second) })

  unfoldable pub release_row : List ℕ → OutboxEvent → OutboxEvent
  release_row ids =
      run_on (e.releasing ids) (λ (r : OutboxEvent). member r.id ids && is_pending r.state)
        (λ (r : OutboxEvent). record r { claimed_until = e.now })

  unfoldable pub record_row : ℕ → OutboxEvent → OutboxEvent
  record_row id =
      run_on e.recording (λ (r : OutboxEvent). r.id == id && is_pending r.state)
        (λ (r : OutboxEvent). record r { attempts = suc r.attempts; claimed_until = e.now })

  unfoldable pub park_row : ℕ → OutboxEvent → OutboxEvent
  park_row id =
      run_on e.parking (λ (r : OutboxEvent). r.id == id)
        (λ (r : OutboxEvent). record r { state = failed; claimed_until = e.now })

  release-rows : (ids : List ℕ) (w : World) → (release e ids w).rows ≡ map (release_row ids) w.rows
  unfolding release_row release release_claim set_where member
  release-rows [] w = sym (map_same _ w.rows (λ r. ground arith))
  release-rows (k ∷ ks) w =
      with_effect-rows (e.releasing (k ∷ ks))
        (λ (r : OutboxEvent). member r.id (k ∷ ks) && is_pending r.state)
        (λ (r : OutboxEvent). record r { claimed_until = e.now }) w

  unfoldable pub failure_row : OutboxEvent → List ℕ → OutboxEvent → OutboxEvent
  failure_row s tail r =
      if not e.pinging
      then release_row (s.id ∷ tail) r
      else if ltb_ℤ (pos (suc s.attempts)) c.max_publish_attempts
      then record_row s.id (release_row tail r)
      else park_row s.id (release_row tail r)

  after_release :
      (f : OutboxEvent → OutboxEvent) (tail : List ℕ) (w : World)
      → map f (release e tail w).rows ≡ map (λ r. f (release_row tail r)) w.rows
  after_release f tail w = rw (release-rows tail w) (map-map f (release_row tail) w.rows)

  record-rows :
      (id : ℕ) (w : World)
      → (with_effect e.recording (record_failure e.now id) w).rows ≡ map (record_row id) w.rows
  unfolding record_failure record_row
  record-rows id w =
      with_effect-rows e.recording (λ (r : OutboxEvent). r.id == id && is_pending r.state)
        (λ (r : OutboxEvent). record r { attempts = suc r.attempts; claimed_until = e.now }) w

  park-rows : (s : OutboxEvent) (w : World) → (park e s w).rows ≡ map (park_row s.id) w.rows
  unfolding park park_row mark_failed
  park-rows s w =
      let parked = with_effect e.parking (mark_failed e.now s.id) w in
      audited-rows (takes_effect e.auditing) parked (parked.dead_letters ++ s.id ∷ [])
      ∙ (with_effect-rows e.parking (λ (r : OutboxEvent). r.id == s.id)
          (λ (r : OutboxEvent). record r { state = failed; claimed_until = e.now }) w)

  handle_publish_failure-rows :
      (s : OutboxEvent) (tail : List ℕ) (w : World)
      → (handle_publish_failure c e s tail w).rows ≡ map (failure_row s tail) w.rows
  unfolding handle_publish_failure failure_row
  handle_publish_failure-rows s tail w =
      choose (not e.pinging) (release_row (s.id ∷ tail)) _ _ _ w (release-rows (s.id ∷ tail) w) (
        choose (ltb_ℤ (pos (suc s.attempts)) c.max_publish_attempts)
          (λ r. record_row s.id (release_row tail r)) (λ r. park_row s.id (release_row tail r)) _ _
          w (record-rows s.id (release e tail w) ∙ after_release (record_row s.id) tail w)
          (park-rows s (release e tail w) ∙ after_release (park_row s.id) tail w))

  unfoldable pub back_row : Option OutboxEvent → List ℕ → OutboxEvent → OutboxEvent
  back_row none tail r = release_row tail r
  back_row (some s) tail r = failure_row s tail r

  hand_back-rows :
      (o : Option OutboxEvent) (tail : List ℕ) (w : World)
      → (hand_back c e o tail w).rows ≡ map (back_row o tail) w.rows
  unfolding hand_back back_row
  hand_back-rows none tail w = release-rows tail w
  hand_back-rows (some s) tail w = handle_publish_failure-rows s tail w

  unfoldable pub marked_row : List ℕ → OutboxEvent → OutboxEvent
  marked_row ids =
      run_on e.marking (λ (r : OutboxEvent). member r.id ids && not (is_dispatched r.state))
        (λ (r : OutboxEvent). record r { state = dispatched })

  unfoldable pub close_row : List ℕ → OutboxEvent → OutboxEvent
  close_row ids r = if no_ids ids || oversized ids then r else marked_row ids r

  close_out-rows :
      (ids : List ℕ) (w : World) → (close_out e ids w).rows ≡ map (close_row ids) w.rows
  unfolding close_out close_row mark_dispatched marked_row
  close_out-rows ids w =
      choose (no_ids ids || oversized ids) (λ r. r) (marked_row ids) _ _ w
        (sym (map_same (λ r. r) w.rows (λ r. refl)))
        (with_effect-rows e.marking
          (λ (r : OutboxEvent). member r.id ids && not (is_dispatched r.state))
          (λ (r : OutboxEvent). record r { state = dispatched }) w)

  leased-rows :
      (w : World) → (leased c e w).rows ≡ map (lease_row (ids_from (batch_of c e w))) w.rows
  unfolding lease lease_row
  leased-rows w =
      with_effect-rows e.claiming (λ (r : OutboxEvent). member r.id (ids_from (batch_of c e w)))
        (λ (r : OutboxEvent). record r { claimed_until = e.now +ℤ pos (claim_lease * second) }) w

  -- What becomes of a row in the iteration after a claim of this batch.
  unfoldable pub relayed : List OutboxEvent → OutboxEvent → OutboxEvent
  relayed batch r =
      let p = publish_all e batch in close_row p.sent (back_row p.stuck p.unpublished r)

  relay_batch-rows :
      (batch : List OutboxEvent) (w : World)
      → (relay_batch c e batch w).rows ≡ map (relayed batch) w.rows
  unfolding relay_batch relayed
  relay_batch-rows batch w =
      let p = publish_all e batch in
      let v = record w { queue = w.queue ++ p.queued } in
      close_out-rows p.sent (hand_back c e p.stuck p.unpublished v)
      ∙ ap (map (close_row p.sent)) (hand_back-rows p.stuck p.unpublished v)
      ∙ map-map (close_row p.sent) (back_row p.stuck p.unpublished) w.rows

  -- What becomes of a row in an iteration.
  unfoldable pub fate : World → OutboxEvent → OutboxEvent
  fate w r =
      let batch = batch_of c e w in
      if answered e.claiming
      then relayed batch (lease_row (ids_from batch) r)
      else lease_row (ids_from batch) r

  pub once-rows : (w : World) → (once c e w).rows ≡ map (fate w) w.rows
  unfolding once fate
  once-rows w =
      let batch = batch_of c e w in
      let lease = lease_row (ids_from batch) in
      choose (answered e.claiming) (λ r. relayed batch (lease r)) lease _ _ w
        (relay_batch-rows batch (leased c e w)
          ∙ ap (map (relayed batch)) (leased-rows w)
          ∙ map-map (relayed batch) lease w.rows)
        (leased-rows w)
