-- ===== src/Outbox/Safety.antt =====
-- internal/outbox/relay.go: what an iteration may do to a row, whatever fails around it.
use resilient_mesh_razorpayb.Base.{
  ℕ, suc, ◌≡◌, refl, sym, ap, ◌∙◌, ◌⊎◌, inl, inr, Bool, true, false, not, Option, none, some, List,
  ◌∷◌, arith, if◌then◌else◌, pos, ◌≤ℤ◌, ◌<ℤ◌, ltb_ℤ,
}
use resilient_mesh_razorpayb.Outbox.Fates.{
  failure_row, back_row, lease_row, release_row, record_row, park_row, marked_row, close_row,
}
use resilient_mesh_razorpayb.Outbox.Config.{Config}
use resilient_mesh_razorpayb.Outbox.Table.{
  OutboxEvent, pending, dispatched, failed, member, set_where,
}
use resilient_mesh_razorpayb.Outbox.Relay.{Surroundings}

-- The event of a row is never changed.
pub record SameEvent (r s : OutboxEvent) : Type 0 where
  pub same_id : s.id ≡ r.id
  pub same_incident : s.incident_id ≡ r.incident_id
  pub same_topic : s.topic ≡ r.topic
  pub same_payload : s.payload ≡ r.payload

-- What the handling of a failed publish does to a row: nothing but its lease, one more attempt
-- charged, or parked.
pub data Handling (c : Config) (e : Surroundings) (o : Option OutboxEvent) (r s : OutboxEvent)
    : Type 0 where
  untouched : s.state ≡ r.state → s.attempts ≡ r.attempts → Handling c e o r s
  charged :
      (t : OutboxEvent)
      → o ≡ some t
      → r.id ≡ t.id
      → e.pinging ≡ true
      → pos (suc t.attempts) <ℤ c.max_publish_attempts
      → r.state ≡ pending
      → s.state ≡ pending
      → s.attempts ≡ suc r.attempts
      → Handling c e o r s
  parked :
      (t : OutboxEvent)
      → o ≡ some t
      → r.id ≡ t.id
      → e.pinging ≡ true
      → c.max_publish_attempts ≤ℤ pos (suc t.attempts)
      → s.state ≡ failed
      → s.attempts ≡ r.attempts
      → Handling c e o r s

module _ (c : Config) (e : Surroundings) where
  pub lease_row-SameEvent : (ids : List ℕ) (r : OutboxEvent) → SameEvent r (lease_row c e ids r)
  unfolding lease_row set_where
  lease_row-SameEvent ids r = ground arith

  pub lease_row-same :
      (ids : List ℕ) (r : OutboxEvent)
      → ((lease_row c e ids r).state ≡ r.state) × ((lease_row c e ids r).attempts ≡ r.attempts)
  unfolding lease_row set_where
  lease_row-same ids r = ground arith

  release_row-SameEvent : (ids : List ℕ) (r : OutboxEvent) → SameEvent r (release_row c e ids r)
  unfolding release_row set_where
  release_row-SameEvent ids r = ground arith

  release_row-same :
      (ids : List ℕ) (r : OutboxEvent)
      → ((release_row c e ids r).state ≡ r.state) × ((release_row c e ids r).attempts ≡ r.attempts)
  unfolding release_row set_where
  release_row-same ids r = ground arith

  record_row-SameEvent : (id : ℕ) (r : OutboxEvent) → SameEvent r (record_row c e id r)
  unfolding record_row set_where
  record_row-SameEvent id r = ground arith

  record_row_cases :
      (id : ℕ) (r : OutboxEvent)
      → (((record_row c e id r).state ≡ r.state) × ((record_row c e id r).attempts ≡ r.attempts))
        ⊎ ((r.id ≡ id)
            × (r.state ≡ pending)
            × ((record_row c e id r).state ≡ pending)
            × ((record_row c e id r).attempts ≡ suc r.attempts))
  unfolding record_row set_where
  record_row_cases id r = ground arith

  park_row-SameEvent : (id : ℕ) (r : OutboxEvent) → SameEvent r (park_row c e id r)
  unfolding park_row set_where
  park_row-SameEvent id r = ground arith

  park_row_cases :
      (id : ℕ) (r : OutboxEvent)
      → (((park_row c e id r).state ≡ r.state) × ((park_row c e id r).attempts ≡ r.attempts))
        ⊎ ((r.id ≡ id)
            × ((park_row c e id r).state ≡ failed)
            × ((park_row c e id r).attempts ≡ r.attempts))
  unfolding park_row set_where
  park_row_cases id r = ground arith

  pub marked_row-SameEvent : (ids : List ℕ) (r : OutboxEvent) → SameEvent r (close_row c e ids r)
  unfolding close_row marked_row set_where
  marked_row-SameEvent ids r = ground arith

  pub close_row_cases :
      (ids : List ℕ) (r : OutboxEvent)
      → ((close_row c e ids r).attempts ≡ r.attempts)
        × (((close_row c e ids r).state ≡ r.state)
            ⊎ (((close_row c e ids r).state ≡ dispatched) × (member r.id ids ≡ true)))
  unfolding close_row marked_row set_where
  close_row_cases ids r = ground arith

-- A test that decides between two values, each under its answer.
pub by_if :
    {A : Type 0} (P : A → Type 0) (b : Bool) (x y : A)
    → (b ≡ true → P x)
    → (b ≡ false → P y)
    → P (if b then x else y)
by_if P true x y p q = p refl
by_if P false x y p q = q refl

pub SameEvent-trans : (r s t : OutboxEvent) → SameEvent r s → SameEvent s t → SameEvent r t
SameEvent-trans r s t a b = record {
  same_id = b.same_id ∙ a.same_id;
  same_incident = b.same_incident ∙ a.same_incident;
  same_topic = b.same_topic ∙ a.same_topic;
  same_payload = b.same_payload ∙ a.same_payload;
}

abbrev pub Handled : Config → Surroundings → Option OutboxEvent → OutboxEvent → OutboxEvent → Type 0
Handled c e o r s = SameEvent r s × Handling c e o r s

module _ (c : Config) (e : Surroundings) where
  released-Handled :
      (o : Option OutboxEvent) (ids : List ℕ) (r : OutboxEvent)
      → Handled c e o r (release_row c e ids r)
  released-Handled o ids r =
      let (s, a) = release_row-same c e ids r in (release_row-SameEvent c e ids r, untouched s a)

  recorded-Handled :
      (t r : OutboxEvent)
      → e.pinging ≡ true
      → pos (suc t.attempts) <ℤ c.max_publish_attempts
      → Handled c e (some t) r (record_row c e t.id r)
  recorded-Handled t r y m = (
    record_row-SameEvent c e t.id r,
    elim (record_row_cases c e t.id r) [
      | inl (s, a) ↦ untouched s a
      | inr (i, p, s, a) ↦ charged t refl i y m p s a
    ],
  )

  parked-Handled :
      (t r : OutboxEvent)
      → e.pinging ≡ true
      → c.max_publish_attempts ≤ℤ pos (suc t.attempts)
      → Handled c e (some t) r (park_row c e t.id r)
  parked-Handled t r y m = (
    park_row-SameEvent c e t.id r,
    elim (park_row_cases c e t.id r) [
      | inl (s, a) ↦ untouched s a
      | inr (i, s, a) ↦ parked t refl i y m s a
    ],
  )

  -- A change of the lease before the handling does not matter.
  pub after_lease :
      (o : Option OutboxEvent) (r s t : OutboxEvent)
      → SameEvent r s
      → s.state ≡ r.state
      → s.attempts ≡ r.attempts
      → Handled c e o s t
      → Handled c e o r t
  after_lease o r s t same st at (ev, untouched a b) =
      (SameEvent-trans r s t same ev, untouched (a ∙ st) (b ∙ at))
  after_lease o r s t same st at (ev, charged u h i y m p q a) = (
    SameEvent-trans r s t same ev,
    charged u h (sym same.same_id ∙ i) y m (sym st ∙ p) q (a ∙ ap suc at),
  )
  after_lease o r s t same st at (ev, parked u h i y m q a) =
      (SameEvent-trans r s t same ev, parked u h (sym same.same_id ∙ i) y m q (a ∙ at))

  after_release :
      (o : Option OutboxEvent) (ids : List ℕ) (r t : OutboxEvent)
      → Handled c e o (release_row c e ids r) t
      → Handled c e o r t
  after_release o ids r t h =
      let (s, a) = release_row-same c e ids r in
      after_lease o r (release_row c e ids r) t (release_row-SameEvent c e ids r) s a h

  pub back_row-Handled :
      (o : Option OutboxEvent) (tail : List ℕ) (r : OutboxEvent)
      → Handled c e o r (back_row c e o tail r)
  unfolding back_row failure_row
  back_row-Handled none tail r = released-Handled none tail r
  back_row-Handled (some t) tail r =
      by_if (Handled c e (some t) r) (not e.pinging) _ _
        (λ n. released-Handled (some t) (t.id ∷ tail) r)
        (λ n.
          by_if (Handled c e (some t) r) (ltb_ℤ (pos (suc t.attempts)) c.max_publish_attempts) _ _
            (λ m.
              after_release (some t) tail r _
                (recorded-Handled t (release_row c e tail r) (ground arith) (ground arith)))
            (λ m.
              after_release (some t) tail r _
                (parked-Handled t (release_row c e tail r) (ground arith) (ground arith))))
