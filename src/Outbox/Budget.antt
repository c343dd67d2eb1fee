-- ===== src/Outbox/Budget.antt =====
-- internal/outbox/relay.go: the attempts that a row is charged, and when it is parked.
use resilient_mesh_razorpayb.Base.{
  suc, ◌≡◌, refl, sym, ◌∙◌, subst, ◌≢◌, ◌⊎◌, on, inl, inr, Bool, false, Option, some, List, [], ◌∷◌,
  map, arith, All, pos, ◌≤ℤ◌, ◌<ℤ◌,
}
use resilient_mesh_razorpayb.Outbox.Config.{Config}
use resilient_mesh_razorpayb.Outbox.Table.{
  OutboxEvent, pending, dispatched, failed, member, ids_from, claimed, claimable, select_where,
}
use resilient_mesh_razorpayb.Outbox.Relay.{
  Reply, after_publish, done, lost, unanswered, answered, Surroundings, World, Pass, publish_all,
  batch_of, once,
}
use resilient_mesh_razorpayb.Outbox.Fates.{lease_row, back_row, relayed, fate, once-rows}
use resilient_mesh_razorpayb.Outbox.Safety.{
  untouched, charged, parked, Handled, by_if, back_row-Handled, after_lease, lease_row-SameEvent,
  lease_row-same, close_row_cases,
}
use resilient_mesh_razorpayb.Outbox.Delivery.{Each, map-Each, publish_all-step}
use resilient_mesh_razorpayb.Modelcheck.Keeps.{All-take}

-- The row that an iteration stops at.
abbrev stuck_of : Config → Surroundings → World → Option OutboxEvent
stuck_of c e w = (publish_all e (batch_of c e w)).stuck

-- A row after the handling of the failure, and after the marking.
abbrev Course : Config → Surroundings → Option OutboxEvent → OutboxEvent → OutboxEvent → Type 0
Course c e o r t =
    (s : OutboxEvent) × Handled c e o r s
    × (t.attempts ≡ s.attempts)
    × ((t.state ≡ s.state) ⊎ (t.state ≡ dispatched))

module _ (c : Config) (e : Surroundings) where
  relayed-Course :
      (batch : List OutboxEvent) (r : OutboxEvent)
      → Course c e (publish_all e batch).stuck r (relayed c e batch r)
  unfolding relayed
  relayed-Course batch r =
      let p = publish_all e batch in
      let s = back_row c e p.stuck p.unpublished r in
      let (a, st) = close_row_cases c e p.sent s in
      (s, back_row-Handled c e p.stuck p.unpublished r, a, on st inl (λ h. inr h.0))

  fate-Course : (w : World) (r : OutboxEvent) → Course c e (stuck_of c e w) r (fate c e w r)
  unfolding fate
  fate-Course w r =
      let batch = batch_of c e w in
      let ids = ids_from batch in
      let first = lease_row c e ids r in
      let (same, at) = lease_row-same c e ids r in
      let event = lease_row-SameEvent c e ids r in
      let (s, handled, a, st) = relayed-Course batch first in
      by_if (Course c e (stuck_of c e w) r) (answered e.claiming) _ _
        (λ y. (s, after_lease c e (stuck_of c e w) r first s event same at handled, a, st))
        (λ n. (first, (event, untouched same at), refl, inl refl))

  -- What a row that is not charged may come to.
  abbrev pub Spared : OutboxEvent → OutboxEvent → Type 0
  Spared r s = (s.attempts ≡ r.attempts) × (s.state ≡ failed → r.state ≡ failed)

  spared :
      (o : Option OutboxEvent) (r t : OutboxEvent)
      → e.pinging ≡ false
      → Course c e o r t
      → Spared r t
  spared o r t n (s, (_, untouched a b), at, st) =
      (at ∙ b, λ f. on st (λ h. sym a ∙ sym h ∙ f) (λ d. cc))
  spared o r t n (s, (_, charged u h i y m p q a), at, st) = cc
  spared o r t n (s, (_, parked u h i y m q a), at, st) = cc

  -- An outage of the queue costs no row anything: in an iteration in which the queue does not answer
  -- the probe, no row is charged an attempt and none is parked.
  pub once_spares : (w : World) → e.pinging ≡ false → Each Spared w.rows (once c e w).rows
  once_spares w n = rw (once-rows c e w) (
      map-Each Spared (fate c e w) w.rows
        (λ r. spared (stuck_of c e w) r (fate c e w r) n (fate-Course w r)))

-- No two rows have one id.
abbrev pub IsKeyed : List OutboxEvent → Type 0
IsKeyed [] = Unit
IsKeyed (r ∷ rs) = (member r.id (ids_from rs) ≡ false) × IsKeyed rs

-- A pending row has attempts left, and a failed one has used all but the last, which failed.
pub record WithinBudget (c : Config) (r : OutboxEvent) : Type 0 where
  pub has_left : r.state ≡ pending → pos r.attempts <ℤ c.max_publish_attempts
  pub used_up : r.state ≡ failed → c.max_publish_attempts ≤ℤ pos (suc r.attempts)

-- The row of the table with this id is this row.
abbrev Known : List OutboxEvent → OutboxEvent → Type 0
Known rows t = All (λ (r : OutboxEvent). r.id ≡ t.id → t.attempts ≡ r.attempts) rows

pub other_ids :
    (rows : List OutboxEvent) (t : OutboxEvent)
    → member t.id (ids_from rows) ≡ false
    → All (λ (r : OutboxEvent). r.id ≢ t.id) rows
unfolding member
other_ids [] t h = tt
other_ids (r ∷ rs) t h = (λ q. ground arith, other_ids rs t (ground arith))

All-weaken {ℓ κ μ} :
    {A : Type ℓ} (P : A → Type κ) (Q : A → Type μ) (xs : List A)
    → ((x : A) → P x → Q x)
    → All P xs
    → All Q xs
All-weaken P Q [] f a = tt
All-weaken P Q (x ∷ xs) f (h, a) = (f x h, All-weaken P Q xs f a)

pub All-both {ℓ κ μ} :
    {A : Type ℓ} (P : A → Type κ) (Q : A → Type μ) (xs : List A)
    → All P xs
    → All Q xs
    → All (λ x. P x × Q x) xs
All-both P Q [] a b = tt
All-both P Q (x ∷ xs) (h, a) (g, b) = ((h, g), All-both P Q xs a b)

Known-All : (rows : List OutboxEvent) → IsKeyed rows → All (Known rows) rows
Known-All [] k = tt
Known-All (x ∷ xs) (new, k) =
    let others = other_ids xs x new in
    (
      (λ q. refl, All-weaken _ _ xs (λ r n q. absurd (n q)) others),
      All-weaken (λ t. Known xs t × (t.id ≢ x.id)) (Known (x ∷ xs)) xs
          (λ t (kn, n). (λ q. absurd (n (sym q)), kn))
          (All-both (Known xs) (λ t. t.id ≢ x.id) xs (Known-All xs k) others),
    )

select_where-All :
    (P : OutboxEvent → Type 0) (p : OutboxEvent → Bool) (rs : List OutboxEvent)
    → All P rs
    → All P (select_where p rs)
unfolding select_where
select_where-All P p [] a = tt
select_where-All P p (r ∷ rs) (h, a) =
    by_if (All P) (p r) (r ∷ select_where p rs) (select_where p rs)
      (λ y. (h, select_where-All P p rs a)) (λ n. select_where-All P p rs a)

some_of : (r t : OutboxEvent) → some r ≡ some t → r ≡ t
some_of r t e = cc

after_publish-where :
    (P : OutboxEvent → Type 0) (q : Reply) (r : OutboxEvent) (rest : List OutboxEvent) (p : Pass)
    (t : OutboxEvent)
    → P r
    → (p.stuck ≡ some t → P t)
    → (after_publish q r rest p).stuck ≡ some t
    → P t
unfolding after_publish
after_publish-where P done r rest p t h later e = later e
after_publish-where P lost r rest p t h later e = subst P (some_of r t e) h
after_publish-where P unanswered r rest p t h later e = subst P (some_of r t e) h

-- The row that a pass stops at is one of the batch.
stuck-where :
    (P : OutboxEvent → Type 0) (e : Surroundings) (batch : List OutboxEvent) (t : OutboxEvent)
    → All P batch
    → (publish_all e batch).stuck ≡ some t
    → P t
unfolding publish_all
stuck-where P e [] t a h = cc
stuck-where P e (r ∷ rest) t (g, a) h =
    publish_all-step (λ (p : Pass). p.stuck ≡ some t → P t) e r rest (λ k. cc)
      (λ q eq. after_publish-where P q r rest (publish_all e rest) t g (stuck-where P e rest t a)) h

batch_of-All :
    (P : OutboxEvent → Type 0) (c : Config) (e : Surroundings) (w : World)
    → All P w.rows
    → All P (batch_of c e w)
unfolding claimed
batch_of-All P c e w a = All-take P _ _ (select_where-All P (claimable e.now e.locked) w.rows a)

within :
    (c : Config) (e : Surroundings) (o : Option OutboxEvent) (r t : OutboxEvent)
    → ((u : OutboxEvent) → o ≡ some u → r.id ≡ u.id → u.attempts ≡ r.attempts)
    → WithinBudget c r
    → Course c e o r t
    → WithinBudget c t
within c e o r t known b (s, (_, untouched st a), at, close) = record {
  has_left = λ h. on close (λ k. rw (at, a) (b.has_left (sym st ∙ sym k ∙ h))) (λ d. cc);
  used_up = λ h. on close (λ k. rw (at, a) (b.used_up (sym st ∙ sym k ∙ h))) (λ d. cc);
}
within c e o r t known b (s, (_, charged u h i y m p q a), at, close) = record {
  has_left = λ g. rw (at, a) (omega (arith, m, known u h i));
  used_up = λ g. on close (λ k. cc) (λ d. cc);
}
within c e o r t known b (s, (_, parked u h i y m q a), at, close) = record {
  has_left = λ g. on close (λ k. cc) (λ d. cc);
  used_up = λ g. rw (at, a) (omega (arith, m, known u h i));
}

-- A row with the id of the row the iteration stops at has its attempts.
abbrev AgreesOn : Option OutboxEvent → OutboxEvent → Type 0
AgreesOn o r = (u : OutboxEvent) → o ≡ some u → r.id ≡ u.id → u.attempts ≡ r.attempts

agreeing :
    (o : Option OutboxEvent) (rows : List OutboxEvent)
    → ((u : OutboxEvent) → o ≡ some u → Known rows u)
    → All (AgreesOn o) rows
agreeing o [] h = tt
agreeing o (r ∷ rs) h = (λ u e. (h u e).0, agreeing o rs (λ u e. (h u e).1))

pub map-All {ℓ} :
    {A : Type ℓ} (P Q : A → Type 0) (f : A → A) (xs : List A)
    → ((x : A) → Q x → P (f x))
    → All Q xs
    → All P (map f xs)
map-All P Q f [] h a = tt
map-All P Q f (x ∷ xs) h (q, a) = (h x q, map-All P Q f xs h a)

-- With ids that are unique, every iteration keeps the rows within their budget: a pending row has been
-- charged fewer attempts than MaxPublishAttempts, and a failed one all but the last.
pub once-WithinBudget :
    (c : Config) (e : Surroundings) (w : World)
    → IsKeyed w.rows
    → All (WithinBudget c) w.rows
    → All (WithinBudget c) (once c e w).rows
once-WithinBudget c e w keyed budget =
    let o = stuck_of c e w in
    let known : (u : OutboxEvent) → stuck_of c e w ≡ some u → Known w.rows u = λ u h.
      stuck-where (Known w.rows) e (batch_of c e w) u
        (batch_of-All (Known w.rows) c e w (Known-All w.rows keyed)) h in
    rw (once-rows c e w) (
      map-All (WithinBudget c) (λ r. AgreesOn o r × WithinBudget c r) (fate c e w) w.rows
        (λ r (agrees, b). within c e o r (fate c e w r) agrees b (fate-Course c e w r))
        (All-both (AgreesOn o) (WithinBudget c) w.rows (agreeing o w.rows known) budget))
