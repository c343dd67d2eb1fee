-- ===== src/Worker/Requeued.antt =====
-- internal/worker/worker.go: sweepDue loses no incident that it has claimed.
use resilient_mesh_razorpayb.Store.Due.{
  Known, HasTexts, own_rows, due_rows-All, mapped-Known, unschedule-id, named_rows,
}
use resilient_mesh_razorpayb.Base.{
  ◌≡◌, refl, sym, ap, ◌∙◌, subst, ◌≢◌, ◌⊎◌, inl, inr, Bool, true, false, List, [], ◌∷◌, ◌++◌, arith,
  if◌then◌else◌, Bool-cases, take, All, any, any-append, list_eq, list_eq_refl, ◌+ℤ◌, eqb_ℤ-eq, ok,
}
use resilient_mesh_razorpayb.Text.{Bytes}
use resilient_mesh_razorpayb.Domain.Times.{Time, zero_time}
use resilient_mesh_razorpayb.Modelcheck.Keeps.{All-take}
use resilient_mesh_razorpayb.Outbox.Table.{bound_limit}
use resilient_mesh_razorpayb.Outbox.Relay.{Reply, done, lost, unanswered, takes_effect, answered}
use resilient_mesh_razorpayb.Store.Checks.{require}
use resilient_mesh_razorpayb.Store.Incidents.{
  IncidentRow, has_id, at_id, update_row, with_schedule, schedule_incident, due_rows,
  claim_due_incidents, max_list_limit, ids_of,
}
use resilient_mesh_razorpayb.Store.Rows.{find_row-map, map_row, at_id-id}
use resilient_mesh_razorpayb.Worker.State.{World, Pool}
use resilient_mesh_razorpayb.Worker.Sweep.{SweepTime, Sweep, requeue, requeue_all, sweep_due}
use resilient_mesh_razorpayb.Worker.Execute.{effect_of}
use resilient_mesh_razorpayb.Worker.Settled.{Rested, updated-Rested}

-- The incident was published as due, or its row is at rest.
abbrev pub Requeued : Sweep → Bytes → Type 0
Requeued s id = (any (λ k. list_eq k id) s.published ≡ true) ⊎ Rested id s.world.incidents

-- A schedule keeps what is at rest.
scheduled-Rested :
    (now at : Time) (k id : Bytes) (rows : List IncidentRow)
    → Rested id rows
    → Rested id (update_row k (with_schedule now at) rows)
unfolding with_schedule
scheduled-Rested now at k id rows (r, f, rest) =
    let moved =
      find_row-map (at_id k (with_schedule now at)) id rows
        (λ x. at_id-id (with_schedule now at) k x refl)
      ∙ ap (map_row (at_id k (with_schedule now at))) f in
    elim (Bool-cases (has_id k r)) [
      | inl y ↦ (with_schedule now at r, moved ∙ rw y refl, inr (refl, refl))
      | inr n ↦ (r, moved ∙ rw n refl, rest)
    ]

scheduled-id :
    (now at : Time) (k : Bytes) (r : IncidentRow)
    → (at_id k (with_schedule now at) r).incident.id ≡ r.incident.id
unfolding with_schedule
scheduled-id now at k r = at_id-id (with_schedule now at) k r refl

-- A schedule whose answer does not matter.
either_way :
    (Q : List IncidentRow → Type 0) (reply : Reply) (now : Time) (k : Bytes) (at : Time)
    (rows : List IncidentRow)
    → Q rows
    → Q (update_row k (with_schedule now at) rows)
    → Q (effect_of reply (schedule_incident now k at rows) rows)
unfolding schedule_incident require
either_way Q done now k at rows h u = ground (arith, h, u)
either_way Q lost now k at rows h u = h
either_way Q unanswered now k at rows h u = ground (arith, h, u)

module _ (p : Pool) (e : SweepTime) where
  requeue-Known :
      (k id : Bytes) (s : Sweep)
      → Known s.world.incidents id
      → Known (requeue p e k s).world.incidents id
  unfolding requeue
  requeue-Known k id s h =
      let at = e.now +ℤ p.cfg.sweep_interval in
      let moved =
        either_way (λ rows. Known rows id) (e.rearming k) e.db_now k at s.world.incidents h
          (mapped-Known _ id s.world.incidents (scheduled-id e.db_now at k) h) in
      elim (Bool-cases (answered (e.publishing k))) [ inl y ↦ rw y h | inr n ↦ rw n moved ]

  still_sent :
      (b : Bool) (k id : Bytes) (published : List Bytes)
      → any (λ x. list_eq x id) published ≡ true
      → any (λ x. list_eq x id) (if b then published ++ k ∷ [] else published) ≡ true
  still_sent true k id published h =
      any-append (λ (x : Bytes). list_eq x id) published (k ∷ []) ∙ ground (arith, h)
  still_sent false k id published h = h

  requeue-Requeued : (k id : Bytes) (s : Sweep) → Requeued s id → Requeued (requeue p e k s) id
  unfolding requeue
  requeue-Requeued k id s (inl sent) = elim (Bool-cases (answered (e.publishing k))) [
    | inl y ↦ rw y (inl (still_sent _ k id s.published sent))
    | inr n ↦ rw n (inl (still_sent _ k id s.published sent))
  ]
  requeue-Requeued k id s (inr rest) =
      let at = e.now +ℤ p.cfg.sweep_interval in
      let moved =
        either_way (Rested id) (e.rearming k) e.db_now k at s.world.incidents rest
          (scheduled-Rested e.db_now at k id s.world.incidents rest) in
      elim (Bool-cases (answered (e.publishing k))) [
        | inl y ↦ rw y (inr rest)
        | inr n ↦ rw n (inr moved)
      ]

  rearmed :
      (now : Time) (id : Bytes) (at : Time) (rows : List IncidentRow)
      → Known rows id
      → at ≢ zero_time
      → Rested id (effect_of done (schedule_incident now id at rows) rows)
  unfolding schedule_incident require with_schedule
  rearmed now id at rows (f, t) n =
      let set : schedule_incident now id at rows ≡ ok (update_row id (with_schedule now at) rows) =
        ground (arith, f, t, n, eqb_ℤ-eq at zero_time) in
      subst (λ r. Rested id (effect_of done r rows)) (sym set)
        (updated-Rested (with_schedule now at) id rows _ refl f (λ r. refl) (λ r. inr (refl, refl)))

  answered-takes_effect : (x : Reply) → answered x ≡ true → takes_effect x ≡ true
  answered-takes_effect done h = refl
  answered-takes_effect lost h = absurd cc
  answered-takes_effect unanswered h = refl

  sent_last :
      (id : Bytes) (published : List Bytes) → any (λ x. list_eq x id) (published ++ id ∷ []) ≡ true
  sent_last id published =
      any-append (λ (x : Bytes). list_eq x id) published (id ∷ []) ∙ ground (arith, list_eq_refl id)

  requeue_self :
      (id : Bytes) (s : Sweep)
      → e.rearming id ≡ done
      → e.now +ℤ p.cfg.sweep_interval ≢ zero_time
      → Known s.world.incidents id
      → Requeued (requeue p e id s) id
  unfolding requeue
  requeue_self id s r n k =
      let at = e.now +ℤ p.cfg.sweep_interval in
      let again : Rested id (
          effect_of (e.rearming id) (schedule_incident e.db_now id at s.world.incidents)
            s.world.incidents) =
        subst
          (λ (x : Reply).
            Rested id
              (effect_of x (schedule_incident e.db_now id at s.world.incidents) s.world.incidents))
          (sym r) (rearmed e.db_now id at s.world.incidents k n) in
      elim (Bool-cases (answered (e.publishing id))) [
        | inl y ↦ rw (y, answered-takes_effect _ y) (inl (sent_last id s.published))
        | inr m ↦ rw m (inr again)
      ]

  requeue_all-keeps :
      (ids : List Bytes) (id : Bytes) (s : Sweep)
      → Requeued s id
      → Requeued (requeue_all p e ids s) id
  unfolding requeue_all
  requeue_all-keeps [] id s h = h
  requeue_all-keeps (k ∷ ids) id s h =
      requeue_all-keeps ids id (requeue p e k s) (requeue-Requeued k id s h)

  all_still :
      (k : Bytes) (ids : List Bytes) (s : Sweep)
      → All (Known s.world.incidents) ids
      → All (Known (requeue p e k s).world.incidents) ids
  all_still k [] s h = tt
  all_still k (id ∷ ids) s (h, hs) = (requeue-Known k id s h, all_still k ids s hs)

  requeue_all-All :
      (ids : List Bytes) (s : Sweep)
      → ((k : Bytes) → e.rearming k ≡ done)
      → e.now +ℤ p.cfg.sweep_interval ≢ zero_time
      → All (Known s.world.incidents) ids
      → All (Requeued (requeue_all p e ids s)) ids
  unfolding requeue_all
  requeue_all-All [] s r n h = tt
  requeue_all-All (k ∷ ids) s r n (h, hs) = (
    requeue_all-keeps ids k (requeue p e k s) (requeue_self k s (r k) n h),
    requeue_all-All ids (requeue p e k s) r n (all_still k ids s hs),
  )

-- The ids of the incidents that a sweep claims.
abbrev pub claimed_ids : Pool → SweepTime → World → List Bytes
claimed_ids p e w =
    ids_of (claim_due_incidents e.db_now e.now p.cfg.sweep_batch e.locked w.incidents).0

-- Where the store answers, its ids are texts it accepts, and the sweep's time and interval do not make the
-- zero time: every incident that a sweep claims is published as due, or its row is closed, or scheduled
-- with a due time, whatever becomes of the calls of the queue.
pub sweep_due-Requeued :
    (p : Pool) (e : SweepTime) (w : World)
    → HasTexts w.incidents
    → e.claiming ≡ done
    → ((k : Bytes) → e.rearming k ≡ done)
    → e.now +ℤ p.cfg.sweep_interval ≢ zero_time
    → All (Requeued (sweep_due p e w)) (claimed_ids p e w)
unfolding sweep_due claim_due_incidents
sweep_due-Requeued p e w texts c r n =
    let due = due_rows e.now e.locked w.incidents in
    let taken = take (bound_limit p.cfg.sweep_batch max_list_limit) due in
    let known =
      All-take _ (bound_limit p.cfg.sweep_batch max_list_limit) due
        (due_rows-All _ e.now e.locked w.incidents (own_rows w.incidents texts)) in
    rw c (
      requeue_all-All p e _ _ r n
        (named_rows _ w.incidents taken (unschedule-id e.db_now (ids_of taken)) known))
