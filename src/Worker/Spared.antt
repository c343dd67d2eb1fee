-- ===== src/Worker/Spared.antt =====
-- internal/worker/worker.go: how often the gateway is called for an incident.
use resilient_mesh_razorpayb.Base.{
  ℕ, suc, ◌+◌, ◌≤◌, ◌≡◌, refl, sym, ap, ◌∙◌, subst, ◌⊎◌, inl, inr, Bool, true, false, Option, none,
  some, List, [], ◌∷◌, ◌++◌, arith, if◌then◌else◌, All, list_eq, list_eq-eq, ℤ, pos, pos_part,
  neg_part, ◌+ℤ◌, ◌≤ℤ◌,
}
use resilient_mesh_razorpayb.Text.{Bytes}
use resilient_mesh_razorpayb.Domain.Times.{Time}
use resilient_mesh_razorpayb.Store.Incidents.{find_row, Incident, IncidentRow}
use resilient_mesh_razorpayb.Store.Rows.{count_of, Claimed, count_at, count_at-claim}
use resilient_mesh_razorpayb.Worker.State.{
  World, Pool, Surroundings, QueueMessage, Event, audited, notified, presented, observed, learned,
}
use resilient_mesh_razorpayb.Worker.Handle.{handle}
use resilient_mesh_razorpayb.Worker.Steps.{Step, Only, calls}
use resilient_mesh_razorpayb.Worker.Outcomes.{handle-holds}
use resilient_mesh_razorpayb.Worker.Claims.{IsSound}

-- Whether an event calls the gateway for an incident.
abbrev pub call_for : Bytes → Event → ℕ
call_for id (presented c) = if list_eq c.incident_id id then 1 else 0
call_for id _ = 0

abbrev pub calls_for : Bytes → List Event → ℕ
calls_for id [] = 0
calls_for id (x ∷ xs) = call_for id x + calls_for id xs

pub calls_for-append :
    (id : Bytes) (xs ys : List Event) → calls_for id (xs ++ ys) ≡ calls_for id xs + calls_for id ys
calls_for-append id [] ys = omega arith
calls_for-append id (x ∷ xs) ys = omega (arith, calls_for-append id xs ys)

-- At least as many attempts are counted, and the count is not negative.
abbrev pub Covers : Option ℤ → ℕ → Type 0
Covers none k = k ≡ 0
Covers (some z) k = (neg_part z ≡ 0) × (k ≤ pos_part z)

-- The gateway was called at most once for each counted attempt, and at most as often as is allowed.
abbrev pub Spared : Pool → Bytes → World → Type 0
Spared p id w =
    Covers (count_at id w.incidents) (calls_for id w.log)
    × (calls_for id w.log ≤ pos_part p.gate.cfg.max_attempts)

module _ (p : Pool) (i : Incident) (n : ℤ) (id : Bytes) where
  -- Calls that are sound are calls for one incident.
  pub sound_calls :
      (events : List Event)
      → All (Only (IsSound p i n)) events
      → (calls_for id events ≤ calls events)
        × ((calls_for id events ≡ 0) ⊎ (list_eq i.id id ≡ true) × (n ≤ℤ p.gate.cfg.max_attempts))
  sound_calls [] h = (omega arith, inl refl)
  sound_calls (presented c ∷ xs) (s, h) =
      let same = ap (λ (k : Bytes). list_eq k id) s.names in
      ground (arith, sound_calls xs h, same, s.within)
  sound_calls (audited k b ∷ xs) (s, h) = ground (arith, sound_calls xs h)
  sound_calls (notified c ∷ xs) (s, h) = ground (arith, sound_calls xs h)
  sound_calls (observed k b ∷ xs) (s, h) = ground (arith, sound_calls xs h)
  sound_calls (learned k b ∷ xs) (s, h) = ground (arith, sound_calls xs h)

one_more : (z : ℤ) → neg_part z ≡ 0 → z +ℤ pos 1 ≡ pos (suc (pos_part z))
unfolding ◌+ℤ◌
one_more z h = ground arith

-- A claim makes room for a call.
pub covered :
    (b : Bool) (o : Option ℤ) (z n max : ℤ) (k c : ℕ)
    → Covers o k
    → k ≤ pos_part max
    → (b ≡ true → o ≡ some z)
    → n ≡ z +ℤ pos 1
    → c ≤ 1
    → (c ≡ 0) ⊎ (b ≡ true) × (n ≤ℤ max)
    → Covers (if b then some n else o) (k + c) × (k + c ≤ pos_part max)
covered false none z n max k c h m f e l (inl x) = ground arith
covered false (some y) z n max k c h m f e l (inl x) = ground arith
covered false o z n max k c h m f e l (inr x) = absurd cc
covered true o z n max k c h m f e l x =
    let (natural, enough) = subst (λ t. Covers t k) (f refl) h in
    let next : n ≡ pos (suc (pos_part z)) = e ∙ one_more z natural in
    let up = ap pos_part next in
    let down = ap neg_part next in
    elim x as (λ t. Covers (some n) (k + c) × (k + c ≤ pos_part max)) [
      | inl none_made ↦ ((omega (arith, down), omega (arith, up)), omega arith)
      | inr (here, room) ↦ ((omega (arith, down), omega (arith, up)), omega (arith, up, down, room))
    ]

module _ (p : Pool) (id : Bytes) where
  claim_Spared :
      (w v : World) (now : Time) (i : Incident) (n : ℤ) (rows : List IncidentRow)
      → Spared p id w
      → Claimed now i.id w.incidents rows n
      → Step (IsSound p i n) 1 (record w { incidents = rows }) v
      → Spared p id v
  claim_Spared w v now i n rows s c st =
      let b = list_eq i.id id in
      let count = st.counts id ∙ count_at-claim now i.id id w.incidents rows n c in
      let logged = ap (calls_for id) st.log_lem ∙ calls_for-append id w.log st.events in
      let (few, which) = sound_calls p i n id st.events st.only in
      let found = λ (y : b ≡ true). ap count_of (
        subst (λ (k : Bytes). find_row k w.incidents ≡ some c.row) (list_eq-eq i.id id y)
          c.found) in
      let room =
        covered b (count_at id w.incidents) c.row.incident.attempt_count n p.gate.cfg.max_attempts
          (calls_for id w.log) (calls_for id st.events) s.0 s.1 found c.number
          (omega (arith, few, st.few)) which in
      (
        subst (λ o. Covers o (calls_for id v.log)) (sym count)
            (subst (λ k. Covers (if b then some n else count_at id w.incidents) k) (sym logged)
              room.0),
        subst (λ k. k ≤ pos_part p.gate.cfg.max_attempts) (sym logged) room.1,
      )

  -- Handle keeps the bound.
  pub handle-Spared :
      (e : Surroundings) (msg : QueueMessage) (w : World)
      → Spared p id w
      → Spared p id (handle p e msg w).0
  handle-Spared e msg w s =
      handle-holds p e w (Spared p id) s
        (λ i n rows v at c st. claim_Spared w v e.db_now i n rows s c st) msg
