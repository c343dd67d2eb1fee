-- ===== src/Policy/Choice.antt =====
-- internal/policy/policy.go: the rail that ChooseRail gives.
use resilient_mesh_razorpayb.Domain.Records.{TelemetrySnapshot}
use resilient_mesh_razorpayb.Policy.Telemetry.{is_open, is_degraded}
use resilient_mesh_razorpayb.Policy.Rails.{rail_issuer_key, count, assess}
use resilient_mesh_razorpayb.Base.{
  ◌<◌, ◌≡◌, refl, ap, subst, ◌≢◌, ◌⊎◌, inl, inr, Bool, true, false, not, ◌&&◌, ◌||◌, Option, none,
  some, List, [], ◌∷◌, arith, if◌then◌else◌, take, All, any,
}
use resilient_mesh_razorpayb.Base.{
  ◌≡◌, refl, ap, subst, ◌≢◌, inl, inr, Bool, true, false, not, ◌||◌, Option, none, some, List, [],
  ◌∷◌, arith, if◌then◌else◌, take, All, any,
}
use resilient_mesh_razorpayb.Domain.Vocabulary.{Rail, no_rail, rail_of_name}
use resilient_mesh_razorpayb.Text.{Bytes}
use resilient_mesh_razorpayb.Domain.Times.{Time}
use resilient_mesh_razorpayb.Gatekeeper.Helpers.{rail_eq, not_equal, Listed}
use resilient_mesh_razorpayb.Policy.Ranking.{AtLeast, first_of-AtLeast}
use resilient_mesh_razorpayb.Policy.Rails.{
  Snapshots, tally, is_blocked, considered, candidates, RailScore, score, better, first_of,
  choose_rail, max_rails_scanned,
}

-- An issuer of the rail, and one that is neither shedding load nor degraded.
abbrev pub is_issuer : Rail → Bytes × TelemetrySnapshot → Bool
is_issuer r (k, t) = rail_issuer_key r k

abbrev pub is_usable : Rail → Bytes × TelemetrySnapshot → Bool
is_usable r (k, t) = rail_issuer_key r k && not (is_open t.breaker_state || is_degraded t)

-- What a rail must be for the engine to choose it.
abbrev pub Eligible : Rail → Snapshots → List Bytes → Rail → Type 0
Eligible current snaps available r =
    Listed r available
    × (r ≢ current)
    × (r ≢ no_rail)
    × ((any (is_issuer r) snaps ≡ false) ⊎ (any (is_usable r) snaps ≡ true))

tally-reads :
    (now : Time) (r : Rail) (snaps : Snapshots)
    → ((any (is_usable r) snaps ≡ true) ⊎ ((tally now r snaps).blocked ≡ (tally now r snaps).known))
      × ((any (is_issuer r) snaps ≡ false) ⊎ (0 < (tally now r snaps).known))
unfolding tally count assess
tally-reads now r [] = (inr refl, inl refl)
tally-reads now r ((k, t) ∷ es) = ground (arith, tally-reads now r es)

unblocked :
    (now : Time) (r : Rail) (snaps : Snapshots)
    → is_blocked (tally now r snaps) ≡ false
    → (any (is_issuer r) snaps ≡ false) ⊎ (any (is_usable r) snaps ≡ true)
unfolding is_blocked
unblocked now r snaps h = ground (arith, tally-reads now r snaps)

passed :
    (current q r : Rail) (seen : List Rail)
    → (if rail_eq q current || rail_eq q no_rail || any (rail_eq q) seen then none else some q)
      ≡ some r
    → (q ≡ r) × (not (rail_eq q current) ≡ true) × (not (rail_eq q no_rail) ≡ true)
passed current q r seen h = ground arith

read_as :
    (current : Rail) (seen : List Rail) (r : Rail) (o : Option Rail)
    → (elim o as (λ x. Option Rail) [
      | none ↦ none
      | some q ↦
          if rail_eq q current || rail_eq q no_rail || any (rail_eq q) seen then none else some q
    ])
      ≡ some r
    → (o ≡ some r) × (r ≢ current) × (r ≢ no_rail)
read_as current seen r none h = absurd cc
read_as current seen r (some q) h =
    let p = passed current q r seen h in
    (
      ap some p.0,
      not_equal r current (subst (λ x. not (rail_eq x current) ≡ true) p.0 p.1),
      not_equal r no_rail (subst (λ x. not (rail_eq x no_rail) ≡ true) p.0 p.2),
    )

considered-some :
    (current : Rail) (seen : List Rail) (e : Bytes) (r : Rail)
    → considered current seen e ≡ some r
    → (rail_of_name e ≡ some r) × (r ≢ current) × (r ≢ no_rail)
unfolding considered
considered-some current seen e r h = read_as current seen r (rail_of_name e) h

kept :
    (P : RailScore → Type 0) (b : Bool) (c : RailScore) (rest : List RailScore)
    → (b ≡ false → P c)
    → All P rest
    → All P (if b then rest else c ∷ rest)
kept P true c rest h hs = hs
kept P false c rest h hs = (h refl, hs)

either : (P : RailScore → Type 0) (b : Bool) (c d : RailScore) → P c → P d → P (if b then c else d)
either P true c d h k = h
either P false c d h k = k

first_of-All :
    (P : RailScore → Type 0) (c : RailScore) (cs : List RailScore)
    → P c
    → All P cs
    → P (first_of c cs)
unfolding first_of
first_of-All P c [] h hs = h
first_of-All P c (d ∷ cs) h (k, hs) =
    first_of-All P (if better d c then d else c) cs (either P (better d c) d c k h) hs

-- The first of the ranked ones.
Top : (RailScore → Type 0) → List RailScore → Rail → Type 0
Top P l r = (w : RailScore) × P w × (w.rail ≡ r) × All (AtLeast w) l

chosen :
    (P : RailScore → Type 0) (l : List RailScore)
    → All P l
    → (elim l as (λ x. Rail) [ [] ↦ no_rail | c ∷ cs ↦ (first_of c cs).rail ]) ≢ no_rail
    → Top P l (elim l as (λ x. Rail) [ [] ↦ no_rail | c ∷ cs ↦ (first_of c cs).rail ])
unfolding Top
chosen P [] hs h = absurd (h refl)
chosen P (c ∷ cs) (k, hs) h = (first_of c cs, first_of-All P c cs k hs, refl, first_of-AtLeast c cs)

-- A candidate is an eligible rail with its own score.
abbrev Scored : Time → Rail → Snapshots → List Bytes → RailScore → Type 0
Scored now current snaps available c =
    Eligible current snaps available c.rail × (c ≡ score c.rail (tally now c.rail snaps))

module _ (now : Time) (current : Rail) (snaps : Snapshots) where
  weaken :
      (e : Bytes) (es : List Bytes) (cs : List RailScore)
      → All (Scored now current snaps es) cs
      → All (Scored now current snaps (e ∷ es)) cs
  weaken e es [] h = h
  weaken e es (c ∷ cs) ((h, s), hs) = (((inr h.0, h.1, h.2, h.3), s), weaken e es cs hs)

  judged :
      (seen : List Rail) (e : Bytes) (es : List Bytes) (next : Option Rail) (rest : List RailScore)
      → considered current seen e ≡ next
      → All (Scored now current snaps es) rest
      → All (Scored now current snaps (e ∷ es)) (elim next as (λ x. List RailScore) [
        | none ↦ rest
        | some r ↦
            if is_blocked (tally now r snaps) then rest else score r (tally now r snaps) ∷ rest
      ])
  unfolding score
  judged seen e es none rest same h = weaken e es rest h
  judged seen e es (some r) rest same h =
      let read = considered-some current seen e r same in
      kept (Scored now current snaps (e ∷ es)) (is_blocked (tally now r snaps))
        (score r (tally now r snaps)) rest
        (λ free. ((inl read.0, read.1, read.2, unblocked now r snaps free), refl))
        (weaken e es rest h)

  candidates-All :
      (seen : List Rail) (es : List Bytes)
      → All (Scored now current snaps es) (candidates now current snaps seen es)
  unfolding candidates
  candidates-All seen [] = tt
  candidates-All seen (e ∷ es) =
      let seen_now = elim (considered current seen e) as (λ x. List Rail) [
        | none ↦ seen
        | some r ↦ r ∷ seen
      ] in
      judged seen e es (considered current seen e) (candidates now current snaps seen_now es) refl
        (candidates-All seen_now es)

  top :
      (available : List Bytes)
      → choose_rail false now current available snaps ≢ no_rail
      → Top
          (Scored now current snaps (take max_rails_scanned available))
          (candidates now current snaps [] (take max_rails_scanned available))
          (choose_rail false now current available snaps)
  unfolding choose_rail
  top available h =
      chosen (Scored now current snaps (take max_rails_scanned available))
        (candidates now current snaps [] (take max_rails_scanned available))
        (candidates-All [] (take max_rails_scanned available)) h

  -- A rail that is chosen is among the first 32 listed ones, is another one than the current, and has
  -- an issuer without an open breaker and without degradation, or none at all on record. Under a
  -- cancelled context no rail is chosen.
  pub choose_rail-Eligible :
      (cancelled : Bool) (available : List Bytes)
      → choose_rail cancelled now current available snaps ≢ no_rail
      → (cancelled ≡ false)
        × Eligible current snaps
            (take max_rails_scanned available)
            (choose_rail cancelled now current available snaps)
  unfolding choose_rail Top
  choose_rail-Eligible true available h = absurd (h refl)
  choose_rail-Eligible false available h =
      let (w, s, same, best) = top available h in
      (refl, subst (Eligible current snaps (take max_rails_scanned available)) same s.0)

  -- The smoothed estimate of success of the rail that is chosen, from the attempts that its issuers
  -- have on record, is at least that of every candidate.
  pub choose_rail-AtLeast :
      (available : List Bytes)
      → choose_rail false now current available snaps ≢ no_rail
      → let r = choose_rail false now current available snaps in
        All
          (AtLeast (score r (tally now r snaps)))
          (candidates now current snaps [] (take max_rails_scanned available))
  unfolding Top
  choose_rail-AtLeast available h =
      let (w, s, same, best) = top available h in
      let cs = candidates now current snaps [] (take max_rails_scanned available) in
      subst (λ r. All (AtLeast (score r (tally now r snaps))) cs) same
        (subst (λ v. All (AtLeast v) cs) s.1 best)
