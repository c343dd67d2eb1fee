-- ===== src/Policy/Rails.antt =====
-- internal/policy/policy.go: ChooseRail without its reason, a text for a reader. The snapshots are the
-- entries of a map, in any order: the sums and the choice do not depend on it. A sum of counts is a
-- natural number, since each is at most 10^9.
use resilient_mesh_razorpayb.Base.{
  ℕ, suc, ◌+◌, ◌*◌, Bool, false, not, ◌&&◌, ◌||◌, Option, none, some, List, [], ◌∷◌, ltb, leb, ◌==◌,
  if◌then◌else◌, length, take, any, pos, pos_part, ltb_ℤ, eqb_ℤ,
}
use resilient_mesh_razorpayb.Domain.Vocabulary.{
  Rail, upi_intent, upi_collect, card, netbanking, wallet, no_rail, rail_of_name,
}
use resilient_mesh_razorpayb.Text.{Bytes, codes, starts_with, to_lower}
use resilient_mesh_razorpayb.Domain.Times.{Time, Duration, second, time_sub, zero_time}
use resilient_mesh_razorpayb.Domain.Records.{TelemetrySnapshot}
use resilient_mesh_razorpayb.Gatekeeper.Helpers.{rail_eq}
use resilient_mesh_razorpayb.Policy.Telemetry.{is_degraded, is_open, successes_of, clamp_count}

-- Snapshots by issuer key.
abbrev pub Snapshots : Type 0
Snapshots = List (Bytes × TelemetrySnapshot)

abbrev max_issuer_key_len : ℕ
max_issuer_key_len = 128

abbrev pub max_rails_scanned : ℕ
max_rails_scanned = 32

abbrev snapshot_stale_after : Duration
snapshot_stale_after = pos (15 * 60 * second)

unfoldable pub rail_method_prefixes : Rail → List Bytes
rail_method_prefixes upi_intent = codes "upi:" ∷ []
rail_method_prefixes upi_collect = codes "upi:" ∷ []
rail_method_prefixes card = codes "card:" ∷ codes "emi:" ∷ []
rail_method_prefixes netbanking = codes "netbanking:" ∷ []
rail_method_prefixes wallet = codes "wallet:" ∷ []
rail_method_prefixes no_rail = []

-- RailIssuerKeys: a key that belongs to the rail.
unfoldable pub rail_issuer_key : Rail → Bytes → Bool
unfolding rail_method_prefixes
rail_issuer_key r k =
    not (length k == 0)
    && leb (length k) max_issuer_key_len
    && any (λ p. starts_with p (to_lower k)) (rail_method_prefixes r)

unfoldable pub stale : Time → Time → Bool
stale now sampled_at =
    if eqb_ℤ sampled_at zero_time
    then false
    else ltb_ℤ snapshot_stale_after (time_sub now sampled_at)

pub record SnapshotView : Type 0 where
  pub breaker_open : Bool
  pub degraded : Bool
  pub fresh : Bool
  pub attempts : ℕ
  pub successes : ℕ

unfoldable pub assess : Time → TelemetrySnapshot → SnapshotView
unfolding stale
assess now t = record {
  breaker_open = is_open t.breaker_state;
  degraded = is_degraded t;
  fresh = not (stale now t.sampled_at);
  attempts = pos_part (clamp_count t.attempts);
  successes = pos_part (successes_of t);
}

-- What ChooseRail sums over the issuers of a rail.
pub record Tally : Type 0 where
  pub known : ℕ
  pub blocked : ℕ
  pub attempts : ℕ
  pub successes : ℕ

unfoldable pub count : SnapshotView → Tally → Tally
count v s =
    if v.breaker_open || v.degraded
    then record s { known = suc s.known; blocked = suc s.blocked }
    else if v.fresh
    then record {
      known = suc s.known;
      blocked = s.blocked;
      attempts = s.attempts + v.attempts;
      successes = s.successes + v.successes;
    }
    else record s { known = suc s.known }

unfoldable pub tally : Time → Rail → Snapshots → Tally
unfolding count rail_issuer_key assess
tally now r [] = record { known = 0; blocked = 0; attempts = 0; successes = 0 }
tally now r ((k, t) ∷ es) =
    let rest = tally now r es in if rail_issuer_key r k then count (assess now t) rest else rest

-- Every issuer that there is evidence for is unusable.
unfoldable pub is_blocked : Tally → Bool
is_blocked s = ltb 0 s.known && s.blocked == s.known

pub record RailScore : Type 0 where
  pub rail : Rail
  pub attempts : ℕ
  pub successes : ℕ

unfoldable pub score : Rail → Tally → RailScore
score r s =
    let attempts = pos_part (clamp_count (pos s.attempts)) in
    let successes = pos_part (clamp_count (pos s.successes)) in
    record {
      rail = r;
      attempts = attempts;
      successes = if ltb attempts successes then attempts else successes;
    }

-- A listed name that ChooseRail looks at: a rail, not this one, and not seen before.
unfoldable pub considered : Rail → List Rail → Bytes → Option Rail
considered current seen e = elim (rail_of_name e) [
  | none ↦ none
  | some r ↦ if rail_eq r current || rail_eq r no_rail || any (rail_eq r) seen then none else some r
]

-- The loop over the listed rails.
unfoldable pub candidates : Time → Rail → Snapshots → List Rail → List Bytes → List RailScore
unfolding considered tally is_blocked score
candidates now current snaps seen [] = []
candidates now current snaps seen (e ∷ es) =
    let next = considered current seen e in
    let rest = candidates now current snaps (elim next [ none ↦ seen | some r ↦ r ∷ seen ]) es in
    elim next [
      | none ↦ rest
      | some r ↦ if is_blocked (tally now r snaps) then rest else score r (tally now r snaps) ∷ rest
    ]

-- The place of a rail's name in the order of texts.
unfoldable pub name_order : Rail → ℕ
name_order card = 0
name_order netbanking = 1
name_order no_rail = 2
name_order upi_collect = 3
name_order upi_intent = 4
name_order wallet = 5

-- What ChooseRail sorts by.
unfoldable pub better : RailScore → RailScore → Bool
unfolding name_order
better a b =
    let lhs = (a.successes + 1) * (b.attempts + 2) in
    let rhs = (b.successes + 1) * (a.attempts + 2) in
    if lhs == rhs then ltb (name_order a.rail) (name_order b.rail) else ltb rhs lhs

-- The first one after sort.Slice.
unfoldable pub first_of : RailScore → List RailScore → RailScore
unfolding better
first_of best [] = best
first_of best (c ∷ cs) = first_of (if better c best then c else best) cs

-- Engine.ChooseRail, for a context that may be cancelled.
unfoldable pub choose_rail : Bool → Time → Rail → List Bytes → Snapshots → Rail
unfolding candidates first_of
choose_rail cancelled now current available snaps =
    if cancelled
    then no_rail
    else elim (candidates now current snaps [] (take max_rails_scanned available)) [
      | [] ↦ no_rail
      | c ∷ cs ↦ (first_of c cs).rail
    ]
