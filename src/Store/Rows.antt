-- ===== src/Store/Rows.antt =====
-- internal/store: what the statements on the incidents table do to the row of an incident.
use resilient_mesh_razorpayb.Store.Checks.{max_identifier_len, check_text, StoreError, require}
use resilient_mesh_razorpayb.Store.Incidents.{
  claim_number, is_waiting, claim, increment_incident_attempts, IncidentRow, IncidentState, has_id,
  find_row, at_id, update_row, with_state, update_incident_state, with_schedule, schedule_incident,
}
use resilient_mesh_razorpayb.Base.{
  ◌≡◌, refl, sym, ap, ◌∙◌, subst, inl, inr, Bool, true, false, Option, none, some, List, [], ◌∷◌,
  map, arith, if◌then◌else◌, Bool-cases, list_eq, list_eq-eq, list_eq_refl, ℤ, pos, ◌+ℤ◌, Result,
  ok, err, ◌>>=◌, ◌>>◌,
}
use resilient_mesh_razorpayb.Text.{Bytes}
use resilient_mesh_razorpayb.Domain.Times.{Time}

abbrev pub map_row : (IncidentRow → IncidentRow) → Option IncidentRow → Option IncidentRow
map_row g none = none
map_row g (some r) = some (g r)

-- The row with an id, after an update that keeps the ids.
pub find_row-map :
    (g : IncidentRow → IncidentRow) (j : Bytes) (rows : List IncidentRow)
    → ((r : IncidentRow) → (g r).incident.id ≡ r.incident.id)
    → find_row j (map g rows) ≡ map_row g (find_row j rows)
unfolding find_row
find_row-map g j [] keep = refl
find_row-map g j (r ∷ rows) keep =
    let same : has_id j (g r) ≡ has_id j r = ap (λ (k : Bytes). list_eq k j) (keep r) in
    elim (Bool-cases (has_id j r)) [
      | inl y ↦ rw (same, y) refl
      | inr m ↦ rw (same, m) (find_row-map g j rows keep)
    ]

-- The attempts that the row of an incident counts.
abbrev pub count_of : Option IncidentRow → Option ℤ
count_of none = none
count_of (some r) = some r.incident.attempt_count

abbrev pub count_at : Bytes → List IncidentRow → Option ℤ
count_at j rows = count_of (find_row j rows)

abbrev KeepsCount : (IncidentRow → IncidentRow) → Type 0
KeepsCount g =
    (r : IncidentRow)
    → ((g r).incident.id ≡ r.incident.id)
      × ((g r).incident.attempt_count ≡ r.incident.attempt_count)

count_of-map :
    (f : IncidentRow → IncidentRow) (id : Bytes) (o : Option IncidentRow)
    → KeepsCount f
    → count_of (map_row (at_id id f) o) ≡ count_of o
count_of-map f id none keep = refl
count_of-map f id (some r) keep = elim (Bool-cases (has_id id r)) [
  | inl y ↦ rw y (ap some (keep r).1)
  | inr m ↦ rw m refl
]

pub at_id-id :
    (f : IncidentRow → IncidentRow) (id : Bytes) (r : IncidentRow)
    → (f r).incident.id ≡ r.incident.id
    → (at_id id f r).incident.id ≡ r.incident.id
at_id-id f id r keep = elim (Bool-cases (has_id id r)) [ inl y ↦ rw y keep | inr m ↦ rw m refl ]

pub count_at-update :
    (f : IncidentRow → IncidentRow) (id j : Bytes) (rows : List IncidentRow)
    → KeepsCount f
    → count_at j (update_row id f rows) ≡ count_at j rows
count_at-update f id j rows keep =
    ap count_of (find_row-map (at_id id f) j rows (λ r. at_id-id f id r (keep r).0))
    ∙ count_of-map f id (find_row j rows) keep

-- A statement that succeeds leaves the counts of attempts as they are.
abbrev pub KeepsCounts : Result StoreError (List IncidentRow) → List IncidentRow → Type 0
KeepsCounts (err x) rows = Unit
KeepsCounts (ok after) rows = (j : Bytes) → count_at j after ≡ count_at j rows

require-KeepsCounts :
    (b : Bool) (k : Result StoreError (List IncidentRow)) (rows : List IncidentRow)
    → KeepsCounts k rows
    → KeepsCounts (require b >> k) rows
unfolding require
require-KeepsCounts true k rows h = h
require-KeepsCounts false k rows h = tt

if-KeepsCounts :
    (b : Bool) (x : StoreError) (after rows : List IncidentRow)
    → ((j : Bytes) → count_at j after ≡ count_at j rows)
    → KeepsCounts (if b then ok after else err x) rows
if-KeepsCounts true x after rows h = h
if-KeepsCounts false x after rows h = tt

pub update_incident_state-KeepsCounts :
    (now : Time) (id : Bytes) (s : IncidentState) (rows : List IncidentRow)
    → KeepsCounts (update_incident_state now id s rows) rows
unfolding update_incident_state with_state
update_incident_state-KeepsCounts now id s rows =
    let kept = λ (j : Bytes). count_at-update (with_state now s) id j rows (λ r. (refl, refl)) in
    search (require-KeepsCounts, if-KeepsCounts, kept)

pub schedule_incident-KeepsCounts :
    (now : Time) (id : Bytes) (at : Time) (rows : List IncidentRow)
    → KeepsCounts (schedule_incident now id at rows) rows
unfolding schedule_incident with_schedule
schedule_incident-KeepsCounts now id at rows =
    let kept =
      λ (j : Bytes). count_at-update (with_schedule now at) id j rows (λ r. (refl, refl)) in
    search (require-KeepsCounts, if-KeepsCounts, kept)

-- What a successful claim says of the row, and what it does to the counts.
pub record Claimed (now : Time) (id : Bytes) (rows after : List IncidentRow) (n : ℤ) : Type 0 where
  pub row : IncidentRow
  pub found : find_row id rows ≡ some row
  pub waiting : is_waiting row.incident.state ≡ true
  pub number : n ≡ row.incident.attempt_count +ℤ pos 1
  pub updated : after ≡ update_row id (claim now) rows

claim_of :
    (now : Time) (id : Bytes) (rows after : List IncidentRow) (n : ℤ) (b : Bool)
    (o : Option IncidentRow)
    → find_row id rows ≡ o
    → (let rest : Result StoreError (ℤ × List IncidentRow) =
          claim_number o >>= λ k. ok (k, update_row id (claim now) rows) in
        require b >> rest)
      ≡ ok (n, after)
    → Claimed now id rows after n
unfolding require claim_number
claim_of now id rows after n false o f h = absurd cc
claim_of now id rows after n true none f h = absurd cc
claim_of now id rows after n true (some r) f h = record {
  row = r;
  found = f;
  waiting = ground (arith, h);
  number = ground (arith, h);
  updated = ground (arith, h);
}

pub increment-Claimed :
    (now : Time) (id : Bytes) (rows after : List IncidentRow) (n : ℤ)
    → increment_incident_attempts now id rows ≡ ok (n, after)
    → Claimed now id rows after n
unfolding increment_incident_attempts
increment-Claimed now id rows after n h =
    claim_of now id rows after n (check_text id 1 max_identifier_len) (find_row id rows) refl h

pub find_row-id :
    (id : Bytes) (rows : List IncidentRow) (r : IncidentRow)
    → find_row id rows ≡ some r
    → r.incident.id ≡ id
unfolding find_row
find_row-id id [] r h = absurd cc
find_row-id id (x ∷ rows) r h = ground (arith, find_row-id id rows r, list_eq-eq x.incident.id id)

pub claim-id : (now : Time) (r : IncidentRow) → (claim now r).incident.id ≡ r.incident.id
unfolding claim
claim-id now r = elim (Bool-cases (is_waiting r.incident.state)) [
  | inl y ↦ rw y refl
  | inr m ↦ rw m refl
]

claim-count :
    (now : Time) (id : Bytes) (r : IncidentRow)
    → r.incident.id ≡ id
    → is_waiting r.incident.state ≡ true
    → (at_id id (claim now) r).incident.attempt_count ≡ r.incident.attempt_count +ℤ pos 1
unfolding claim
claim-count now id r e w =
    let mine : has_id id r ≡ true = ap (λ (k : Bytes). list_eq k id) e ∙ list_eq_refl id in
    rw (mine, w) refl

claim_other :
    (now : Time) (id j : Bytes) (rows : List IncidentRow) (o : Option IncidentRow)
    → list_eq id j ≡ false
    → find_row j rows ≡ o
    → count_of (map_row (at_id id (claim now)) o) ≡ count_of o
claim_other now id j rows none d f = refl
claim_other now id j rows (some r) d f =
    let other : has_id id r ≡ false =
      ground (arith, find_row-id j rows r f, list_eq-eq r.incident.id id, list_eq_refl id, f, d) in
    rw other refl

-- The count of the claimed incident is its attempt number, and other counts stay.
pub count_at-claim :
    (now : Time) (id j : Bytes) (rows after : List IncidentRow) (n : ℤ)
    → Claimed now id rows after n
    → count_at j after ≡ (if list_eq id j then some n else count_at j rows)
count_at-claim now id j rows after n c =
    let moved =
      ap (count_at j) c.updated
      ∙ ap count_of (
          find_row-map (at_id id (claim now)) j rows
            (λ r. at_id-id (claim now) id r (claim-id now r))) in
    elim (Bool-cases (list_eq id j)) [
      | inl y ↦
          let same = list_eq-eq id j y in
          let here = subst (λ (k : Bytes). find_row k rows ≡ some c.row) same c.found in
          let counted =
            claim-count now id c.row (find_row-id id rows c.row c.found) c.waiting ∙ sym c.number in
          rw y
            (moved ∙ ap (λ o. count_of (map_row (at_id id (claim now)) o)) here ∙ ap some counted)
      | inr m ↦ rw m (moved ∙ claim_other now id j rows (find_row j rows) m refl)
    ]
