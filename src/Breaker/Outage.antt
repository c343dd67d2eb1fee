-- ===== src/Breaker/Outage.antt =====
-- internal/breaker/breaker.go: an outage, from the first failure to the shedding of load.
use resilient_mesh_razorpayb.Base.{
  ℕ, zero, suc, ◌+◌, ◌*◌, ◌≡◌, ◌≤◌, ◌<◌, refl, Bool, true, false, some, List, [], ◌∷◌, arith, All,
  length, take, ℤ, pos, leb, if◌then◌else◌, ◌-ℤ◌, ◌<ℤ◌, ap, ◌∙◌,
}
use resilient_mesh_razorpayb.Domain.Vocabulary.{closed, opened}
use resilient_mesh_razorpayb.Breaker.Scripts.{
  Issuer, Tuning, allow, report, open_now, read_state, read_state-name, or_else, breached,
  successes,
}
use resilient_mesh_razorpayb.Breaker.Probes.{admitted}
use native.Mathlib.Nat.{mul-suc}
use resilient_mesh_razorpayb.Base.{Option, Bool-cases, inl, inr}
use resilient_mesh_razorpayb.Domain.Vocabulary.{BreakerState}

-- The state after a sequence of reports of failures, at these times.
unfoldable pub failing : Tuning → List ℤ → Issuer → Issuer
failing c [] i = i
failing c (now ∷ ts) i = failing c ts (report c now false i)

failures : ℕ → List Bool
failures zero = []
failures (suc n) = false ∷ failures n

length-failures : (n : ℕ) → length (failures n) ≡ n
unfolding failures
length-failures zero = refl
length-failures (suc n) = ap suc (length-failures n)

successes-failures : (n : ℕ) → successes (failures n) ≡ 0
unfolding failures
successes-failures zero = refl
successes-failures (suc n) = successes-failures n

take-failures : (m n : ℕ) → n ≤ m → take m (failures n) ≡ failures n
unfolding failures
take-failures zero zero h = refl
take-failures zero (suc n) h = absurd (omega arith)
take-failures (suc m) zero h = refl
take-failures (suc m) (suc n) h =
    ap (λ (w : List Bool). false ∷ w) (take-failures m n (omega arith))

times_positive : (n t : ℕ) → 1 ≤ n → 1 ≤ t → 0 < n * t
times_positive (suc n) (suc t) p q = omega (arith, mul-suc (suc n) t)
times_positive zero t p q = absurd (omega arith)
times_positive (suc n) zero p q = absurd (omega arith)

breached-failures :
    (c : Tuning) (n : ℕ)
    → 1 ≤ n
    → c.min_samples ≤ n
    → 1 ≤ c.trip_scaled
    → breached c (failures n) ≡ true
breached-failures c n p m t =
    ground (arith, length-failures n, successes-failures n, times_positive n c.trip_scaled p t)

report-counts :
    (c : Tuning) (now : ℤ) (k : ℕ) (i : Issuer)
    → read_state i.state ≡ some closed
    → i.window ≡ failures k
    → suc k ≤ c.window_size
    → suc k < c.min_samples
    → report c now false i ≡ record i { window = failures (suc k) }
unfolding report failures
report-counts c now k i s w f m =
    let full =
      ap (λ (v : List Bool). take c.window_size (false ∷ v)) w
      ∙ take-failures c.window_size (suc k) f in
    let low : breached c (failures (suc k)) ≡ false = ground (arith, length-failures k) in
    let calm = ap (breached c) full ∙ low in ground (arith, s, calm, full)

report-opens :
    (c : Tuning) (now : ℤ) (k : ℕ) (i : Issuer)
    → read_state i.state ≡ some closed
    → i.window ≡ failures k
    → suc k ≤ c.window_size
    → c.min_samples ≤ suc k
    → 1 ≤ c.trip_scaled
    → report c now false i ≡ open_now now i
unfolding report failures
report-opens c now k i s w f m t =
    let full =
      ap (λ (v : List Bool). take c.window_size (false ∷ v)) w
      ∙ take-failures c.window_size (suc k) f in
    let trips = ap (breached c) full ∙ breached-failures c (suc k) (omega arith) m t in
    ground (arith, s, trips)

abbrev state_of : Issuer → Option BreakerState
state_of i = read_state i.state

opened_state : (now : ℤ) (i : Issuer) → read_state (open_now now i).state ≡ some opened
unfolding open_now
opened_state now i = read_state-name opened

sheds :
    (c : Tuning) (now : ℤ) (i : Issuer)
    → read_state i.state ≡ some opened
    → now -ℤ or_else (pos 0) i.opened_at <ℤ c.cooldown_ms
    → ((allow c now i).allowed ≡ false) × ((allow c now i).after ≡ i)
unfolding allow
sheds c now i s h = ground arith

-- Of any calls of Allow on an open breaker at times within its cooldown, none is admitted.
pub admitted_open :
    (c : Tuning) (i : Issuer) (ts : List ℤ)
    → read_state i.state ≡ some opened
    → All (λ (now : ℤ). now -ℤ or_else (pos 0) i.opened_at <ℤ c.cooldown_ms) ts
    → admitted c ts i ≡ 0
unfolding admitted allow
admitted_open c i [] s h = refl
admitted_open c i (now ∷ ts) s h =
    let (a, same) = sheds c now i s h.0 in rw (a, same) (admitted_open c i ts s h.1)

failing-opens :
    (c : Tuning) (k : ℕ) (i : Issuer) (now : ℤ) (ts : List ℤ)
    → read_state i.state ≡ some closed
    → i.window ≡ failures k
    → k + length (now ∷ ts) ≤ c.min_samples
    → c.min_samples ≤ c.window_size
    → 1 ≤ c.trip_scaled
    → read_state (failing c (now ∷ ts) i).state
      ≡ (if leb c.min_samples (k + length (now ∷ ts)) then some opened else some closed)
unfolding failing
failing-opens c k i now [] s w n m t = elim (Bool-cases (leb c.min_samples (k + 1))) [
  | inl h ↦
      (let e = report-opens c now k i s w (omega arith) (ground arith) t in
        ap state_of e ∙ opened_state now i ∙ ground arith)
  | inr h ↦
      (let e = report-counts c now k i s w (omega arith) (ground arith) in
        ap state_of e ∙ s ∙ ground arith)
]
failing-opens c k i now (next ∷ ts) s w n m t =
    let e = report-counts c now k i s w (omega arith) (omega arith) in
    ap (λ (j : Issuer). state_of (failing c (next ∷ ts) j)) e
    ∙ failing-opens c (suc k) (record i { window = failures (suc k) }) next ts s refl (omega arith)
        m t
    ∙ ap (λ (l : ℕ). if leb c.min_samples l then some opened else some closed) (omega arith)

-- From a closed breaker with an empty window, where the minimum of outcomes fits the window and the
-- scaled trip rate is not 0, reports of failures alone open it at the report that reaches the
-- minimum, and leave it closed until then.
pub outage_trips :
    (c : Tuning) (i : Issuer) (now : ℤ) (ts : List ℤ)
    → read_state i.state ≡ some closed
    → i.window ≡ []
    → length (now ∷ ts) ≤ c.min_samples
    → c.min_samples ≤ c.window_size
    → 1 ≤ c.trip_scaled
    → (read_state (failing c (now ∷ ts) i).state
        ≡ (if leb c.min_samples (length (now ∷ ts)) then some opened else some closed))
outage_trips c i now ts s w n m t =
    failing-opens c 0 i now ts s (w ∙ unfold failures in refl) (omega arith) m t
    ∙ ap (λ (l : ℕ). if leb c.min_samples l then some opened else some closed) (omega arith)
