-- ===== src/Policy/Ceiling.antt =====
-- internal/policy/policy.go: what BackoffCeiling and BackoffFor give.
use native.Mathlib.Nat.{mul_assoc, mul_comm, mul-suc}
use resilient_mesh_razorpayb.Base.{
  ℕ, zero, suc, ◌-◌, ◌*◌, ◌^◌, ◌≤◌, ◌≡◌, refl, sym, ap, ◌∙◌, subst, ◌⊎◌, inl, inr, Bool, true,
  false, arith, ltb, if◌then◌else◌, Bool-cases, ℤ, pos, ◌+ℤ◌, ◌-ℤ◌, ◌≤ℤ◌, ◌<ℤ◌, ltb_ℤ, leb_ℤ,
  int_laws,
}
use resilient_mesh_razorpayb.Domain.Vocabulary.{FailureClass}
use resilient_mesh_razorpayb.Domain.Times.{Duration, second}
use resilient_mesh_razorpayb.Domain.Records.{TelemetrySnapshot}
use resilient_mesh_razorpayb.Policy.Backoff.{
  backoff_ceiling, backoff_for, first_seconds, doubled, attempt_in_range, limit_seconds,
  min_backoff, max_backoff, outage_depth, base_backoff_seconds,
}

-- The smaller of two numbers.
unfoldable pub min_ℕ : ℕ → ℕ → ℕ
min_ℕ a b = if ltb a b then a else b

power_positive : (n : ℕ) → 1 ≤ 2 ^ n
power_positive zero = omega arith
power_positive (suc n) = omega (arith, power_positive n)

grows_by : (s k : ℕ) → 1 ≤ k → s ≤ s * k
grows_by s zero h = absurd (omega arith)
grows_by s (suc k) h = omega (arith, mul-suc s k)

one_more : (s : ℕ) → doubled 0 s ≡ s * 2 ^ 0
unfolding doubled
one_more s = omega arith

pow_step : (s n : ℕ) → s * 2 * 2 ^ n ≡ s * 2 ^ suc n
pow_step s n = mul_assoc s 2 (2 ^ n) ∙ ap (λ k. s * k) (omega arith)

doubled_on : (n s : ℕ) → ltb s limit_seconds ≡ true → doubled (suc n) s ≡ doubled n (s * 2)
unfolding doubled
doubled_on n s h = rw h refl

doubled_off : (n s : ℕ) → ltb s limit_seconds ≡ false → doubled (suc n) s ≡ s
unfolding doubled
doubled_off n s h = rw h refl

past_limit :
    (s t : ℕ) → ltb s limit_seconds ≡ false → s ≤ t → min_ℕ s limit_seconds ≡ min_ℕ t limit_seconds
unfolding min_ℕ
past_limit s t h le = ground arith

-- The loop stops at the limit, and up to it it doubles.
doubled_lem : (n s : ℕ) → min_ℕ (doubled n s) limit_seconds ≡ min_ℕ (s * 2 ^ n) limit_seconds
doubled_lem zero s = ap (λ k. min_ℕ k limit_seconds) (one_more s)
doubled_lem (suc n) s = elim (Bool-cases (ltb s limit_seconds)) [
  | inl y ↦
      ap (λ k. min_ℕ k limit_seconds) (doubled_on n s y)
      ∙ doubled_lem n (s * 2)
      ∙ ap (λ k. min_ℕ k limit_seconds) (pow_step s n)
  | inr m ↦
      ap (λ k. min_ℕ k limit_seconds) (doubled_off n s m)
      ∙ past_limit s (s * 2 ^ suc n) m (grows_by s (2 ^ suc n) (power_positive (suc n)))
]

first_seconds-range :
    (class : FailureClass) (t : TelemetrySnapshot)
    → (15 ≤ first_seconds class t) × (first_seconds class t ≤ 604_800)
unfolding first_seconds outage_depth base_backoff_seconds
first_seconds-range class t = ground arith

min-range :
    (s : ℕ) → 15 ≤ s → (15 ≤ min_ℕ s limit_seconds) × (min_ℕ s limit_seconds ≤ limit_seconds)
unfolding min_ℕ
min-range s h = ground arith

limited :
    (s m : ℕ)
    → min_ℕ s limit_seconds ≡ m
    → 15 ≤ m
    → (let capped = if ltb limit_seconds s then limit_seconds else s in
        if ltb_ℤ (pos (capped * second)) min_backoff then min_backoff else pos (capped * second))
      ≡ pos (m * second)
unfolding min_ℕ
limited s m e h = ground arith

steady : (s n : ℕ) → 15 ≤ s → 15 ≤ s * 2 ^ n
steady s n h = omega (arith, grows_by s (2 ^ n) (power_positive n))

-- What the ceiling is, for the exponent that the loop reaches.
ceiling_by :
    (attempt : ℤ) (class : FailureClass) (t : TelemetrySnapshot)
    → backoff_ceiling attempt class t
      ≡ pos (
          min_ℕ (first_seconds class t * 2 ^ (attempt_in_range attempt - 1)) limit_seconds * second)
unfolding backoff_ceiling
ceiling_by attempt class t =
    let first = first_seconds class t in
    let n = attempt_in_range attempt - 1 in
    limited (doubled n first) (min_ℕ (first * 2 ^ n) limit_seconds) (doubled_lem n first)
      (min-range (first * 2 ^ n) (steady first n (first_seconds-range class t).0)).0

-- It is at least 15 seconds and at most a week.
pub backoff_ceiling-range :
    (attempt : ℤ) (class : FailureClass) (t : TelemetrySnapshot)
    → (pos (15 * second) ≤ℤ backoff_ceiling attempt class t)
      × (backoff_ceiling attempt class t ≤ℤ max_backoff)
backoff_ceiling-range attempt class t =
    let first = first_seconds class t in
    let n = attempt_in_range attempt - 1 in
    let range = min-range (first * 2 ^ n) (steady first n (first_seconds-range class t).0) in
    (rw (ceiling_by attempt class t) (ground arith))

long_enough : (n : ℕ) → 20 ≤ n → limit_seconds ≤ 2 ^ n
long_enough zero h = absurd (omega arith)
long_enough (suc n) h = elim (Bool-cases (ltb 19 n)) [
  | inl y ↦ omega (arith, long_enough n (ground arith))
  | inr m ↦
      let last : n ≡ 19 = ground arith in
      subst (λ k. limit_seconds ≤ 2 ^ suc k) (sym last) (omega arith)
]

past : (s n : ℕ) → 20 ≤ n → 15 ≤ s → limit_seconds ≤ s * 2 ^ n
past s n h k = omega (arith, long_enough n h, grows_by (2 ^ n) s (omega arith), mul_comm s (2 ^ n))

at_limit : (s : ℕ) → limit_seconds ≤ s → min_ℕ s limit_seconds ≡ limit_seconds
unfolding min_ℕ
at_limit s h = ground arith

exponent-cases :
    (n : ℕ)
    → 1 ≤ n
    → (attempt_in_range (pos n) ≡ n) ⊎ (20 ≤ attempt_in_range (pos n) - 1) × (20 ≤ n - 1)
unfolding attempt_in_range
exponent-cases n h = ground arith

in_range :
    (n s : ℕ)
    → 1 ≤ n
    → 15 ≤ s
    → min_ℕ (s * 2 ^ (attempt_in_range (pos n) - 1)) limit_seconds
      ≡ min_ℕ (s * 2 ^ (n - 1)) limit_seconds
in_range n s lo h = elim (exponent-cases n lo) [
  | inl e ↦ ap (λ k. min_ℕ (s * 2 ^ (k - 1)) limit_seconds) e
  | inr (a, b) ↦
      at_limit (s * 2 ^ (attempt_in_range (pos n) - 1)) (past s (attempt_in_range (pos n) - 1) a h)
      ∙ sym (at_limit (s * 2 ^ (n - 1)) (past s (n - 1) b h))
]

-- For every attempt from the first, the ceiling is the first delay of the class, doubled for each
-- attempt before this one, and at most a week: the cut of the number of doublings cannot be seen.
pub backoff_ceiling_lem :
    (n : ℕ) (class : FailureClass) (t : TelemetrySnapshot)
    → 1 ≤ n
    → backoff_ceiling (pos n) class t
      ≡ pos (min_ℕ (first_seconds class t * 2 ^ (n - 1)) limit_seconds * second)
backoff_ceiling_lem n class t h =
    ceiling_by (pos n) class t
    ∙ ap (λ k. pos (k * second))
        (in_range n (first_seconds class t) h (first_seconds-range class t).0)

-- A draw of the random source is in its range.
abbrev pub Draws : (Duration → Duration) → Type 0
Draws int63n = (n : Duration) → pos 0 <ℤ n → (pos 0 ≤ℤ int63n n) × (int63n n <ℤ n)

draw-range :
    (cancelled : Bool) (ceiling r : Duration)
    → (pos 0 <ℤ (ceiling -ℤ min_backoff) +ℤ pos 1
        → (pos 0 ≤ℤ r) × (r <ℤ (ceiling -ℤ min_backoff) +ℤ pos 1))
    → pos (15 * second) ≤ℤ ceiling
    → ceiling ≤ℤ max_backoff
    → let d =
        if cancelled
        then ceiling
        else if leb_ℤ ceiling min_backoff
        then min_backoff
        else min_backoff +ℤ r in
      (min_backoff ≤ℤ d) × (d ≤ℤ ceiling) × (ceiling ≤ℤ max_backoff)
draw-range cancelled ceiling r h lo hi =
    let positive : pos 0 <ℤ (ceiling -ℤ min_backoff) +ℤ pos 1 = omega int_laws in
    let range = h positive in
    let above : min_backoff ≤ℤ min_backoff +ℤ r = omega (int_laws, range) in
    let below : min_backoff +ℤ r ≤ℤ ceiling = omega (int_laws, range) in ground arith

-- Of a random source whose draws are in their range, the delay is between MinBackoff and the
-- ceiling, so at least five seconds and at most a week, also when the context is cancelled.
pub backoff_for-range :
    (int63n : Duration → Duration) (cancelled : Bool) (attempt : ℤ) (class : FailureClass)
    (t : TelemetrySnapshot)
    → Draws int63n
    → (min_backoff ≤ℤ backoff_for int63n cancelled attempt class t)
      × (backoff_for int63n cancelled attempt class t ≤ℤ backoff_ceiling attempt class t)
      × (backoff_ceiling attempt class t ≤ℤ max_backoff)
unfolding backoff_for
backoff_for-range int63n cancelled attempt class t draws =
    let ceiling = backoff_ceiling attempt class t in
    draw-range cancelled ceiling (int63n ((ceiling -ℤ min_backoff) +ℤ pos 1))
      (λ h. draws ((ceiling -ℤ min_backoff) +ℤ pos 1) h) (backoff_ceiling-range attempt class t).0
      (backoff_ceiling-range attempt class t).1
