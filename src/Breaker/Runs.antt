-- ===== src/Breaker/Runs.antt =====
-- internal/breaker/breaker.go: an issuer's state along any run of calls and key expiries.
use resilient_mesh_razorpayb.Base.{
  ◌*◌, ℕ, zero, suc, ◌≡◌, ◌≢◌, ◌≤◌, ◌<◌, ◌⊎◌, inl, inr, refl, Bool, true, false, Option, none, some,
  List, [], ◌∷◌, arith, length, take, ℤ,
}
use resilient_mesh_razorpayb.Domain.Vocabulary.{BreakerState, closed, opened, half_open}
use resilient_mesh_razorpayb.Breaker.Scripts.{
  successes, trip_scale, Issuer, Tuning, allow, report, read_state, read_state-name, or_else,
  open_now, breached,
}

-- What can happen to the keys of an issuer: a call of Allow, a call of Report, or the expiry of the
-- state hash or of the window.
pub data Event : Type 0 where
  allows : ℤ → Event
  reports : ℤ → Bool → Event
  state_expires window_expires : Event

unfoldable pub after : Tuning → Event → Issuer → Issuer
after c (allows now) i = (allow c now i).after
after c (reports now outcome) i = report c now outcome i
after c state_expires i = record i {
  state = none;
  opened_at = none;
  probes = none;
  half_open_at = none;
}
after c window_expires i = record i { window = [] }

-- The keys of an issuer that was never seen.
abbrev pub unseen : Issuer
unseen = record { state = none; opened_at = none; probes = none; half_open_at = none; window = [] }

-- The states that a run of events leads to.
pub data Reachable (c : Tuning) : Issuer → Type 0 where
  start : Reachable c unseen
  step : {i : Issuer} (e : Event) → Reachable c i → Reachable c (after c e i)

-- The state hash holds one of the three states, at most the budget of probes is spent, the window
-- keeps its size, and only a closed breaker has outcomes in it.
pub record IsOrderly (c : Tuning) (i : Issuer) : Type 0 where
  pub known : read_state i.state ≢ none
  pub within_budget : or_else 0 i.probes ≤ c.max_probes
  pub window_fits : length i.window ≤ c.window_size
  pub evidence_fresh : (read_state i.state ≡ some closed) ⊎ (i.window ≡ [])

length-take : (n : ℕ) (xs : List Bool) → length (take n xs) ≤ n
length-take zero xs = omega arith
length-take (suc n) [] = omega arith
length-take (suc n) (x ∷ xs) = omega (arith, length-take n xs)

unseen-IsOrderly : (c : Tuning) → IsOrderly c unseen
unfolding read_state
unseen-IsOrderly c = record {
  known = λ e. cc;
  within_budget = omega arith;
  window_fits = omega arith;
  evidence_fresh = inl refl;
}

allow-IsOrderly :
    (c : Tuning) (now : ℤ) (i : Issuer)
    → 1 ≤ c.max_probes
    → IsOrderly c i
    → IsOrderly c (allow c now i).after
unfolding allow
allow-IsOrderly c now i b h = record {
  known = ground (arith, read_state-name opened, read_state-name half_open);
  within_budget = ground (arith, read_state-name opened, read_state-name half_open);
  window_fits = ground (arith, read_state-name opened, read_state-name half_open);
  evidence_fresh = ground (arith, read_state-name opened, read_state-name half_open);
}

report-IsOrderly :
    (c : Tuning) (now : ℤ) (o : Bool) (i : Issuer) → IsOrderly c i → IsOrderly c (report c now o i)
unfolding report open_now
report-IsOrderly c now o i h = record {
  known = ground (arith, read_state-name opened, read_state-name closed);
  within_budget = ground (arith, read_state-name opened, read_state-name closed);
  window_fits = ground (arith, length-take c.window_size (o ∷ i.window));
  evidence_fresh = ground (arith, read_state-name opened, read_state-name closed);
}

after-IsOrderly :
    (c : Tuning) (e : Event) (i : Issuer)
    → 1 ≤ c.max_probes
    → IsOrderly c i
    → IsOrderly c (after c e i)
unfolding after read_state
after-IsOrderly c (allows now) i b h = allow-IsOrderly c now i b h
after-IsOrderly c (reports now o) i b h = report-IsOrderly c now o i h
after-IsOrderly c state_expires i b h = record {
  known = λ e. cc;
  within_budget = omega arith;
  window_fits = h.window_fits;
  evidence_fresh = inl refl;
}
after-IsOrderly c window_expires i b h = record {
  known = h.known;
  within_budget = h.within_budget;
  window_fits = omega arith;
  evidence_fresh = inr refl;
}

-- In every run of calls and expiries, for a budget of at least one probe, the breaker is orderly: its
-- state is one of the three, no more probes are spent than the budget has, the window keeps its
-- size, and outcomes stand in it only while the breaker is closed.
pub Reachable-IsOrderly :
    (c : Tuning) (i : Issuer) → 1 ≤ c.max_probes → Reachable c i → IsOrderly c i
Reachable-IsOrderly c i b start = unseen-IsOrderly c
Reachable-IsOrderly c i b (step e r) = after-IsOrderly c e _ b (Reachable-IsOrderly c _ b r)

-- The events that may close a breaker that is not closed.
pub data Recovers (i : Issuer) : Event → Type 0 where
  by_probe : (now : ℤ) → read_state i.state ≡ some half_open → Recovers i (reports now true)
  forgotten : Recovers i state_expires

-- An event that closes a breaker which is not closed is the report of a success in a half-open
-- episode, or the expiry of the state.
pub closes-Recovers :
    (c : Tuning) (e : Event) (i : Issuer)
    → read_state i.state ≢ some closed
    → read_state (after c e i).state ≡ some closed
    → Recovers i e
unfolding after allow report open_now
closes-Recovers c (allows now) i n h =
    absurd (ground (arith, read_state-name opened, read_state-name half_open))
closes-Recovers c (reports now true) i n h = by_probe now (ground (arith, read_state-name opened))
closes-Recovers c (reports now false) i n h = absurd (ground (arith, read_state-name opened))
closes-Recovers c state_expires i n h = forgotten
closes-Recovers c window_expires i n h = absurd (n h)

-- The reports that may open a breaker that is not open.
pub data Trips (c : Tuning) (i : Issuer) : Event → Type 0 where
  failed_probe : (now : ℤ) → read_state i.state ≡ some half_open → Trips c i (reports now false)
  rate_breached :
      (now : ℤ) (outcome : Bool)
      → read_state i.state ≡ some closed
      → c.min_samples ≤ length (take c.window_size (outcome ∷ i.window))
      → successes (take c.window_size (outcome ∷ i.window)) * trip_scale
        < length (take c.window_size (outcome ∷ i.window)) * c.trip_scaled
      → Trips c i (reports now outcome)

unset-closed : read_state none ≡ some closed
unfolding read_state
unset-closed = refl

known-cases :
    (o : Option BreakerState)
    → o ≢ none
    → o ≢ some opened
    → (o ≡ some closed) ⊎ (o ≡ some half_open)
known-cases none k n = absurd (k refl)
known-cases (some closed) k n = inl refl
known-cases (some opened) k n = absurd (n refl)
known-cases (some half_open) k n = inr refl

success_keeps :
    (c : Tuning) (now : ℤ) (i : Issuer)
    → read_state i.state ≡ some half_open
    → read_state (report c now true i).state ≡ some closed
unfolding report
success_keeps c now i h = ground (arith, read_state-name closed)

report-breached :
    (c : Tuning) (now : ℤ) (o : Bool) (i : Issuer)
    → read_state i.state ≡ some closed
    → read_state (report c now o i).state ≡ some opened
    → breached c (take c.window_size (o ∷ i.window)) ≡ true
unfolding report
report-breached c now o i s h = ground arith

breached-parts :
    (c : Tuning) (w : List Bool)
    → breached c w ≡ true
    → (c.min_samples ≤ length w) × (successes w * trip_scale < length w * c.trip_scaled)
breached-parts c w h = ground arith

-- An event that opens a breaker whose state is known and not open is the report of a failed probe
-- in a half-open episode, or a report to a closed breaker whose window then has the minimum of
-- outcomes and a success rate below the trip rate.
pub opens-Trips :
    (c : Tuning) (e : Event) (i : Issuer)
    → read_state i.state ≢ none
    → read_state i.state ≢ some opened
    → read_state (after c e i).state ≡ some opened
    → Trips c i e
unfolding after allow report open_now
opens-Trips c (allows now) i k n h = absurd (ground (arith, read_state-name half_open))
opens-Trips c (reports now o) i k n h = elim (known-cases (read_state i.state) k n) [
  | inl s ↦
      (let (floor, rate) = breached-parts c _ (report-breached c now o i s h) in
        rate_breached now o s floor rate)
  | inr s ↦ failed o s h
]
  where
    failed :
        (o : Bool)
        → read_state i.state ≡ some half_open
        → read_state (report c now o i).state ≡ some opened
        → Trips c i (reports now o)
    failed true s h = absurd (cc (success_keeps c now i s))
    failed false s h = failed_probe now s
opens-Trips c state_expires i k n h = absurd (cc unset-closed)
opens-Trips c window_expires i k n h = absurd (n h)
