-- ===== src/Witnesses/Breaker.antt =====
-- internal/breaker at concrete inputs: two probes, a minimum of three outcomes, a minute of cooldown.
use resilient_mesh_razorpayb.Base.{◌≡◌, ◌≢◌, refl, true, false, some, none, [], ◌∷◌, arith, pos}
use resilient_mesh_razorpayb.Domain.Vocabulary.{closed, opened, half_open}
use resilient_mesh_razorpayb.Breaker.Scripts.{
  Issuer, Tuning, report, read_state, read_state-name, state_name,
}
use resilient_mesh_razorpayb.Breaker.Runs.{
  reports, after, unseen, start, step, IsOrderly, Reachable-IsOrderly, Recovers, closes-Recovers,
  Trips, opens-Trips,
}
use resilient_mesh_razorpayb.Breaker.Probes.{admitted, admitted-budget}
use resilient_mesh_razorpayb.Breaker.Outage.{failing, outage_trips}
use resilient_mesh_razorpayb.Base.{◌-ℤ◌}
use resilient_mesh_razorpayb.Breaker.Scripts.{open_now}

abbrev tuning : Tuning
tuning = record {
  cooldown_ms = pos 60_000;
  probe_lease_ms = pos 60_000;
  max_probes = 2;
  min_samples = 3;
  trip_scaled = 200_000;
  window_size = 5;
}

abbrev tripped : Issuer
tripped = record {
  state = some (state_name opened);
  opened_at = some (pos 1_000);
  probes = some 0;
  half_open_at = some (pos 0);
  window = [];
}

abbrev probing : Issuer
probing = record {
  state = some (state_name half_open);
  opened_at = some (pos 1_000);
  probes = some 1;
  half_open_at = some (pos 61_000);
  window = [];
}

abbrev shaky : Issuer
shaky = record {
  state = some (state_name closed);
  opened_at = none;
  probes = none;
  half_open_at = none;
  window = false ∷ false ∷ [];
}

unseen-closed : read_state unseen.state ≡ some closed
unfolding read_state
unseen-closed = refl

admitted-budget_example : admitted tuning (pos 61_000 ∷ pos 61_000 ∷ pos 61_001 ∷ []) tripped ≡ 2
unfolding ◌-ℤ◌
admitted-budget_example =
    admitted-budget tuning (pos 61_000) tripped (pos 61_000 ∷ pos 61_001 ∷ [])
      (read_state-name opened) (omega arith) (omega arith, (omega arith, tt)) (omega arith)

outage_trips_example :
    read_state (failing tuning (pos 1 ∷ pos 2 ∷ pos 3 ∷ []) unseen).state ≡ some opened
outage_trips_example =
    outage_trips tuning unseen (pos 1) (pos 2 ∷ pos 3 ∷ []) unseen-closed refl (omega arith)
      (omega arith) (omega arith)

Reachable-IsOrderly_example : IsOrderly tuning (after tuning (reports (pos 1) false) unseen)
Reachable-IsOrderly_example =
    Reachable-IsOrderly tuning (after tuning (reports (pos 1) false) unseen) (omega arith)
      (step (reports (pos 1) false) start)

probe_closes : read_state (after tuning (reports (pos 61_500) true) probing).state ≡ some closed
unfolding after report read_state state_name
probe_closes = refl

probing-half_open : read_state probing.state ≢ some closed
probing-half_open h = cc (read_state-name half_open)

closes-Recovers_example : Recovers probing (reports (pos 61_500) true)
closes-Recovers_example =
    closes-Recovers tuning (reports (pos 61_500) true) probing probing-half_open probe_closes

shaky_trips : read_state (after tuning (reports (pos 9) false) shaky).state ≡ some opened
unfolding after report read_state state_name open_now
shaky_trips = refl

shaky_known : read_state shaky.state ≢ none
shaky_known h = cc (read_state-name closed)

shaky_closed : read_state shaky.state ≢ some opened
shaky_closed h = cc (read_state-name closed)

opens-Trips_example : Trips tuning shaky (reports (pos 9) false)
opens-Trips_example =
    opens-Trips tuning (reports (pos 9) false) shaky shaky_known shaky_closed shaky_trips
