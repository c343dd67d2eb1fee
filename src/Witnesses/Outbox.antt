-- ===== src/Witnesses/Outbox.antt =====
-- internal/outbox at concrete inputs: a table of two rows, with a queue that takes both, and with one that
-- is down.
use resilient_mesh_razorpayb.Base.{
  ℕ, ◌≡◌, refl, true, false, [], ◌∷◌, ◌++◌, ◌==◌, if◌then◌else◌, length, pos,
}
use resilient_mesh_razorpayb.Text.{codes}
use resilient_mesh_razorpayb.Outbox.Config.{
  Config, default_config, with_defaults, with_defaults-IsUsable,
}
use resilient_mesh_razorpayb.Outbox.Table.{OutboxEvent, pending, ids_from, member, insert_event}
use resilient_mesh_razorpayb.Outbox.Relay.{
  Surroundings, World, done, lost, once, once_answer, batch_of,
}
use resilient_mesh_razorpayb.Outbox.Delivery.{Each, Kept, once_keeps}
use resilient_mesh_razorpayb.Outbox.Budget.{once_spares, Spared}
use resilient_mesh_razorpayb.Outbox.Order.{IsHealthy, Closed, once_healthy}
use resilient_mesh_razorpayb.Outbox.Reachable.{
  Evolves, empty, inserted, iterated, IsSound, Evolves-IsSound,
}

abbrev event : ℕ → OutboxEvent
event id = record {
  id = id;
  incident_id = codes "inc_1";
  topic = codes "incidents";
  payload = codes "{}";
  state = pending;
  attempts = 0;
  claimed_until = pos 0;
}

abbrev two_rows : World
two_rows = record { rows = event 1 ∷ event 2 ∷ []; queue = []; dead_letters = [] }

abbrev calm : Surroundings
calm = record {
  now = pos 5;
  locked = λ k. false;
  claiming = done;
  cancelled = λ k. false;
  publishing = λ k. done;
  pinging = true;
  releasing = λ ids. done;
  recording = done;
  parking = done;
  auditing = done;
  marking = done;
}

-- The queue refuses the second event and does not answer the probe.
abbrev outage : Surroundings
outage = record calm { publishing = λ k. if k == 2 then lost else done; pinging = false }

abbrev relay : Config
relay = with_defaults default_config

calm-IsHealthy : IsHealthy calm
calm-IsHealthy = record { claims = refl; lives = λ k. refl; publishes = λ k. refl; marks = refl }

once_keeps_example :
    Each
      (Kept outage (once relay outage two_rows).queue)
      two_rows.rows
      (once relay outage two_rows).rows
once_keeps_example = once_keeps relay outage two_rows

once_spares_example : Each (Spared relay outage) two_rows.rows (once relay outage two_rows).rows
once_spares_example = once_spares relay outage two_rows refl

once_healthy_example :
    ((once relay calm two_rows).queue ≡ [] ++ ids_from (batch_of relay calm two_rows))
    × ((once_answer relay calm two_rows).count ≡ length (ids_from (batch_of relay calm two_rows)))
    × ((once_answer relay calm two_rows).erred ≡ false)
    × Each
        (Closed calm calm-IsHealthy (ids_from (batch_of relay calm two_rows)))
        two_rows.rows
        (once relay calm two_rows).rows
once_healthy_example = once_healthy calm calm-IsHealthy relay two_rows

-- An insert, and an iteration in an outage.
abbrev nothing : World
nothing = record { rows = []; queue = []; dead_letters = [] }

abbrev one_row : World
one_row = record nothing { rows = insert_event (event 2) [] }

one_row-Evolves : Evolves relay one_row
unfolding member
one_row-Evolves = inserted nothing (event 2) empty refl refl refl

Evolves-IsSound_example : IsSound relay (once relay outage one_row)
Evolves-IsSound_example =
    Evolves-IsSound relay (once relay outage one_row) (with_defaults-IsUsable default_config)
      (iterated one_row outage one_row-Evolves)
