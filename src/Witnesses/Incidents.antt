-- ===== src/Witnesses/Incidents.antt =====
-- One failed UPI payment and its incident, a message about it, and the surroundings of a worker: all is
-- calm, or the gateway does not answer.

use resilient_mesh_razorpayb.Base.{Bool, true, false, none, some, [], ◌∷◌, pos, float_zero}
use resilient_mesh_razorpayb.Text.{codes}
use resilient_mesh_razorpayb.Domain.Vocabulary.{async_retry, upi_intent, unchanged}
use resilient_mesh_razorpayb.Outbox.Relay.{done}
use resilient_mesh_razorpayb.Store.Incidents.{Incident, received}
use resilient_mesh_razorpayb.Store.Attempts.{AttemptRecord}
use resilient_mesh_razorpayb.Store.Sessions.{SessionRecord}
use resilient_mesh_razorpayb.Worker.Config.{Config, with_defaults}
use resilient_mesh_razorpayb.Worker.State.{World, Pool, Surroundings, QueueMessage}
use resilient_mesh_razorpayb.Witnesses.Payments.{gate, upi_payment, telemetry, proposal, noon}

abbrev pub settings : Config
settings = record {
  concurrency = pos 0;
  group = [];
  batch_size = pos 0;
  read_block = pos 0;
  reclaim_interval = pos 0;
  reclaim_min_idle = pos 0;
  max_deliveries = pos 0;
  session_ttl = pos 0;
  demo_time_scale = float_zero;
  sweep_interval = pos 0;
  sweep_batch = pos 0;
  retry_budget_per_minute = pos 0;
}

abbrev pub pool : Pool
pool = record { cfg = with_defaults settings; gate = gate }

abbrev pub incident : Incident
incident = record {
  id = codes "inc_1";
  payment_id = codes "pay_1";
  order_id = codes "order_1";
  subscription_id = [];
  event_id = codes "evt_1";
  amount_paisa = pos 49_900;
  currency = codes "INR";
  method = codes "upi";
  issuer_key = codes "HDFC";
  error_code = codes "gateway_timeout";
  state = received;
  attempt_count = pos 0;
  is_recurring = false;
  raw_payload = codes "{}";
  received_at = noon;
  updated_at = noon;
}

abbrev pub session : SessionRecord
session = record {
  id = codes "s_1";
  order_id = codes "order_1";
  current_rail = upi_intent;
  amount_paisa = pos 49_900;
  currency = codes "INR";
  active = true;
  morph_count = pos 0;
  created_at = noon;
  expires_at = pos 1_800_000_000_000_000_000;
}

abbrev pub outcome : Bool → AttemptRecord
outcome well = record {
  incident_id = [];
  attempt_number = pos 1;
  action = async_retry;
  rail = upi_intent;
  presentation = unchanged;
  amount_paisa = pos 49_900;
  succeeded = well;
  gateway_fee_paisa = pos 0;
  friction_paisa = pos 0;
  error_code = [];
  started_at = noon;
  completed_at = noon;
}

-- Everything answers, and the payment succeeds.
abbrev pub calm : Surroundings
calm = record {
  reply = λ c. done;
  now = λ r. noon;
  db_now = noon;
  cancelled = false;
  decode = λ b. some (codes "inc_1", true);
  read_payment = λ b. some upi_payment;
  issuer_snapshot = λ k. telemetry;
  session_of = λ o. some session;
  hub_active = λ s. true;
  breaker_allows = λ k. some true;
  diagnosed = λ i p live n. some (proposal (codes "ASYNC_EXPONENTIAL_RETRY") []);
  tuner = none;
  past_choice = λ id. false;
  available_rails = codes "card" ∷ codes "upi" ∷ [];
  notify = λ c. true;
  present = λ c. (outcome true, false);
  divide = λ s d. d;
}

-- The gateway does not answer.
abbrev pub outage : Surroundings
outage = record calm { present = λ c. (outcome false, true) }

abbrev pub message : QueueMessage
message = record {
  id = codes "1-0";
  incident_id = codes "inc_1";
  payload = codes "{}";
  deliveries = pos 1;
}

abbrev pub empty : World
empty = record {
  incidents = [];
  mandates = [];
  attempts = [];
  budget = record { window = pos 0; spent = pos 0 };
  log = [];
}

abbrev pub waiting : World
waiting = record empty { incidents = (record { incident = incident; scheduled_for = none }) ∷ [] }
