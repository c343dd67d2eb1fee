-- ===== src/Breaker/Scripts.antt =====
-- internal/breaker/breaker.go: allowScript and reportScript, and State's reading of the same hash.
-- The index of issuers for the console and the times to live are left out.
use resilient_mesh_razorpayb.Base.{
  ◌||◌, ℕ, suc, ◌+◌, ◌*◌, ◌≡◌, refl, Bool, true, false, ◌&&◌, Option, none, some, List, [], ◌∷◌,
  ltb, leb, if◌then◌else◌, length, take, list_eq, ℤ, pos, ◌-ℤ◌, leb_ℤ,
}
use resilient_mesh_razorpayb.Text.{Bytes, codes, is_empty}
use resilient_mesh_razorpayb.Domain.Vocabulary.{BreakerState, closed, opened, half_open}

-- The values behind an issuer's keys: the fields of the state hash, which hold a number or are not
-- set, and the window of outcomes with the newest first.
pub record Issuer : Type 0 where
  pub state : Option Bytes
  pub opened_at : Option ℤ
  pub probes : Option ℕ
  pub half_open_at : Option ℤ
  pub window : List Bool

-- The arguments that New formats for the scripts, in milliseconds and counts.
pub record Tuning : Type 0 where
  pub cooldown_ms : ℤ
  pub probe_lease_ms : ℤ
  pub max_probes : ℕ
  pub min_samples : ℕ
  pub trip_scaled : ℕ
  pub window_size : ℕ

abbrev pub trip_scale : ℕ
trip_scale = 1_000_000

pub data Reason : Type 0 where
  no_reason trip_rate_breached cooldown_elapsed probe_success probe_failure : Reason
  probe_lease_expired corrupt_state_repaired ignored_while_open : Reason

unfoldable pub state_name : BreakerState → Bytes
state_name closed = codes "CLOSED"
state_name opened = codes "OPEN"
state_name half_open = codes "HALF_OPEN"

read_name : Bytes → Option BreakerState
unfolding state_name
read_name s =
    if is_empty s || list_eq s (state_name closed)
    then some closed
    else if list_eq s (state_name opened)
    then some opened
    else if list_eq s (state_name half_open)
    then some half_open
    else none

-- What the scripts and State take the stored state for; nothing for a value that they do not know.
unfoldable pub read_state : Option Bytes → Option BreakerState
unfolding read_name
read_state none = some closed
read_state (some s) = read_name s

pub read_state-name : (s : BreakerState) → read_state (some (state_name s)) ≡ some s
unfolding read_state state_name
read_state-name closed = refl
read_state-name opened = refl
read_state-name half_open = refl

abbrev pub or_else : {A : Type 0} → A → Option A → A
or_else d none = d
or_else d (some a) = a

-- effective
unfoldable pub effective : Tuning → ℤ → Issuer → BreakerState
effective c now i = elim (read_state i.state) [
  | none ↦ opened
  | some closed ↦ closed
  | some half_open ↦ half_open
  | some opened ↦
      (if leb_ℤ c.cooldown_ms (now -ℤ or_else (pos 0) i.opened_at) then half_open else opened)
]

-- What a script answers: the verdict of Allow, and the transition.
pub record Answer : Type 0 where
  pub allowed : Bool
  pub from : BreakerState
  pub to : BreakerState
  pub reason : Reason
  pub after : Issuer

begin_episode : ℤ → Issuer → Issuer
begin_episode now i = record i {
  state = some (state_name half_open);
  probes = some 1;
  half_open_at = some now;
}

renew_lease : ℤ → Issuer → Issuer
renew_lease now i = record i { probes = some 0; half_open_at = some now }

allow_opened : Tuning → ℤ → Issuer → Answer
unfolding begin_episode
allow_opened c now i =
    if leb_ℤ c.cooldown_ms (now -ℤ or_else (pos 0) i.opened_at)
    then record {
      allowed = true;
      from = opened;
      to = half_open;
      reason = cooldown_elapsed;
      after = begin_episode now i;
    }
    else record { allowed = false; from = opened; to = opened; reason = no_reason; after = i }

-- The probe budget of a half-open episode, read and spent in one step.
spend_probe : Tuning → Reason → Issuer → Answer
spend_probe c why i =
    if ltb (or_else 0 i.probes) c.max_probes
    then record {
      allowed = true;
      from = half_open;
      to = half_open;
      reason = why;
      after = record i { probes = some (or_else 0 i.probes + 1) };
    }
    else record { allowed = false; from = half_open; to = half_open; reason = why; after = i }

allow_half_open : Tuning → ℤ → Issuer → Answer
unfolding renew_lease spend_probe
allow_half_open c now i =
    if leb_ℤ c.probe_lease_ms (now -ℤ or_else now i.half_open_at)
    then spend_probe c probe_lease_expired (renew_lease now i)
    else spend_probe c no_reason i

repair : ℤ → Issuer → Answer
repair now i = record {
  allowed = false;
  from = opened;
  to = opened;
  reason = corrupt_state_repaired;
  after = record i {
    state = some (state_name opened);
    opened_at = some now;
    probes = some 0;
    half_open_at = some now;
  };
}

-- allowScript at a time in milliseconds.
unfoldable pub allow : Tuning → ℤ → Issuer → Answer
unfolding allow_opened allow_half_open repair
allow c now i = elim (read_state i.state) [
  | none ↦ repair now i
  | some closed ↦ (record {
    allowed = true;
    from = closed;
    to = closed;
    reason = no_reason;
    after = i;
  })
  | some opened ↦ allow_opened c now i
  | some half_open ↦ allow_half_open c now i
]

abbrev pub successes : List Bool → ℕ
successes [] = 0
successes (true ∷ w) = suc (successes w)
successes (false ∷ w) = successes w

-- The script's local function openNow.
unfoldable pub open_now : ℤ → Issuer → Issuer
open_now now i = record {
  state = some (state_name opened);
  opened_at = some now;
  probes = some 0;
  half_open_at = some (pos 0);
  window = [];
}

closed_again : Issuer → Issuer
closed_again i = record {
  state = some (state_name closed);
  opened_at = some (pos 0);
  probes = some 0;
  half_open_at = some (pos 0);
  window = [];
}

-- Does a window trip the breaker?
abbrev pub breached : Tuning → List Bool → Bool
breached c w =
    leb c.min_samples (length w) && ltb (successes w * trip_scale) (length w * c.trip_scaled)

report_closed : Tuning → ℤ → Bool → Issuer → Issuer
report_closed c now outcome i =
    let w = take c.window_size (outcome ∷ i.window) in
    if breached c w then open_now now i else record i { window = w }

-- reportScript: the state after it.
unfoldable pub report : Tuning → ℤ → Bool → Issuer → Issuer
unfolding report_closed closed_again
report c now outcome i = elim (read_state i.state) [
  | none ↦ open_now now i
  | some half_open ↦ (if outcome then closed_again i else open_now now i)
  | some opened ↦ i
  | some closed ↦ report_closed c now outcome i
]
