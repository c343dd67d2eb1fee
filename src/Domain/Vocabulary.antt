-- ===== src/Domain/Vocabulary.antt =====
-- internal/domain/decision.go and models.go: the closed sets. A Go constant of a set is a
-- constructor here, `…_name` gives its text, and a `Parse` function reads free text into the set.
use resilient_mesh_razorpayb.Base.{
  ◌≡◌, Bool, true, false, Option, none, some, List, [], ◌∷◌, arith, if◌then◌else◌, is_some, list_eq,
  list_eq-eq,
}
use resilient_mesh_razorpayb.Text.{Bytes, codes, trim_space, to_lower}
use resilient_mesh_razorpayb.Domain.Fold.{fold_lower, fold_upper}

-- The lookup in the map of a closed set (`allActions`, `allRails`, `allClasses`).
module _ {ℓ} {A : Type ℓ} (name : A → Bytes) where
  unfoldable pub find_named : List A → Bytes → Option A
  find_named [] s = none
  find_named (a ∷ as') s = if list_eq (name a) s then some a else find_named as' s

  pub find_named-name : (xs : List A) (s : Bytes) (a : A) → find_named xs s ≡ some a → name a ≡ s
  unfolding find_named
  find_named-name [] s a h = cc
  find_named-name (x ∷ xs) s a h = ground (arith, list_eq-eq (name x) s, find_named-name xs s a)

abbrev pub get_or {ℓ} : {A : Type ℓ} → A → Option A → A
get_or d none = d
get_or d (some a) = a

pub data Action : Type 0 where
  rail_morph async_retry mandate_cascade instrument_refresh abstain : Action

unfoldable pub action_name : Action → Bytes
action_name rail_morph = codes "IN_SESSION_RAIL_MORPH"
action_name async_retry = codes "ASYNC_EXPONENTIAL_RETRY"
action_name mandate_cascade = codes "MANDATE_COMPLIANT_CASCADE"
action_name instrument_refresh = codes "INSTRUMENT_REFRESH"
action_name abstain = codes "PERMANENT_ABSTAIN"

abbrev pub all_actions : List Action
all_actions = rail_morph ∷ async_retry ∷ mandate_cascade ∷ instrument_refresh ∷ abstain ∷ []

unfoldable pub action_of_name : Bytes → Option Action
unfolding find_named action_name
action_of_name s = find_named action_name all_actions s

-- Action.Valid
unfoldable pub valid_action : Bytes → Bool
unfolding action_of_name
valid_action s = is_some (action_of_name s)

unfoldable pub parse_action : Bytes → Action
parse_action s = get_or abstain (action_of_name (fold_upper (trim_space s)))

pub data FailureClass : Type 0 where
  transient_degradation issuer_outage network_timeout psp_degradation : FailureClass
  customer_action insufficient_funds instrument_stale permanent_instrument unknown : FailureClass

unfoldable pub class_name : FailureClass → Bytes
class_name transient_degradation = codes "TRANSIENT_ISSUER_DEGRADATION"
class_name issuer_outage = codes "ISSUER_OUTAGE"
class_name network_timeout = codes "NETWORK_TIMEOUT"
class_name psp_degradation = codes "PSP_DEGRADATION"
class_name customer_action = codes "CUSTOMER_ACTION_REQUIRED"
class_name insufficient_funds = codes "INSUFFICIENT_FUNDS"
class_name instrument_stale = codes "INSTRUMENT_STALE"
class_name permanent_instrument = codes "PERMANENT_INSTRUMENT_FAILURE"
class_name unknown = codes "UNKNOWN"

abbrev pub all_classes : List FailureClass
all_classes =
    transient_degradation ∷ issuer_outage ∷ network_timeout ∷ psp_degradation ∷ customer_action
    ∷ insufficient_funds ∷ permanent_instrument ∷ instrument_stale ∷ unknown ∷ []

unfoldable pub class_of_name : Bytes → Option FailureClass
unfolding find_named class_name
class_of_name s = find_named class_name all_classes s

-- FailureClass.Valid
unfoldable pub valid_class : Bytes → Bool
unfolding class_of_name
valid_class s = is_some (class_of_name s)

unfoldable pub parse_failure_class : Bytes → FailureClass
parse_failure_class s = get_or unknown (class_of_name (fold_upper (trim_space s)))

-- FailureClass.Recoverable
unfoldable pub recoverable : FailureClass → Bool
recoverable permanent_instrument = false
recoverable unknown = false
recoverable _ = true

pub data Rail : Type 0 where
  upi_intent upi_collect card netbanking wallet no_rail : Rail

unfoldable pub rail_name : Rail → Bytes
rail_name upi_intent = codes "upi_intent"
rail_name upi_collect = codes "upi_collect"
rail_name card = codes "card"
rail_name netbanking = codes "netbanking"
rail_name wallet = codes "wallet"
rail_name no_rail = codes "none"

abbrev pub all_rails : List Rail
all_rails = upi_intent ∷ upi_collect ∷ card ∷ netbanking ∷ wallet ∷ no_rail ∷ []

unfoldable pub rail_of_name : Bytes → Option Rail
unfolding find_named rail_name
rail_of_name s = find_named rail_name all_rails s

-- Rail.Valid
unfoldable pub valid_rail : Bytes → Bool
unfolding rail_of_name
valid_rail s = is_some (rail_of_name s)

unfoldable pub parse_rail : Bytes → Rail
parse_rail s = get_or no_rail (rail_of_name (fold_lower (trim_space s)))

-- The switch of RailFromMethod on the lower-cased method.
abbrev methods : List (Bytes × Rail)
methods =
    (codes "upi", upi_intent)
    ∷ (codes "card", card)
    ∷ (codes "emi", card)
    ∷ (codes "netbanking", netbanking)
    ∷ (codes "wallet", wallet)
    ∷ []

switch_method : List (Bytes × Rail) → Bytes → Rail
switch_method [] s = no_rail
switch_method ((m, r) ∷ ms) s = if list_eq m s then r else switch_method ms s

unfoldable pub rail_from_method : Bytes → Rail
unfolding switch_method to_lower
rail_from_method method = switch_method methods (to_lower method)

-- How a stored instrument is offered on an attempt (InstrumentPresentation).
pub data Presentation : Type 0 where
  unchanged network_token stored_cred fresh_auth : Presentation

pub data BreakerState : Type 0 where
  closed opened half_open : BreakerState
