-- ===== src/Domain/Closed.antt =====
-- internal/domain: what the parsers of the closed sets accept.
use resilient_mesh_razorpayb.Base.{
  ◌≡◌, refl, sym, ap, ◌∙◌, ◌≢◌, ◌↔◌, true, false, Option, none, some, any,
}
use resilient_mesh_razorpayb.Text.{Bytes, trim_space, non_ascii}
use resilient_mesh_razorpayb.Domain.Fold.{fold_upper, fold_lower-non_ascii, fold_upper-non_ascii}
use resilient_mesh_razorpayb.Domain.Vocabulary.{
  all_actions, all_classes, all_rails, find_named-name, Action, rail_morph, async_retry,
  mandate_cascade, instrument_refresh, abstain, action_name, action_of_name, parse_action,
  FailureClass, transient_degradation, issuer_outage, network_timeout, psp_degradation,
  customer_action, insufficient_funds, instrument_stale, permanent_instrument, unknown, class_name,
  class_of_name, parse_failure_class, recoverable, Rail, upi_intent, upi_collect, card, netbanking,
  wallet, no_rail, rail_name, rail_of_name, parse_rail, get_or,
}

pub action_of_name_of : (a : Action) → action_of_name (action_name a) ≡ some a
unfolding action_of_name
action_of_name_of rail_morph = refl
action_of_name_of async_retry = refl
action_of_name_of mandate_cascade = refl
action_of_name_of instrument_refresh = refl
action_of_name_of abstain = refl

pub class_of_name_of : (c : FailureClass) → class_of_name (class_name c) ≡ some c
unfolding class_of_name
class_of_name_of transient_degradation = refl
class_of_name_of issuer_outage = refl
class_of_name_of network_timeout = refl
class_of_name_of psp_degradation = refl
class_of_name_of customer_action = refl
class_of_name_of insufficient_funds = refl
class_of_name_of instrument_stale = refl
class_of_name_of permanent_instrument = refl
class_of_name_of unknown = refl

pub rail_of_name_of : (r : Rail) → rail_of_name (rail_name r) ≡ some r
unfolding rail_of_name
rail_of_name_of upi_intent = refl
rail_of_name_of upi_collect = refl
rail_of_name_of card = refl
rail_of_name_of netbanking = refl
rail_of_name_of wallet = refl
rail_of_name_of no_rail = refl

pub action_of_name-name : (s : Bytes) (a : Action) → action_of_name s ≡ some a → action_name a ≡ s
unfolding action_of_name
action_of_name-name s a h = find_named-name action_name all_actions s a h

pub class_of_name-name :
    (s : Bytes) (c : FailureClass) → class_of_name s ≡ some c → class_name c ≡ s
unfolding class_of_name
class_of_name-name s c h = find_named-name class_name all_classes s c h

pub rail_of_name-name : (s : Bytes) (r : Rail) → rail_of_name s ≡ some r → rail_name r ≡ s
unfolding rail_of_name
rail_of_name-name s r h = find_named-name rail_name all_rails s r h

-- A `get_or` that is not its default comes from the option.
get_or-other {ℓ} : {A : Type ℓ} (d a : A) (o : Option A) → a ≢ d → get_or d o ≡ a → o ≡ some a
get_or-other d a none n h = absurd (n (sym h))
get_or-other d a (some b) n h = ap some h

-- Free text is read as a recovery action other than abstention exactly when, trimmed and with its
-- ASCII letters in upper case, it is the name of that action.
pub parse_action-eq_iff :
    (s : Bytes) (a : Action)
    → a ≢ abstain
    → (parse_action s ≡ a) ↔ (fold_upper (trim_space s) ≡ action_name a)
unfolding parse_action
parse_action-eq_iff s a n = (
  λ h. sym (action_of_name-name _ a (get_or-other abstain a _ n h)),
  λ h. rw (h, action_of_name_of a),
)

-- Free text is read as a causal class that may buy a retry exactly when, trimmed and with its ASCII
-- letters in upper case, it is the name of that class.
pub parse_failure_class-eq_iff :
    (s : Bytes) (c : FailureClass)
    → recoverable c ≡ true
    → (parse_failure_class s ≡ c) ↔ (fold_upper (trim_space s) ≡ class_name c)
unfolding parse_failure_class recoverable
parse_failure_class-eq_iff s c r = (
  λ h. sym (class_of_name-name _ c (get_or-other unknown c _ (λ e. cc) h)),
  λ h. rw (h, class_of_name_of c),
)

names_ascii : (a : Action) → any non_ascii (action_name a) ≡ false
unfolding action_name
names_ascii rail_morph = refl
names_ascii _ = refl

classes_ascii : (c : FailureClass) → any non_ascii (class_name c) ≡ false
unfolding class_name
classes_ascii transient_degradation = refl
classes_ascii _ = refl

rails_ascii : (r : Rail) → any non_ascii (rail_name r) ≡ false
unfolding rail_name
rails_ascii upi_intent = refl
rails_ascii _ = refl

-- A text with a byte outside ASCII is no member of a set of ASCII names.
not_named {ℓ} :
    {A : Type ℓ} (name : A → Bytes) (d : A) (t : Bytes) (o : Option A)
    → any non_ascii t ≡ true
    → ((a : A) → any non_ascii (name a) ≡ false)
    → ((a : A) → o ≡ some a → name a ≡ t)
    → get_or d o ≡ d
not_named name d t none h ascii named = refl
not_named name d t (some a) h ascii named = cc (ascii a, ap (any non_ascii) (named a refl))

-- Model text that holds a byte outside ASCII, once trimmed, is read as abstention, as the unknown
-- class and as no rail.
pub parse_non_ascii :
    (s : Bytes)
    → any non_ascii (trim_space s) ≡ true
    → (parse_action s ≡ abstain) × (parse_failure_class s ≡ unknown) × (parse_rail s ≡ no_rail)
unfolding parse_action parse_failure_class parse_rail
parse_non_ascii s h = (
  not_named action_name abstain _ _ (fold_upper-non_ascii (trim_space s) ∙ h) names_ascii
      (action_of_name-name _),
  not_named class_name unknown _ _ (fold_upper-non_ascii (trim_space s) ∙ h) classes_ascii
      (class_of_name-name _),
  not_named rail_name no_rail _ _ (fold_lower-non_ascii (trim_space s) ∙ h) rails_ascii
      (rail_of_name-name _),
)
