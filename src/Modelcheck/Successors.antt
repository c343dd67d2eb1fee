-- ===== src/Modelcheck/Successors.antt =====
-- internal/modelcheck/bfs.go: the initial states and the transition relation.
use resilient_mesh_razorpayb.Base.{
  ℕ, zero, suc, ◌-◌, Bool, true, false, not, ◌&&◌, ◌||◌, List, [], ◌∷◌, ◌++◌, map, ltb, ◌==◌,
  if◌then◌else◌, length,
}
use resilient_mesh_razorpayb.Domain.Records.{SanitizedCommand, executable}
use resilient_mesh_razorpayb.Gatekeeper.Decide.{requires_mandate_halt}
use resilient_mesh_razorpayb.Modelcheck.Space.{
  State, at, key, categories, amounts_paisa, hour_buckets, breaker_states, breaker_successors,
  proposals, proposal_delays_sec, max_cycle_attempts, hour_zero_index,
}
use resilient_mesh_razorpayb.Modelcheck.Search.{sort_keys}

-- The indices from i up, n of them.
unfoldable pub count_from : ℕ → ℕ → List ℕ
count_from i zero = []
count_from i (suc n) = i ∷ count_from (suc i) n

abbrev pub indices : {A : Type 0} → List A → List ℕ
indices xs = count_from 0 (length xs)

-- The values of a nested loop, one list after the other.
unfoldable pub concat_map : {A B : Type 0} → (A → List B) → List A → List B
concat_map f [] = []
concat_map f (x ∷ xs) = f x ++ concat_map f xs

abbrev both : List Bool
both = false ∷ true ∷ []

-- The loops of seed, the innermost first.
unfoldable pub fresh : Bool → ℕ → ℕ → ℕ → ℕ → Bool → ℕ → ℕ → State
fresh r c a h b l p d = record {
  recurring = r;
  category = c;
  amount = a;
  attempts = 0;
  hours = h;
  notified = false;
  halted = false;
  breaker = b;
  session_live = l;
  proposal = p;
  delay = d;
}

unfoldable pub with_delays : Bool → ℕ → ℕ → ℕ → ℕ → Bool → ℕ → List State
with_delays r c a h b l p = map (fresh r c a h b l p) (indices proposal_delays_sec)

unfoldable pub with_proposals : Bool → ℕ → ℕ → ℕ → ℕ → Bool → List State
with_proposals r c a h b l = concat_map (with_delays r c a h b l) (indices proposals)

unfoldable pub with_sessions : Bool → ℕ → ℕ → ℕ → ℕ → List State
with_sessions r c a h b = concat_map (with_proposals r c a h b) both

unfoldable pub with_breakers : Bool → ℕ → ℕ → ℕ → List State
with_breakers r c a h = concat_map (with_sessions r c a h) (indices breaker_states)

unfoldable pub with_hours : Bool → ℕ → ℕ → List State
with_hours r c a = concat_map (with_breakers r c a) (indices hour_buckets)

unfoldable pub with_amounts : Bool → ℕ → List State
with_amounts r c = concat_map (with_hours r c) (indices amounts_paisa)

unfoldable pub with_categories : Bool → List State
with_categories r = concat_map (with_amounts r) (indices categories)

unfoldable pub fresh_states : List State
fresh_states = concat_map with_categories both

-- seed
unfoldable pub seed : List ℕ
seed = sort_keys (map key fresh_states)

-- The command that was decided is executed.
unfoldable pub executed : SanitizedCommand → State → State
executed cmd s =
    if executable cmd.action
    then record s {
      attempts = if ltb s.attempts max_cycle_attempts then suc s.attempts else s.attempts;
      hours = hour_zero_index;
      notified = if cmd.pre_debit_notification_needed then true else s.notified;
    }
    else s

-- The verdict of the cycle cap halts the mandate.
unfoldable pub halt : SanitizedCommand → State → State
halt cmd s = if requires_mandate_halt cmd then record s { halted = true } else s

abbrev pub own_step : SanitizedCommand → State → State
own_step cmd s = halt cmd (executed cmd s)

-- Time passes.
abbrev pub later : State → List State
later s =
    map (λ (h : ℕ). record s { hours = h })
      (count_from (suc s.hours) (length hour_buckets - suc s.hours))

abbrev pub breaker_moves : State → List State
breaker_moves s = map (λ (b : ℕ). record s { breaker = b }) (at [] breaker_successors s.breaker)

abbrev pub diagnoses : State → List State
diagnoses s =
    map (λ (p : ℕ). record s { proposal = p }) (indices proposals)
    ++ map (λ (d : ℕ). record s { delay = d }) (indices proposal_delays_sec)

abbrev pub notices : State → List State
notices s = if s.notified then [] else record s { notified = true } ∷ []

-- A new billing cycle.
abbrev pub new_cycles : State → List State
new_cycles s =
    if s.recurring
      && not s.halted
      && (not (s.attempts == 0) || s.notified || not (s.hours == hour_zero_index))
    then record s { attempts = 0; notified = false; hours = hour_zero_index } ∷ []
    else []

-- The states that follow one, before the self-loops are dropped.
unfoldable pub moves : SanitizedCommand → State → List State
moves cmd s =
    own_step cmd s ∷ later s
    ++ breaker_moves s
    ++ record s { session_live = not s.session_live } ∷ diagnoses s
    ++ notices s
    ++ new_cycles s

bool_eq : Bool → Bool → Bool
bool_eq a b = if a then b else not b

unfoldable pub state_eq : State → State → Bool
unfolding bool_eq
state_eq s t =
    bool_eq s.recurring t.recurring
    && s.category == t.category
    && s.amount == t.amount
    && s.attempts == t.attempts
    && s.hours == t.hours
    && bool_eq s.notified t.notified
    && bool_eq s.halted t.halted
    && s.breaker == t.breaker
    && bool_eq s.session_live t.session_live
    && s.proposal == t.proposal
    && s.delay == t.delay

-- appendState over the states that follow.
unfoldable pub append_states : State → List State → List ℕ
append_states s [] = []
append_states s (t ∷ ts) =
    let rest = append_states s ts in if state_eq t s then rest else key t ∷ rest

-- explorer.successors
unfoldable pub successors : SanitizedCommand → State → List ℕ
successors cmd s = sort_keys (append_states s (moves cmd s))
