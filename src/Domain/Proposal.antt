-- ===== src/Domain/Proposal.antt =====
-- internal/domain/decision.go: the methods of DiagnosticProposal, and the freshness of telemetry.
use resilient_mesh_razorpayb.Base.{
  ℕ, zero, suc, ◌+◌, ◌≡◌, ◌≤◌, ◌↔◌, Bool, true, not, ◌&&◌, ◌||◌, [], ◌∷◌, ◌++◌, arith, length, take,
  leb, ◌==◌, if◌then◌else◌, length-append, pos, ltb_ℤ, ◌≤ℤ◌, is_nan, is_inf, leb_float, float_zero,
  float_one, Result, ok, err,
}
use Prim.Native.Nat.{bit_and}
use resilient_mesh_razorpayb.Text.{Bytes, codes, trim_space}
use resilient_mesh_razorpayb.Domain.Vocabulary.{
  valid_action, valid_rail, valid_class, class_name, unknown, action_name, abstain, rail_name,
  no_rail,
}
use resilient_mesh_razorpayb.Domain.Records.{DiagnosticProposal, max_recommended_delay}
use resilient_mesh_razorpayb.Base.{◌∙◌, ap, sym}

pub data ProposalError : Type 0 where
  confidence_not_finite confidence_out_of_range delay_out_of_range : ProposalError
  unknown_action unknown_rail : ProposalError

abbrev pub settled_class : Bytes → Bytes
settled_class c = if valid_class c then c else class_name unknown

-- Validate: the proposal as it leaves it, or the error.
unfoldable pub validate : DiagnosticProposal → Result ProposalError DiagnosticProposal
validate p =
    if is_nan p.confidence_score || is_inf p.confidence_score
    then err confidence_not_finite
    else if not (leb_float float_zero p.confidence_score && leb_float p.confidence_score float_one)
    then err confidence_out_of_range
    else if ltb_ℤ p.recommended_delay_sec (pos 0)
        || ltb_ℤ max_recommended_delay p.recommended_delay_sec
    then err delay_out_of_range
    else if not (valid_action p.recommended_action)
    then err unknown_action
    else if not (valid_rail p.suggested_fallback_rail)
    then err unknown_rail
    else ok (record p { failure_classification = settled_class p.failure_classification })

abbrev pub max_root_cause_len : ℕ
max_root_cause_len = 240

abbrev pub max_reasoning_len : ℕ
max_reasoning_len = 1_200

abbrev is_rune_start : ℕ → Bool
is_rune_start b = not (bit_and b 0xc0 == 0x80)

nth_byte : Bytes → ℕ → ℕ
nth_byte [] i = 0
nth_byte (c ∷ s) zero = c
nth_byte (c ∷ s) (suc i) = nth_byte s i

-- The loop of truncate, down from `cut` to the start of a character.
rune_boundary : Bytes → ℕ → ℕ
unfolding nth_byte
rune_boundary s zero = 0
rune_boundary s (suc cut) =
    let less = rune_boundary s cut in if is_rune_start (nth_byte s (suc cut)) then suc cut else less

unfoldable pub truncate : Bytes → ℕ → Bytes
unfolding rune_boundary
truncate s n =
    let t = trim_space s in
    if leb (length t) n then t else take (rune_boundary t n) t ++ codes "..."

-- Clamp
unfoldable pub clamp : DiagnosticProposal → DiagnosticProposal
clamp p = record p {
  inferred_root_cause = truncate p.inferred_root_cause max_root_cause_len;
  reasoning_trace = truncate p.reasoning_trace max_reasoning_len;
}

-- AbstainProposal; the fields it does not name have Go's zero values.
unfoldable pub abstain_proposal : Bytes → Bytes → Bytes → DiagnosticProposal
abstain_proposal incident reason mode = record {
  incident_id = incident;
  inferred_root_cause = truncate reason max_root_cause_len;
  failure_classification = class_name unknown;
  confidence_score = float_zero;
  recommended_action = action_name abstain;
  recommended_delay_sec = pos 0;
  suggested_fallback_rail = rail_name no_rail;
  reasoning_trace = truncate reason max_reasoning_len;
  mode = mode;
  model = [];
  latency_ms = pos 0;
  degraded = true;
}

-- What a proposal must be for Validate to accept it.
pub record IsValid (p : DiagnosticProposal) : Type 0 where
  pub confidence_at_least : leb_float float_zero p.confidence_score ≡ true
  pub confidence_at_most : leb_float p.confidence_score float_one ≡ true
  pub delay_at_least : pos 0 ≤ℤ p.recommended_delay_sec
  pub delay_at_most : p.recommended_delay_sec ≤ℤ max_recommended_delay
  pub action_known : valid_action p.recommended_action ≡ true
  pub rail_known : valid_rail p.suggested_fallback_rail ≡ true

validate-ok :
    (p q : DiagnosticProposal)
    → validate p ≡ ok q
    → IsValid p × (q ≡ record p { failure_classification = settled_class p.failure_classification })
unfolding validate float_one
validate-ok p q h = (
  record {
    confidence_at_least = ground arith;
    confidence_at_most = ground arith;
    delay_at_least = ground arith;
    delay_at_most = ground arith;
    action_known = ground arith;
    rail_known = ground arith;
  },
  ground arith,
)

validate-IsValid :
    (p : DiagnosticProposal)
    → IsValid p
    → validate p ≡ ok (record p { failure_classification = settled_class p.failure_classification })
unfolding validate float_one
validate-IsValid p v = ground arith

rune_boundary-le : (s : Bytes) (n : ℕ) → rune_boundary s n ≤ n
unfolding rune_boundary
rune_boundary-le s zero = omega arith
rune_boundary-le s (suc n) = ground (arith, rune_boundary-le s n)

length-take_le : (n : ℕ) (s : Bytes) → length (take n s) ≤ n
length-take_le zero s = omega arith
length-take_le (suc n) [] = omega arith
length-take_le (suc n) (c ∷ s) = omega (arith, length-take_le n s)

length-truncate : (s : Bytes) (n : ℕ) → length (truncate s n) ≤ n + 3
unfolding truncate
length-truncate s n =
    let t = trim_space s in
    ground (
      arith,
      length-append (take (rune_boundary t n) t) (codes "..."),
      length-take_le (rune_boundary t n) t,
      rune_boundary-le t n,
    )

-- Validate rejects rather than repairs: it accepts a proposal exactly when its confidence is a number
-- between 0 and 1, its delay lies between 0 and one week, and its action and its rail are members
-- of their closed sets, and what it then changes is the class alone, which becomes the unknown one
-- unless it is a member of its set.
pub validate-ok_iff :
    (p q : DiagnosticProposal)
    → (validate p ≡ ok q)
      ↔ IsValid p
        × (q ≡ record p { failure_classification = settled_class p.failure_classification })
validate-ok_iff p q = (validate-ok p q, λ (v, e). validate-IsValid p v ∙ ap ok (sym e))

-- After Clamp, a root cause has at most 243 bytes and a reasoning trace at most 1203, three more than
-- their limits, whatever the model wrote.
pub clamp-bounds :
    (p : DiagnosticProposal)
    → (length (clamp p).inferred_root_cause ≤ 243) × (length (clamp p).reasoning_trace ≤ 1_203)
unfolding clamp
clamp-bounds p =
    (length-truncate p.inferred_root_cause 240, length-truncate p.reasoning_trace 1_200)
