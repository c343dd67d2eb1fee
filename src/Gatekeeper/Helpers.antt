-- ===== src/Gatekeeper/Helpers.antt =====
-- internal/gatekeeper/gatekeeper.go: the rule helpers.
use resilient_mesh_razorpayb.Base.{
  ap, Bool-cases, inr, inl, ◌≢◌, ℕ, ◌+◌, ◌-◌, ◌*◌, ◌/◌, ◌^◌, ◌≡◌, ◌⊎◌, Bool, true, false, not, ◌&&◌,
  ◌||◌, Option, none, some, List, [], ◌∷◌, arith, ltb, leb, ◌==◌, if◌then◌else◌, take, any, list_eq,
  ℤ, pos, pos_part, ltb_ℤ, leb_ℤ, eqb_ℤ, Float64, is_nan, is_inf, ltb_float, float_zero, float_one,
}
use resilient_mesh_razorpayb.Text.{Bytes}
use resilient_mesh_razorpayb.Domain.Vocabulary.{
  Rail, upi_intent, upi_collect, card, netbanking, wallet, no_rail, rail_of_name,
}
use resilient_mesh_razorpayb.Domain.Times.{Time, Duration, second, time_sub}
use resilient_mesh_razorpayb.Domain.Records.{
  PaymentEntity, MandateRecord, SanitizedCommand, max_recommended_delay,
}

is_letter : ℕ → Bool
is_letter c = leb b'A' c && leb c b'Z' || leb b'a' c && leb c b'z'

three_letters : Bytes → Bool
unfolding is_letter
three_letters (a ∷ b ∷ c ∷ []) = is_letter a && is_letter b && is_letter c
three_letters _ = false

unfoldable pub chargeable : ℤ → Bytes → Bool
unfolding three_letters
chargeable paisa currency = not (leb_ℤ paisa (pos 0)) && three_letters currency

rail_index : Rail → ℕ
rail_index upi_intent = 0
rail_index upi_collect = 1
rail_index card = 2
rail_index netbanking = 3
rail_index wallet = 4
rail_index no_rail = 5

-- Equality of rails.
unfoldable pub rail_eq : Rail → Rail → Bool
unfolding rail_index
rail_eq r s = rail_index r == rail_index s

pub rail_eq-eq : (r s : Rail) → rail_eq r s ≡ true → r ≡ s
unfolding rail_eq
rail_eq-eq r s h = ground arith

abbrev pub max_rails_considered : ℕ
max_rails_considered = 32

-- An entry of the merchant's list that names a known rail, and this one.
unfoldable pub matches : Rail → Bytes → Bool
matches target e = elim (rail_of_name e) [ none ↦ false | some r ↦ rail_eq r target ]

abbrev pub Listed : Rail → List Bytes → Type 0
Listed target [] = ⊥
Listed target (e ∷ es) = (rail_of_name e ≡ some target) ⊎ Listed target es

-- morphTargetRejection: true where it accepts the target. A `Rail` is always a known one here.
unfoldable pub morph_target_accepted : Rail → Rail → List Bytes → Bool
unfolding matches
morph_target_accepted target failing available =
    not (rail_eq target no_rail)
    && not (rail_eq target failing)
    && any (matches target) (take max_rails_considered available)

abbrev notice_validity : ℕ
notice_validity = 30 * 24 * 3600 * second

matches-rail_of_name :
    (target : Rail) (e : Bytes) → matches target e ≡ true → rail_of_name e ≡ some target
unfolding matches rail_eq
matches-rail_of_name target e h = ground arith

any-matches-Listed :
    (target : Rail) (es : List Bytes) → any (matches target) es ≡ true → Listed target es
any-matches-Listed target [] h = cc
any-matches-Listed target (e ∷ es) h = elim (Bool-cases (matches target e)) [
  | inl n ↦ inl (matches-rail_of_name target e n)
  | inr n ↦ inr (any-matches-Listed target es (rw n at h))
]

pub rail_eq_refl : (r : Rail) → rail_eq r r ≡ true
unfolding rail_eq
rail_eq_refl r = ground arith

and-parts : (a b c : Bool) → (a && b && c) ≡ true → (a ≡ true) × (b ≡ true) × (c ≡ true)
and-parts a b c h = ground arith

pub not_equal : (r s : Rail) → not (rail_eq r s) ≡ true → r ≢ s
not_equal r s h e = cc (rail_eq_refl s, ap not (ap (λ t. rail_eq t s) e))

-- An accepted target is among the first entries of the list, and is neither no rail nor the failing
-- one.
pub morph_target_accepted-Listed :
    (target failing : Rail) (available : List Bytes)
    → morph_target_accepted target failing available ≡ true
    → Listed target (take max_rails_considered available) × (target ≢ no_rail) × (target ≢ failing)
unfolding morph_target_accepted
morph_target_accepted-Listed target failing available h =
    let (rail, other, listed) = and-parts _ _ _ h in
    (
      any-matches-Listed target _ listed,
      not_equal target no_rail rail,
      not_equal target failing other,
    )

-- The notice on record, taken at its time.
notice_at : Option Time → Time → Bool
notice_at none now = false
notice_at (some sent) now = not (ltb_ℤ now sent) && leb_ℤ (time_sub now sent) (pos notice_validity)

unfoldable pub notice_satisfied : Option MandateRecord → Time → Bool
unfolding notice_at
notice_satisfied none now = false
notice_satisfied (some m) now = notice_at m.pre_debit_notified_at now

-- int64(30) << uint(attempt), the attempt at most 16.
unfoldable pub fallback_backoff_seconds : ℤ → ℤ
fallback_backoff_seconds attempt =
    let a = if ltb 16 (pos_part attempt) then 16 else pos_part attempt in
    let secs = 30 * 2 ^ a in if ltb 604_800 secs then max_recommended_delay else pos secs

abbrev max_schedulable_duration : Duration
max_schedulable_duration = pos (604_800 * second)

-- int64((d + time.Second - 1) / time.Second) for 0 < d.
abbrev round_up_seconds : Duration → ℤ
round_up_seconds d = pos ((pos_part d + second - 1) / second)

unfoldable pub duration_to_seconds : Duration → ℤ
duration_to_seconds d =
    if leb_ℤ d (pos 0)
    then pos 0
    else if leb_ℤ max_schedulable_duration d
    then max_recommended_delay
    else round_up_seconds d

unfoldable pub seconds_until : Time → Time → ℤ
seconds_until t now =
    let d = time_sub t now in
    if leb_ℤ d (pos 0)
    then pos 0
    else if ltb_ℤ max_schedulable_duration d
    then pos 604_801
    else round_up_seconds d

unfoldable pub safe_confidence : Float64 → Float64
safe_confidence c =
    if is_nan c || is_inf c || ltb_float c float_zero
    then float_zero
    else if ltb_float float_one c
    then float_one
    else c

-- assertMoneyPinned: true where it returns no error.
unfoldable pub money_pinned : SanitizedCommand → PaymentEntity → Bool
money_pinned cmd p = eqb_ℤ cmd.immutable_amount_paisa p.amount && list_eq cmd.currency p.currency
