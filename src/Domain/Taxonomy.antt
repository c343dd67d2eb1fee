-- ===== src/Domain/Taxonomy.antt =====
-- internal/domain/models.go, the error taxonomy, and records.go, the mandate categories.
use resilient_mesh_razorpayb.Base.{◌&&◌}
use resilient_mesh_razorpayb.Base.{
  ◌≡◌, subst, inl, inr, Bool, true, false, ◌||◌, List, [], ◌∷◌, arith, if◌then◌else◌, Bool-cases,
  All, list_eq, list_eq-eq, ℤ, pos,
}
use resilient_mesh_razorpayb.Text.{Bytes, codes, trim_space}
use resilient_mesh_razorpayb.Domain.Fold.{normalise_code, fold_lower}

abbrev pub terminal_decline_codes : List Bytes
terminal_decline_codes =
    codes "debit_instrument_blocked"
    ∷ codes "bank_account_invalid"
    ∷ codes "transaction_limit_exceeded"
    ∷ codes "payment_method_not_enabled"
    ∷ codes "invalid_card_number"
    ∷ codes "card_lost_or_stolen"
    ∷ codes "international_transaction_not_allowed"
    ∷ codes "payment_cancelled_by_user"
    ∷ codes "mandate_revoked"
    ∷ []

abbrev pub refreshable_decline_codes : List Bytes
refreshable_decline_codes = codes "card_expired" ∷ codes "card_not_supported" ∷ []

abbrev pub ambiguous_failure_codes : List Bytes
ambiguous_failure_codes =
    codes "bank_technical_error"
    ∷ codes "gateway_technical_error"
    ∷ codes "payment_timed_out"
    ∷ codes "server_error"
    ∷ codes "issuer_down"
    ∷ codes "gateway_error"
    ∷ codes "upi_psp_error"
    ∷ codes "payment_pending"
    ∷ []

abbrev pub soft_decline_codes : List Bytes
soft_decline_codes =
    codes "insufficient_funds"
    ∷ codes "payment_failed"
    ∷ codes "invalid_otp"
    ∷ codes "incorrect_otp"
    ∷ codes "authentication_failed"
    ∷ codes "upi_collect_expired"
    ∷ codes "mandate_not_active"
    ∷ []

-- The map lookup, `_, ok := codes[code]`.
unfoldable pub has_code : List Bytes → Bytes → Bool
has_code [] s = false
has_code (c ∷ cs) s = list_eq c s || has_code cs s

unfoldable pub is_terminal_decline : Bytes → Bool
unfolding has_code
is_terminal_decline code = has_code terminal_decline_codes (normalise_code code)

unfoldable pub is_refreshable : Bytes → Bool
unfolding has_code
is_refreshable code = has_code refreshable_decline_codes (normalise_code code)

unfoldable pub is_ambiguous : Bytes → Bool
unfolding has_code
is_ambiguous code = has_code ambiguous_failure_codes (normalise_code code)

unfoldable pub is_soft_decline : Bytes → Bool
unfolding has_code
is_soft_decline code = has_code soft_decline_codes (normalise_code code)

-- What holds of every code of a list holds of each code that is found in it.
pub has_code-All {ℓ} :
    (P : Bytes → Type ℓ) (cs : List Bytes) (s : Bytes) → All P cs → has_code cs s ≡ true → P s
unfolding has_code
has_code-All P [] s p h = cc
has_code-All P (c ∷ cs) s p h = elim (Bool-cases (list_eq c s)) [
  | inl e ↦ subst P (list_eq-eq c s e) p.0
  | inr e ↦ has_code-All P cs s p.1 (rw e at h)
]

abbrev ApartFromAmbiguous : Bytes → Type 0
ApartFromAmbiguous s = has_code soft_decline_codes s ≡ false

abbrev ApartFromRefreshable : Bytes → Type 0
ApartFromRefreshable s = (has_code ambiguous_failure_codes s ≡ false) × ApartFromAmbiguous s

abbrev ApartFromTerminal : Bytes → Type 0
ApartFromTerminal s =
    (has_code refreshable_decline_codes s ≡ false)
    × (has_code ambiguous_failure_codes s ≡ false)
    × ApartFromAmbiguous s

taxonomy_apart :
    (code : Bytes)
    → (is_terminal_decline code ≡ true
        → (is_refreshable code ≡ false)
          × (is_ambiguous code ≡ false)
          × (is_soft_decline code ≡ false))
      × (is_refreshable code ≡ true → (is_ambiguous code ≡ false) × (is_soft_decline code ≡ false))
      × (is_ambiguous code ≡ true → is_soft_decline code ≡ false)
unfolding is_terminal_decline is_refreshable is_ambiguous is_soft_decline
taxonomy_apart code = (
  has_code-All ApartFromTerminal terminal_decline_codes (normalise_code code) (ground arith),
  has_code-All ApartFromRefreshable refreshable_decline_codes (normalise_code code) (ground arith),
  has_code-All ApartFromAmbiguous ambiguous_failure_codes (normalise_code code) (ground arith),
)

-- No code lies in two of the four classes: at most one of the tests of the taxonomy accepts it.
pub taxonomy_disjoint :
    (code : Bytes)
    → (is_terminal_decline code && is_refreshable code ≡ false)
      × (is_terminal_decline code && is_ambiguous code ≡ false)
      × (is_terminal_decline code && is_soft_decline code ≡ false)
      × (is_refreshable code && is_ambiguous code ≡ false)
      × (is_refreshable code && is_soft_decline code ≡ false)
      × (is_ambiguous code && is_soft_decline code ≡ false)
taxonomy_disjoint code = let (a, b, c) = taxonomy_apart code in ground arith

pub data MandateCategory : Type 0 where
  general insurance mutual_fund credit_card_bill : MandateCategory

abbrev pub afa_ceiling_general_paisa : ℤ
afa_ceiling_general_paisa = pos 1_500_000

abbrev pub afa_ceiling_elevated_paisa : ℤ
afa_ceiling_elevated_paisa = pos 10_000_000

unfoldable pub afa_ceiling_paisa : MandateCategory → ℤ
afa_ceiling_paisa general = afa_ceiling_general_paisa
afa_ceiling_paisa _ = afa_ceiling_elevated_paisa

unfoldable pub parse_mandate_category : Bytes → MandateCategory
parse_mandate_category s =
    let t = fold_lower (trim_space s) in
    if list_eq t (codes "insurance")
    then insurance
    else if list_eq t (codes "mutual_fund")
    then mutual_fund
    else if list_eq t (codes "credit_card_bill")
    then credit_card_bill
    else general
