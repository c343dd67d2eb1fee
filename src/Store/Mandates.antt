-- ===== src/Store/Mandates.antt =====
-- internal/store/postgres.go: the mandates table.
use resilient_mesh_razorpayb.Base.{
  ℕ, zero, suc, ◌-◌, Bool, not, ◌&&◌, Option, none, some, List, [], ◌∷◌, if◌then◌else◌, list_eq,
  pos, ltb_ℤ, eqb_ℤ, Result, ok, err, ◌>>◌,
}
use resilient_mesh_razorpayb.Text.{Bytes, codes}
use resilient_mesh_razorpayb.Text.Runes.{rune_size}
use resilient_mesh_razorpayb.Domain.Times.{Time, zero_time}
use resilient_mesh_razorpayb.Domain.Records.{MandateRecord}
use resilient_mesh_razorpayb.Domain.Taxonomy.{
  MandateCategory, general, insurance, mutual_fund, credit_card_bill, parse_mandate_category,
}
use resilient_mesh_razorpayb.Store.Checks.{
  StoreError, not_found, require, check_text, max_identifier_len,
}

abbrev max_free_text_len : ℕ
max_free_text_len = 512

-- The bytes of the first runes, `k` of which are left of the one that is being copied.
runes_of : ℕ → ℕ → Bytes → Bytes
runes_of n k [] = []
runes_of zero zero (a ∷ s) = []
runes_of (suc n) zero (a ∷ s) = a ∷ runes_of n (rune_size (a ∷ s) - 1) s
runes_of n (suc k) (a ∷ s) = a ∷ runes_of n k s

-- truncate, on a valid text.
unfoldable pub truncate_runes : Bytes → ℕ → Bytes
unfolding runes_of
truncate_runes s max_len = runes_of max_len 0 s

-- timePtrParam
unfoldable pub time_ptr_param : Option Time → Option Time
time_ptr_param none = none
time_ptr_param (some t) = if eqb_ℤ t zero_time then none else some t

abbrev pub has_subscription : Bytes → MandateRecord → Bool
has_subscription id m = list_eq m.subscription_id id

-- SELECT ... WHERE subscription_id = $1
unfoldable pub find_mandate : Bytes → List MandateRecord → Option MandateRecord
find_mandate id [] = none
find_mandate id (m ∷ ms) = if has_subscription id m then some m else find_mandate id ms

-- GetMandate
unfoldable pub get_mandate : Bytes → List MandateRecord → Result StoreError MandateRecord
unfolding require
get_mandate id rows = do
  require (check_text id 1 max_identifier_len)
  elim (find_mandate id rows) [ none ↦ err not_found | some m ↦ ok m ]

-- The checks of mandateArgs.
unfoldable pub mandate_ok : MandateRecord → Bool
mandate_ok m =
    check_text m.subscription_id 1 max_identifier_len
    && check_text m.customer_id 0 max_identifier_len
    && check_text m.cycle_key 0 max_identifier_len
    && not (ltb_ℤ m.amount_paisa (pos 0))
    && not (ltb_ℤ m.attempts_in_cycle (pos 0))

-- The name of a category.
unfoldable pub category_name : MandateCategory → Bytes
category_name insurance = codes "insurance"
category_name mutual_fund = codes "mutual_fund"
category_name credit_card_bill = codes "credit_card_bill"
category_name general = codes "general"

-- mandateArgs: the row that is written.
unfoldable pub mandate_args : Time → MandateRecord → MandateRecord
unfolding time_ptr_param category_name
mandate_args now m = record m {
  last_attempt_at = time_ptr_param m.last_attempt_at;
  next_eligible_at = time_ptr_param m.next_eligible_at;
  pre_debit_notified_at = time_ptr_param m.pre_debit_notified_at;
  category = category_name (parse_mandate_category m.category);
  halt_reason = truncate_runes m.halt_reason max_free_text_len;
  updated_at = if eqb_ℤ m.updated_at zero_time then now else m.updated_at;
}

unfoldable pub upsert : MandateRecord → List MandateRecord → List MandateRecord
upsert m [] = m ∷ []
upsert m (n ∷ ns) =
    let rest = upsert m ns in if has_subscription m.subscription_id n then m ∷ ns else n ∷ rest

-- SaveMandate
unfoldable pub save_mandate :
    Time → MandateRecord → List MandateRecord → Result StoreError (List MandateRecord)
unfolding require upsert mandate_args
save_mandate now m rows = do require (mandate_ok m); ok (upsert (mandate_args now m) rows)
