-- ===== src/Store/Sessions.antt =====
-- internal/store/postgres.go: the sessions table, without the digests of its tokens.
use resilient_mesh_razorpayb.Base.{
  Bool, true, not, ◌&&◌, ◌||◌, Option, none, some, List, [], ◌∷◌, if◌then◌else◌, any, list_eq, ℤ,
  pos, ltb_ℤ, Result, ok, err, ◌>>◌,
}
use resilient_mesh_razorpayb.Text.{Bytes}
use resilient_mesh_razorpayb.Domain.Vocabulary.{Rail}
use resilient_mesh_razorpayb.Domain.Times.{Time}
use resilient_mesh_razorpayb.Store.Checks.{
  StoreError, not_found, require, check_text, max_identifier_len,
}
use resilient_mesh_razorpayb.Store.Incidents.{max_currency_len}

pub record SessionRecord : Type 0 where
  pub id : Bytes
  pub order_id : Bytes
  pub current_rail : Rail
  pub amount_paisa : ℤ
  pub currency : Bytes
  pub active : Bool
  pub morph_count : ℤ
  pub created_at : Time
  pub expires_at : Time

-- SessionRecord.Expired
unfoldable pub is_expired : SessionRecord → Time → Bool
is_expired s now = not s.active || ltb_ℤ s.expires_at now

-- What validateSession and UpdateSession check, the token apart.
unfoldable pub storable : SessionRecord → Bool
storable s =
    check_text s.id 1 max_identifier_len
    && check_text s.order_id 1 max_identifier_len
    && check_text s.currency 1 max_currency_len
    && not (ltb_ℤ s.amount_paisa (pos 0) || ltb_ℤ s.morph_count (pos 0))

-- ORDER BY active DESC, created_at DESC
abbrev precedes : SessionRecord → SessionRecord → Bool
precedes s t =
    if s.active
    then not t.active || ltb_ℤ t.created_at s.created_at
    else not t.active && ltb_ℤ t.created_at s.created_at

unfoldable pub first_session :
    Bytes → Option SessionRecord → List SessionRecord → Option SessionRecord
first_session order best [] = best
first_session order best (s ∷ rest) =
    let better = elim best as (λ o. Bool) [ none ↦ true | some b ↦ precedes s b ] in
    first_session order (if list_eq s.order_id order && better then some s else best) rest

-- GetSessionByOrder
unfoldable pub get_session_by_order : Bytes → List SessionRecord → Result StoreError SessionRecord
unfolding require first_session
get_session_by_order order rows = do
  require (check_text order 1 max_identifier_len)
  elim (first_session order none rows) [ none ↦ err not_found | some s ↦ ok s ]

abbrev pub has_session : Bytes → SessionRecord → Bool
has_session id s = list_eq s.id id

unfoldable pub replace_session : SessionRecord → List SessionRecord → List SessionRecord
replace_session s [] = []
replace_session s (t ∷ rest) =
    (if has_session s.id t then record s { created_at = t.created_at } else t)
    ∷ replace_session s rest

-- UpdateSession
unfoldable pub update_session :
    SessionRecord → List SessionRecord → Result StoreError (List SessionRecord)
unfolding require replace_session
update_session s rows = do
  require (storable s)
  if any (has_session s.id) rows then ok (replace_session s rows) else err not_found
