-- ===== src/Store/Checks.antt =====
-- internal/store/errors.go, and the bounds that internal/store/postgres.go puts on what it writes.
-- Which field an error names is text for a reader.
use resilient_mesh_razorpayb.Base.{
  ℕ, ◌^◌, Bool, true, false, not, ltb, if◌then◌else◌, length, Result, ok, err,
}
use resilient_mesh_razorpayb.Text.{Bytes, is_empty}
use resilient_mesh_razorpayb.Text.Runes.{rune_count, valid_string}

-- ErrNotFound, ErrConflict, ErrInvalidInput, and any other failure of the database.
pub data StoreError : Type 0 where
  not_found conflict invalid_input unavailable : StoreError

abbrev pub max_identifier_len : ℕ
max_identifier_len = 128

abbrev pub max_kind_len : ℕ
max_kind_len = 64

abbrev pub max_actor_len : ℕ
max_actor_len = 64

abbrev pub max_audit_detail_bytes : ℕ
max_audit_detail_bytes = 2 ^ 16

-- checkText, true where it accepts.
unfoldable pub check_text : Bytes → ℕ → ℕ → Bool
check_text v min_len max_len =
    let n = rune_count v in
    if ltb n min_len then false else if ltb max_len n then false else valid_string v

-- checkJSON, true where it accepts.
unfoldable pub check_json : (Bytes → Bool) → Bytes → ℕ → Bool → Bool
check_json json_valid b max_bytes required =
    if is_empty b then not required else if ltb max_bytes (length b) then false else json_valid b

-- A value that is accepted, or ErrInvalidInput.
unfoldable pub require : Bool → Result StoreError Bool
require true = ok true
require false = err invalid_input
