-- ===== src/Sync/Idempotency.antt =====
-- services/sync/idempotency/store.py: the registry of processed operations. `compute_payload_hash`, a
-- SHA-256 of canonical JSON, is a parameter.
use ai_powered_respiratory_h.Base.{
  ℕ, String, false, ◌≡◌, ◌≢◌, inl, inr, refl, Option, none, some, Bool-cases, Dict, lookup, insert,
  lookup-insert, lookup-insert_self, Value, ◌==◌, string_eq, if◌then◌else◌, Result, ok, raise,
  Action, idempotency_key_reuse,
}
use text.Mathlib.TextPositions.{eq_refl}
use ai_powered_respiratory_h.Sync.Contracts.{SyncStatus, SyncOperationResult}

pub record IdempotencyRecord : Type 0 where
  pub operation_id : String
  pub request_hash : String
  pub entity_type : String
  pub entity_id : String
  pub operation_type : String
  pub status : SyncStatus
  pub cached_result : SyncOperationResult
  pub processed_at : ℕ
  pub state_version : Option ℕ

-- `IdempotencyStore`, its dictionary
abbrev pub IdempotencyStore : Type 0
IdempotencyStore = Dict IdempotencyRecord

abbrev pub get_record : String → IdempotencyStore → Option IdempotencyRecord
get_record id s = lookup id s

not_same : (s t : String) → s ≢ t → (s == t) ≡ false
not_same s t ne = elim (Bool-cases (s == t)) [
  | inl same ↦ absurd (ne ((string_eq.same_iff s t).0 same))
  | inr other ↦ other
]

module _ (compute_payload_hash : Dict Value → String) where
  abbrev registered : String → Option IdempotencyRecord → Result (Option IdempotencyRecord)
  registered hash none = ok none
  registered hash (some existing) =
      if existing.request_hash == hash then ok (some existing) else raise idempotency_key_reuse

  unfoldable pub check_and_register :
      String → Dict Value → Action IdempotencyStore (Option IdempotencyRecord)
  check_and_register id payload s = (registered (compute_payload_hash payload) (lookup id s), s)

  abbrev pub new_record :
      ℕ
      → String
      → Dict Value
      → (entity_type entity_id operation_type : String) → SyncStatus
      → SyncOperationResult
      → Option ℕ
      → IdempotencyRecord
  new_record now id payload entity_type entity_id operation_type status result version = record {
    operation_id = id;
    request_hash = compute_payload_hash payload;
    entity_type = entity_type;
    entity_id = entity_id;
    operation_type = operation_type;
    status = status;
    cached_result = result;
    processed_at = now;
    state_version = version;
  }

  unfoldable pub save_record :
      ℕ
      → String
      → Dict Value
      → (entity_type entity_id operation_type : String) → SyncStatus
      → SyncOperationResult
      → Option ℕ
      → Action IdempotencyStore IdempotencyRecord
  save_record now id payload entity_type entity_id operation_type status result version s =
      let r =
        new_record now id payload entity_type entity_id operation_type status result version in
      (ok r, insert id r s)

  -- Once an operation is saved: a submission with a payload of the same hash is answered with the
  -- saved record, one with a payload of another hash raises IdempotencyKeyReuseError, other operations
  -- are answered as before, and no check changes the registry.
  pub check_and_register-save_record :
      (now : ℕ) (id : String) (payload : Dict Value) (entity_type entity_id operation_type : String)
      (status : SyncStatus) (result : SyncOperationResult) (version : Option ℕ)
      (s : IdempotencyStore)
      → let (answer, t) =
          save_record now id payload entity_type entity_id operation_type status result version s in
        let saved =
          new_record now id payload entity_type entity_id operation_type status result version in
        ((again : Dict Value)
          → compute_payload_hash again ≡ compute_payload_hash payload
          → check_and_register id again t ≡ (ok (some saved), t))
        × ((altered : Dict Value)
            → compute_payload_hash payload ≢ compute_payload_hash altered
            → check_and_register id altered t ≡ (raise idempotency_key_reuse, t))
        × ((other : String) (later : Dict Value)
            → (id == other) ≡ false
            → check_and_register other later t ≡ ((check_and_register other later s).0, t))
  unfolding save_record check_and_register
  check_and_register-save_record now id payload entity_type entity_id operation_type status result
        version s =
      (
        λ again same. rw (lookup-insert_self, same, eq_refl) refl,
        λ altered other. rw (lookup-insert_self, not_same _ _ other) refl,
        λ other later elsewhere. rw (lookup-insert, elsewhere) refl,
      )
