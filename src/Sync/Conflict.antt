-- ===== src/Sync/Conflict.antt =====
-- services/sync/conflict_resolution/engine.py: whether an operation conflicts with the server's state.
-- A base version below zero, which no digital twin has, is left out. The dictionary of an incident's
-- record is a parameter.
use ai_powered_respiratory_h.Base.{
  ℕ, ◌≤◌, ◌≡◌, ◌↔◌, arith, refl, String, Bool, true, false, ◌∷◌, [], Option, none, some, ltb,
  if◌then◌else◌, Dict, Value, number, string,
}
use ai_powered_respiratory_h.Incidents.Records.{IncidentRecord}
use ai_powered_respiratory_h.Sync.Contracts.{
  SyncOperation, SyncOperationType, create, update, delete, SyncConflictType,
  state_version_conflict, entity_not_found,
}

-- The reason of a conflict, with what its text is made of.
pub data Reason : Type 0 where
  version_mismatch : (base current : ℕ) → Reason
  does_not_exist : (id : String) → Reason
  already_exists : (id : String) → Reason

-- The base version is older than the server's.
abbrev pub is_behind : Option ℕ → ℕ → Bool
is_behind none current = false
is_behind (some base) current = ltb base current

abbrev pub base_of : Option ℕ → ℕ
base_of none = 0
base_of (some base) = base

-- The type of a conflict, its reason and the server's state.
abbrev pub Conflict : Type 0
Conflict = SyncConflictType × Reason × Dict Value

abbrev first_of : Option Conflict → Option Conflict → Option Conflict
first_of none later = later
first_of (some found) later = some found

module _ (encode : IncidentRecord → Value) where
  -- 1. The freshness of the base version, for an entity that is there.
  abbrev pub check_version :
      SyncOperationType → SyncOperation → ℕ → Option IncidentRecord → Option Conflict
  check_version create op current server = none
  check_version _ op current none = none
  check_version _ op current (some r) =
      if is_behind op.base_state_version current
      then some (
        state_version_conflict,
        version_mismatch (base_of op.base_state_version) current,
        ("client_base_version", number (base_of op.base_state_version))
            ∷ ("server_current_version", number current)
            ∷ ("current_entity", encode r)
            ∷ [],
      )
      else none

  -- 3. A creation of what is there.
  abbrev pub check_new : SyncOperationType → SyncOperation → Option IncidentRecord → Option Conflict
  check_new create op (some r) =
      some (state_version_conflict, already_exists op.entity_id, ("existing_entity", encode r) ∷ [])
  check_new _ op server = none

-- 2. An update or a deletion of what is not there.
abbrev pub check_exists :
    SyncOperationType → SyncOperation → Option IncidentRecord → Option Conflict
check_exists create op server = none
check_exists _ op none =
    some (entity_not_found, does_not_exist op.entity_id, ("entity_id", string op.entity_id) ∷ [])
check_exists _ op (some r) = none

unfoldable pub evaluate_conflict :
    (IncidentRecord → Value) → SyncOperation → ℕ → Option IncidentRecord → Option Conflict
evaluate_conflict encode op current server =
    first_of (check_version encode op.operation_type op current server) (
      first_of (check_exists op.operation_type op server)
        (check_new encode op.operation_type op server))

-- The base version is not older than the server's, or there is none.
abbrev pub IsFresh : Option ℕ → ℕ → Type 0
IsFresh none current = Unit
IsFresh (some base) current = current ≤ base

-- What the engine lets through.
abbrev pub IsClear : SyncOperationType → Option ℕ → ℕ → Option IncidentRecord → Type 0
IsClear create base current none = Unit
IsClear create base current (some r) = ⊥
IsClear _ base current none = ⊥
IsClear _ base current (some r) = IsFresh base current

is_behind-IsFresh :
    (base : Option ℕ) (current : ℕ) → is_behind base current ≡ false → IsFresh base current
is_behind-IsFresh none current h = tt
is_behind-IsFresh (some base) current h = ground arith

not_behind : (base : Option ℕ) (current : ℕ) → IsFresh base current → is_behind base current ≡ false
not_behind none current h = refl
not_behind (some base) current h = ground arith

only_if :
    (found : Bool) (conflict : Conflict)
    → first_of (if found then some conflict else none) none ≡ none
    → found ≡ false
only_if true conflict h = cc
only_if false conflict h = refl

module _ (encode : IncidentRecord → Value) (op : SyncOperation) (current : ℕ) where
  abbrev checks : SyncOperationType → Option IncidentRecord → Option Conflict
  checks kind server =
      first_of (check_version encode kind op current server)
        (first_of (check_exists kind op server) (check_new encode kind op server))

  IsFresh-only :
      (kind : SyncOperationType) (r : IncidentRecord)
      → ((is_behind op.base_state_version current ≡ false) → checks kind (some r) ≡ none)
      → (checks kind (some r) ≡ none → is_behind op.base_state_version current ≡ false)
      → (checks kind (some r) ≡ none) ↔ IsFresh op.base_state_version current
  IsFresh-only kind r there back = (
    λ h. is_behind-IsFresh op.base_state_version current (back h),
    λ h. there (not_behind op.base_state_version current h),
  )

  checks-IsClear :
      (kind : SyncOperationType) (server : Option IncidentRecord)
      → (checks kind server ≡ none) ↔ IsClear kind op.base_state_version current server
  checks-IsClear create none = (λ h. tt, λ h. refl)
  checks-IsClear create (some r) = (λ h. cc, λ h. absurd h)
  checks-IsClear update none = (λ h. cc, λ h. absurd h)
  checks-IsClear update (some r) = IsFresh-only update r (λ h. rw h refl) (only_if _ _)
  checks-IsClear delete none = (λ h. cc, λ h. absurd h)
  checks-IsClear delete (some r) = IsFresh-only delete r (λ h. rw h refl) (only_if _ _)

  -- The engine finds no conflict in just these operations, whatever their payload, so whether a status
  -- may follow the present one is not looked at: a creation of an entity that the server lacks, and an
  -- update or a deletion of one that it has, from a base version that is not older than the server's,
  -- or from none.
  pub evaluate_conflict-IsClear :
      (server : Option IncidentRecord)
      → (evaluate_conflict encode op current server ≡ none)
        ↔ IsClear op.operation_type op.base_state_version current server
  unfolding evaluate_conflict
  evaluate_conflict-IsClear server = checks-IsClear op.operation_type server
