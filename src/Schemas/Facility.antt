-- ===== src/Schemas/Facility.antt =====
-- services/api/app/schemas/hospital.py and shelter.py: the statuses, their texts, and reading a text
-- back as an enumeration's constructor does.
use ai_powered_respiratory_h.Base.{
  ℕ, String, ◌≡◌, refl, ◌↔◌, true, arith, Option, some, none, Eq, eq_by, nat_beq, ◌==◌, string_eq,
  if◌then◌else◌,
}

pub data HospitalStatus : Type 0 where
  operational overloaded evacuating closed : HospitalStatus

abbrev pub hospital_rank : HospitalStatus → ℕ
hospital_rank operational = 0
hospital_rank overloaded = 1
hospital_rank evacuating = 2
hospital_rank closed = 3

pub hospital_rank_iff :
    (a b : HospitalStatus) → (nat_beq (hospital_rank a) (hospital_rank b) ≡ true) ↔ (a ≡ b)
hospital_rank_iff a b = ground arith

instance abbrev pub hospital_status_eq : Eq HospitalStatus
hospital_status_eq = eq_by hospital_rank hospital_rank_iff

pub data ShelterStatus : Type 0 where
  open_shelter at_capacity standby closed_shelter : ShelterStatus

abbrev pub shelter_rank : ShelterStatus → ℕ
shelter_rank open_shelter = 0
shelter_rank at_capacity = 1
shelter_rank standby = 2
shelter_rank closed_shelter = 3

pub shelter_rank_iff :
    (a b : ShelterStatus) → (nat_beq (shelter_rank a) (shelter_rank b) ≡ true) ↔ (a ≡ b)
shelter_rank_iff a b = ground arith

instance abbrev pub shelter_status_eq : Eq ShelterStatus
shelter_status_eq = eq_by shelter_rank shelter_rank_iff

-- `status.value`
abbrev pub hospital_value : HospitalStatus → String
hospital_value operational = "OPERATIONAL"
hospital_value overloaded = "OVERLOADED"
hospital_value evacuating = "EVACUATING"
hospital_value closed = "CLOSED"

abbrev pub shelter_value : ShelterStatus → String
shelter_value open_shelter = "OPEN"
shelter_value at_capacity = "AT_CAPACITY"
shelter_value standby = "STANDBY"
shelter_value closed_shelter = "CLOSED"

-- `HospitalStatus(text)`: a text that is no member's value is a ValueError.
unfoldable pub parse_hospital_status : String → Option HospitalStatus
parse_hospital_status text =
    if text == "OPERATIONAL"
    then some operational
    else if text == "OVERLOADED"
    then some overloaded
    else if text == "EVACUATING"
    then some evacuating
    else if text == "CLOSED"
    then some closed
    else none

unfoldable pub parse_shelter_status : String → Option ShelterStatus
parse_shelter_status text =
    if text == "OPEN"
    then some open_shelter
    else if text == "AT_CAPACITY"
    then some at_capacity
    else if text == "STANDBY"
    then some standby
    else if text == "CLOSED"
    then some closed_shelter
    else none

-- Every status is read back from its value.
pub parse_hospital_status-value :
    (status : HospitalStatus) → parse_hospital_status (hospital_value status) ≡ some status
unfolding parse_hospital_status
parse_hospital_status-value operational = refl
parse_hospital_status-value _ = refl

pub parse_shelter_status-value :
    (status : ShelterStatus) → parse_shelter_status (shelter_value status) ≡ some status
unfolding parse_shelter_status
parse_shelter_status-value open_shelter = refl
parse_shelter_status-value _ = refl
