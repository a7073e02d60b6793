-- ===== src/Lib.antt =====
-- A verification library for the NEXUS disaster-response platform: the digital twin and its event
-- log, the overlay that routing reads, the incidents and their lifecycle, the governance of
-- recommendations, the hospitals and shelters, and the offline synchronisation.
--
-- The parts and how they interact. Domain events reach the digital twin
-- (digital_twin/state/state_manager.py), which checks them for repetition, runs the transition
-- rules of digital_twin/state/transitions.py, commits them to a versioned log, and writes the
-- statuses of roads and bridges through to the overlay (geospatial/routing/state_overlay.py). The
-- incident service keeps versioned records with an audit history and reports each creation and
-- each change of status to the twin. Recommendations (services/recommendations/service.py) are
-- made for one version of the twin; people with the right role approve or reject them, and every
-- step is kept in an append-only ledger. Field devices submit batches of operations
-- (services/sync/queue/processor.py), each of which is answered from a registry of processed
-- operations, checked for conflicts, and passed on to the incident service;
-- SMS messages (services/sms) become incidents too.
--
-- Base and its children hold what the parts share: Boolean tests and equality as an interface
-- (Base/Tests), lists (Base/Lists), dictionaries in insertion order (Base/Mapping), decimal texts and
-- `str.replace` (Base/Text), `str.strip` (Base/Whitespace), the values of a `Dict[str, Any]`
-- (Base/Values), signed integers (Base/Integers), stable sorting (Base/Sorting, Base/Order), numbered logs (Base/Numbered), and exceptions with
-- methods that read and write a state (Base/Exceptions). An exception keeps what was written before.
--
-- Schemas: the enumerations of services/api/app/schemas, digital_twin/entities and digital_twin/events.
-- Overlay: `StateOverlay`, one function per method; Overlay/Numbering and Overlay/Reads are its proofs.
-- Lifecycle: services/api/app/schemas/incident_lifecycle.py.
-- Twin: Twin/Entities and Twin/Events are the classes of digital_twin/entities and
--   digital_twin/events; Twin/Transitions is transitions.py; Twin/State is the manager's state, its
--   registration methods, `_commit_event` and the synchronisation with the overlay; Twin/Apply is
--   `apply_event` with every handler, of which Twin/Handling holds the endings and the handler of a road
--   event; Twin/Queries is `get_event` and `get_events`; Twin/Snapshot is
--   `create_snapshot`, `restore_from_snapshot`, `replay` and `fork`. Twin/Rule states once what it
--   takes for a property to survive every event, and Twin/Log, Twin/Capacity, Twin/Outcome,
--   and Twin/History use it; Twin/Replay and Twin/Cascade are about replays and about the propagation
--   from a bridge to its road.
-- Governance: Governance/Roles is governance/roles.py and governance/state_machine.py; Governance/Records
--   is contracts.py; Governance/Ledger is governance/audit_ledger.py; Governance/Service,
--   Governance/Preconditions, Governance/Decisions and Governance/Listing are service.py, all under
--   services/recommendations. Governance/Steps is the abstract step relation of the service's store,
--   Governance/Checking, Governance/Branches and Governance/Refinement prove the methods against it, and
--   Governance/Audit, Governance/Approval, Governance/Retry, Governance/Refusal and Governance/AuditLog
--   draw consequences.
-- Incidents: services/api/app/repositories/incident_service.py. Incidents/Records is what
--   `IncidentService` stores, its digital twin included; Incidents/Service and Incidents/Details are its
--   methods; Incidents/Changes is the abstract change relation of its store with the proof that the
--   methods keep to it, and Incidents/History, Incidents/Versions and Incidents/Repeated draw
--   consequences.
-- Facilities: services/api/app/repositories/facility_service.py. Facilities/Records is what
--   `FacilityService` is given and stores, its digital twin included; Facilities/Exposure is the
--   exposure to the active flood; Facilities/Service, Facilities/Entries and Facilities/Updates are the
--   creation, the reads, the updates of capacity and status and the history, and Facilities/Listing the
--   lists, which Facilities/Ordering and Facilities/Pages are about. A method for hospitals and its
--   twin for shelters are instances of one function.
--   Facilities/Changes is the abstract change relation of the store, Facilities/Requests proves that
--   the methods keep to it, and Facilities/Tables, Facilities/History, Facilities/Audit, Facilities/Flood
--   and Facilities/Outcome draw consequences.
-- Sync: services/sync. Sync/Contracts is contracts.py, Sync/Idempotency idempotency/store.py, Sync/Retry
--   retry/backoff.py, Sync/Ledger event_log/ledger.py, Sync/Conflict conflict_resolution/engine.py, and
--   Sync/Domain, Sync/Processor and Sync/Batch are queue/processor.py: the call of the incident service,
--   the pipeline of one operation, and the loop of a batch. Sync/Record, Sync/Once, Sync/Atomic and
--   Sync/Limits are proofs about the pipeline and the incident service below it; Incidents/Atomic
--   serves them.
-- Sms: services/sms. Sms/Contracts is contracts.py, Sms/Parser parser.py and Sms/Ingestion ingestion.py;
--   Sms/Validity, Sms/Replay and Sms/Intake are their proofs.
-- Simulation: services/simulation. Simulation/Models is models.py and impact.py, Simulation/Validator
--   validator.py, Simulation/Executor and Simulation/Preview executor.py: the events and impacts of a
--   modification, and the loop over them on a fork of the twin. The flood simulation and the exposure of
--   a road to its extent are a record of functions that the preview takes. Simulation/Applicable,
--   Simulation/Chain, Simulation/Promise and Simulation/Repeats are proofs.
-- Routing: geospatial/routing. Routing/Policy is constraints.py, which reads the edge data that Overlay
--   gives; Routing/Passage is its proofs.
-- Tests: concrete states, and the theorems applied to them.
--
-- Conventions. Times are whole numbers; lengths and speeds are whole numbers of a small unit; a
-- GeoJSON value is its canonical text. pydantic's `ge=0` is the type ℕ. Stored values are immutable
-- here, so a deep copy is the value. The clock and the generator of identifiers are functions that
-- the definitions take; so are the facility and incident services of a recommendation service, the
-- hash of a payload, the random part of a delay, the geometric test of a flood, the parsing of a
-- synchronised incident, the texts of synchronisation messages, the flood simulation, the tags of an
-- edge, and `str.upper` and `float` of the words of an SMS. No loop of the modelled code needs fuel
-- but the printing of a number, whose fuel exceeds its digits.
--
-- Not modelled. Locks: one call runs at a time. The wording of exceptions, and of results' messages.
-- The router's search and its costs, the hazard modules, the scoring engines, the evaluation of a test
-- route in a what-if scenario and its areas, the HTTP routes, the web client and the training of risk
-- models.
--
pub mod Base
pub mod Schemas
pub mod Overlay
pub mod Lifecycle
pub mod Twin
pub mod Governance
pub mod Incidents
pub mod Facilities
pub mod Tests
pub mod Sync
pub mod Sms
pub mod Simulation
pub mod Routing
