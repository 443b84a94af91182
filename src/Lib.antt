-- ===== src/Lib.antt =====
-- CIRT Lens, a security incident triage and response workbench: a model of its backend
-- (backend/app) and the theorems about it.
--
-- The program takes telemetry (authentication, endpoint, network and cloud events) through a
-- pipeline: detection rules give findings, which are mapped to ATT&CK techniques; events that share
-- entities and lie near in time are correlated into groups, which are scored and become incidents
-- with a playbook; analysts move incidents through a workflow, request and approve actions in pairs,
-- and execute them through a connector to the identity provider. Telemetry arrives in jobs that a
-- worker takes from a stream, and detection rules are stored with a life cycle.
--
-- Base: what the modules share: tests on numbers, lists, texts as sets, stable sorting.
-- Config: config.py, the settings that the model reads, with their defaults.
-- Telemetry: schemas/telemetry.py, the raw events and the findings.
-- Events, Store: models.py, errors.py and schemas/api.py, the rows and the results of handlers.
-- Detection: services/detection_engine.py. Rules has the registry, Travel, Mfa, Devices, EventRules
--   and Privilege one function for each of the source, and Run is run_detection.
-- Risk: services/risk_engine.py. Attack: services/attack_mapping.py. Playbook:
--   services/playbook_engine.py.
-- Correlation: services/correlation_engine.py. Score has connection_score and group_cohesion,
--   Candidates candidate_pairs, Groups connected_groups and its search, Infer
--   infer_incident_type, Graph build_correlation_graph.
-- Response: services/response_actions.py (Execute), repositories/incidents.py (Repository), the
--   approvals of platform_api.py (Approvals) and the case handlers of main.py (Workflow). TwoPerson
--   has the steps of the whole as an indexed type.
-- Connector: connectors.py, the Auth0 connector with its retries and circuit breaker, the fake one
--   and the routing between them.
-- Access: auth.py, the roles with their permissions and the principal of a request.
-- Incidents: create_or_update_incidents of services/correlation_engine.py. Counting has the counters
--   and sorted sets, Assess the assessment of a group, Cases the search for an open case, its
--   enrichment and the opening of a new one, Upsert the loop over the groups.
-- Pipeline: services/pipeline.py. Values and Fields have the JSON objects of stored events with the
--   schemas of schemas/telemetry.py that read them, History normalize and historical_context,
--   Process process_raw_telemetry.
-- Investigation: services/investigation_ai.py. Json has the values of a payload, Structure
--   validate_structure, Answer local_result and render, Investigate the rounds of investigate.
-- Catalog: the life cycle of stored rules in platform_api.py.
-- Ingest: the jobs of platform_api.py and the handling of a message by worker.py.
--
-- Conventions. Texts and times: times are microseconds; lower and upper know the ASCII letters;
-- reasons of findings are constructors with the values that the source formats in. Floats: the
-- cohesion of a group is an exact fraction, and min_group_cohesion_score a whole number. A set is a
-- list without repetitions in the order of insertion. The threshold of denied prompts is positive.
-- State is passed explicitly: a handler takes the database and gives its answer and the database
-- that it commits. The clock is read once in a request; in the connector it is a function of the
-- requests sent. Random ids and hashes are arguments. A JSON column is kept as its value. Tables are
-- lists in the order of insertion.
--
-- The session has autoflush off: a query on a column sees the table as it was flushed last, which
-- Incidents keeps beside the database; rows that are loaded are seen as they are in memory. A violated
-- constraint fails a run at once, where the session reports it at the next flush; both roll back all.
--
-- Code that is not in the repository is a parameter: the HTTP library is a function from the
-- requests sent to the reply, the connector that the response service calls is a record, the stream
-- gives an id or fails, the decoding of a token gives claims or fails, and the validation of
-- pydantic has taken place before a handler runs. The hashes of fingerprints and the search of a
-- text in a JSON column of the database are functions; so are the external model, from the requests
-- sent to its reply or a failure, and Python's text of a JSON value.
--
-- Fuel. The search of connected_groups runs on fuel, two more than the sum of the degrees, and is
-- shown to end within it. The rounds of investigate are counted down from the two that the source
-- allows. The redelivery of a message runs on fuel, and the configured number of attempts is shown to
-- be enough. The digits of a number run on the number itself, of which a division by ten leaves less.
--
-- Not modelled: the activity texts of events; the request to the external model and
-- validate_citations in services/investigation_ai.py; passwords and the decoding of tokens in
-- auth.py; the read-only handlers, the report and the dashboard; failures of the database other than
-- violated unique constraints and primary keys; concurrent transactions; metrics, logs, migrations,
-- benchmarks and the user interface.
pub mod Base
pub mod Config
pub mod Telemetry
pub mod Detection
pub mod Events
pub mod Risk
pub mod Attack
pub mod Playbook
pub mod Correlation
pub mod Store
pub mod Response
pub mod Connector
pub mod Catalog
pub mod Ingest
pub mod Access
pub mod Incidents
pub mod Pipeline
pub mod Investigation
