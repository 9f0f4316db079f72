-- ===== src/Connectors/Intake.antt =====
-- src/reality_layer/connectors/observe.py and persistence.py: a payload is stored as it came, and its
-- observation becomes a row of the observation log, once. The object store and the query of the
-- repository are parameters; the row to add is a result.
use Prim.Native.String.{◌++◌ as append}
use agents_reality_layer.Prelude.{ℕ, String, Bool, true, false, Option, none, some}
use agents_reality_layer.Prelude.Time.{DateTime}
use agents_reality_layer.Json.{Object}
use agents_reality_layer.Errors.{Result, ok, ◌>>=◌}
use agents_reality_layer.WorldState.Models.{Observation}

-- what the object store says of a stored payload
pub record StoredObject : Type 0 where
  pub ref : String
  pub payload_hash : String
  pub size_bytes : ℕ

pub record ObservedPayload : Type 0 where
  pub observation : Observation
  pub raw_payload : StoredObject

pub record ObservationLog : Type 0 where
  pub tenant_id : String
  pub observation_id : String
  pub connector_id : String
  pub external_object_type : String
  pub external_object_id : String
  pub external_event_id : String
  pub source_timestamp : DateTime
  pub observed_at : DateTime
  pub payload_hash : String
  pub payload_ref : String
  pub connector_version : String
  pub schema_version : String
  pub correlation_id : String
  pub ingest_outcome : String

pub record PersistedObservation : Type 0 where
  pub observation_id : String
  pub created : Bool

-- `observe_payload`; `encode` is `json.dumps` with sorted keys and no spaces, as bytes
unfoldable pub observe_payload :
    (Object → String)
    → String
    → Object
    → (Object → Result Observation)
    → (String → String → String → Result StoredObject)
    → Result ObservedPayload
observe_payload encode tenant_id payload normalize put_raw_payload = do
  observation ← normalize payload
  raw_payload ← put_raw_payload tenant_id (encode payload) "application/json"
  ok (record { observation = observation; raw_payload = raw_payload })

abbrev pub log_row : String → ObservedPayload → String → String → String → ObservationLog
log_row tenant_id observed connector_version schema_version hex = record {
  tenant_id = tenant_id;
  observation_id = observed.observation.observation_id;
  connector_id = observed.observation.connector;
  external_object_type = observed.observation.object_type;
  external_object_id = observed.observation.object_id;
  external_event_id = observed.observation.observation_id;
  source_timestamp = observed.observation.observed_at;
  observed_at = observed.observation.observed_at;
  payload_hash = observed.raw_payload.payload_hash;
  payload_ref = observed.raw_payload.ref;
  connector_version = connector_version;
  schema_version = schema_version;
  correlation_id = append "cor_" hex;
  ingest_outcome = "accepted";
}

-- `ObservationIngestionService.persist`: the answer, and the row that is added
unfoldable pub persist :
    (String → String → Option ObservationLog)
    → String
    → ObservedPayload
    → String
    → String
    → String
    → PersistedObservation × Option ObservationLog
persist get tenant_id observed connector_version schema_version hex =
    let observation_id = observed.observation.observation_id in
    elim (get tenant_id observation_id) [
      | some _ ↦ (record { observation_id = observation_id; created = false }, none)
      | none ↦ (
        record { observation_id = observation_id; created = true },
        some (log_row tenant_id observed connector_version schema_version hex),
      )
    ]
