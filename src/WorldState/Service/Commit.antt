-- ===== src/WorldState/Service/Commit.antt =====
-- `_latest_hash` and `_create_commit` of src/reality_layer/world_state/service.py, and
-- `validate_commit_chain` of src/reality_layer/reality_git/validation.py.
use Prim.Native.String.{◌++◌ as append}
use agents_reality_layer.Prelude.{
  string_eq, pair_eq, String, Option, none, some, List, map, if◌then◌else◌,
}
use agents_reality_layer.Prelude.Text.{truthy}
use agents_reality_layer.Dict
use agents_reality_layer.Json.{
  Platform, Value, str, arr, obj, end, field, Object, fields_of, items_of, hash_json,
}
use agents_reality_layer.Errors.{Result, ok, err, key_error}
use agents_reality_layer.RealityGit.{Link, check_chain}
use agents_reality_layer.WorldState.Models.{CommitRecord, optional}
use agents_reality_layer.WorldState.Service.{WorldStateService}

-- the dictionary whose hash a commit carries
abbrev pub commit_body : CommitRecord → Value
commit_body c = obj (
    field "commit_id" (str c.commit_id) (
      field "tenant_id" (str c.tenant_id) (
        field "parent_commit_id" (optional c.parent_commit_id) (
          field "entity_type" (str c.entity_type) (
            field "entity_id" (str c.entity_id) (
              field "cause" (str c.cause) (
                field "observation_ids" (arr (items_of (map str c.observation_ids))) (
                  field "before" (obj (fields_of c.before)) (
                    field "after" (obj (fields_of c.after)) (
                      field "semantic_diff" (obj (fields_of c.semantic_diff))
                        (field "previous_hash" (optional c.previous_hash) end)))))))))))

abbrev pub commit_link : Link CommitRecord
commit_link = record {
  kind = "Commit";
  id_of = λ c. c.commit_id;
  previous = λ c. c.previous_hash;
  digest = λ c. c.hash;
  body = commit_body;
}

abbrev pub validate_commit_chain : Platform → List CommitRecord → Result (Unit {0})
validate_commit_chain py = check_chain py commit_link

-- the hash of the commit with the id
abbrev pub hash_of_commit : WorldStateService → String → String → Result (Option String)
hash_of_commit s tenant_id commit_id = elim (Dict.get s.commits (tenant_id, commit_id)) [
  | none ↦ err (key_error commit_id)
  | some commit ↦ ok (some commit.hash)
]

-- `_latest_hash`
unfoldable pub latest_hash : WorldStateService → String → Result (Option String)
latest_hash s tenant_id = elim (Dict.get s.latest_commit tenant_id) [
  | none ↦ ok none
  | some commit_id ↦ if truthy commit_id then hash_of_commit s tenant_id commit_id else ok none
]

-- the keyword arguments of `_create_commit`
pub record Change : Type 0 where
  pub tenant_id : String
  pub entity_type : String
  pub entity_id : String
  pub cause : String
  pub observation_ids : List String
  pub before : Object
  pub after : Object
  pub semantic_diff : Object
  pub assurance_level : String

-- the record without its hash, whose content is hashed
abbrev pub draft : WorldStateService → Change → Option String → String → CommitRecord
draft s c previous_hash hex = record {
  commit_id = append "cmt_" hex;
  tenant_id = c.tenant_id;
  parent_commit_id = Dict.get s.latest_commit c.tenant_id;
  entity_type = c.entity_type;
  entity_id = c.entity_id;
  cause = c.cause;
  observation_ids = c.observation_ids;
  before = c.before;
  after = c.after;
  semantic_diff = c.semantic_diff;
  assurance_level = c.assurance_level;
  previous_hash = previous_hash;
  hash = "";
}

abbrev pub sealed : Platform → CommitRecord → CommitRecord
sealed py c = record c { hash = hash_json py (commit_body c) }

abbrev pub store_commit : WorldStateService → CommitRecord → WorldStateService
store_commit s c = record s {
  commits = Dict.put s.commits (c.tenant_id, c.commit_id) c;
  latest_commit = Dict.put s.latest_commit c.tenant_id c.commit_id;
}

-- `_create_commit`; an unknown latest commit raises before anything is written
unfoldable pub create_commit :
    Platform → WorldStateService → Change → String → Result CommitRecord × WorldStateService
unfolding latest_hash
create_commit py s c hex = elim (latest_hash s c.tenant_id) [
  | err e ↦ (err e, s)
  | ok previous_hash ↦
      let commit = sealed py (draft s c previous_hash hex) in (ok commit, store_commit s commit)
]
