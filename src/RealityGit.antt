-- ===== src/RealityGit.antt =====
-- src/reality_layer/reality_git/validation.py: hash chains. The two validators are one loop over
-- two kinds of record, so the loop is written once, over what a record shows of itself.
pub mod Chain
pub mod Tamper
use Prim.Native.String.{◌++◌ as append}
use agents_reality_layer.Prelude.{
  string_eq, option_eq, String, Option, none, some, List, [], ◌∷◌, ◌!=◌, if◌then◌else◌,
}
use agents_reality_layer.Json.{Platform, Value, hash_json}
use agents_reality_layer.Errors.{Result, ok, err, value_error}

-- What the validation reads of a record of a chain.
pub record Link (E : Type 0) : Type 0 where
  pub kind : String
  pub id_of : E → String
  pub previous : E → Option String
  pub digest : E → String
  pub body : E → Value

module _ {E : Type 0} (py : Platform) (link : Link E) where
  -- the loop, from the hash of the record before
  unfoldable pub check_from : Option String → List E → Result (Unit {0})
  check_from previous_hash [] = ok tt
  check_from previous_hash (e ∷ rest) =
      let later = check_from (some (link.digest e)) rest in
      if link.previous e != previous_hash
      then err (
          value_error
            (append link.kind (append " chain link mismatch at " (append (link.id_of e) "."))))
      else if link.digest e != hash_json py (link.body e)
      then err
          (value_error (append link.kind (append " hash mismatch at " (append (link.id_of e) "."))))
      else later

  abbrev pub check_chain : List E → Result (Unit {0})
  check_chain = check_from none

-- the hash that the next record must name
abbrev pub head_hash : {E : Type 0} → Link E → Option String → List E → Option String
head_hash link start [] = start
head_hash link start (e ∷ rest) = head_hash link (some (link.digest e)) rest
