-- ===== src/RealityGit/Chain.antt =====
-- A chain is extended by a record that names the last hash and carries its own.
use agents_reality_layer.Prelude.{
  string_eq, option_eq, String, Option, none, some, List, [], ◌∷◌, ◌++◌, ◌≡◌, refl, ==_iff, arith,
  get_last?,
}
use agents_reality_layer.Json.{Platform, hash_json}
use agents_reality_layer.Errors.{ok}
use agents_reality_layer.RealityGit.{Link, check_from, head_hash}

module _ {E : Type 0} (py : Platform) (link : Link E) where
  -- what one round of the loop has found, when the loop passes
  pub check_from-cons :
      (start : Option String) (e : E) (rest : List E)
      → check_from py link start (e ∷ rest) ≡ ok tt
      → (link.previous e ≡ start)
        × (link.digest e ≡ hash_json py (link.body e))
        × (check_from py link (some (link.digest e)) rest ≡ ok tt)
  unfolding check_from
  check_from-cons start e rest h =
      ground
        (arith, ==_iff (link.previous e) start, ==_iff (link.digest e) (hash_json py (link.body e)))

  pub check_from_intro :
      (start : Option String) (e : E) (rest : List E)
      → link.previous e ≡ start
      → link.digest e ≡ hash_json py (link.body e)
      → check_from py link (some (link.digest e)) rest ≡ ok tt
      → check_from py link start (e ∷ rest) ≡ ok tt
  unfolding check_from
  check_from_intro start e rest p d h =
      ground
        (arith, ==_iff (link.previous e) start, ==_iff (link.digest e) (hash_json py (link.body e)))

  pub check_from-snoc :
      (start : Option String) (es : List E) (e : E)
      → check_from py link start es ≡ ok tt
      → link.previous e ≡ head_hash link start es
      → link.digest e ≡ hash_json py (link.body e)
      → check_from py link start (es ++ e ∷ []) ≡ ok tt
  check_from-snoc start [] e h p d = check_from_intro start e [] p d (unfold check_from in refl)
  check_from-snoc start (x ∷ es) e h p d =
      let (q, c, r) = check_from-cons start x es h in
      check_from_intro start x (es ++ e ∷ []) q c
        (check_from-snoc (some (link.digest x)) es e r p d)

  -- the head of a chain that ends in a record
  pub head_hash-snoc :
      (start : Option String) (es : List E) (e : E)
      → head_hash link start (es ++ e ∷ []) ≡ some (link.digest e)
  head_hash-snoc start [] e = refl
  head_hash-snoc start (x ∷ es) e = head_hash-snoc (some (link.digest x)) es e

  -- the head of a chain is the hash of its last record
  pub head_hash-get_last? :
      (es : List E)
      → head_hash link none es
        ≡ (elim (get_last? es) [ none ↦ none | some e ↦ some (link.digest e) ])
  head_hash-get_last? [] = refl
  head_hash-get_last? (x ∷ es) = later none x es
    where
      later :
          (start : Option String) (x : E) (es : List E)
          → head_hash link start (x ∷ es)
            ≡ (elim (get_last? (x ∷ es)) [ none ↦ none | some e ↦ some (link.digest e) ])
      later start x [] = refl
      later start x (y ∷ es) = later (some (link.digest x)) y es
