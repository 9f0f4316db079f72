-- ===== src/RealityGit/Tamper.antt =====
-- Two chains with one head hold the same records, or two of their records show a collision of the
-- hash.
use agents_reality_layer.Prelude.{
  String, Option, some, List, [], ◌∷◌, ◌≡◌, ◌≢◌, ◌⊎◌, inl, inr, sym, ◌∙◌, length, arith,
}
use agents_reality_layer.Json.{Platform, hash_json, canonicalize}
use agents_reality_layer.Json.Laws.{Value-discrete}
use agents_reality_layer.Errors.{ok}
use agents_reality_layer.RealityGit.{Link, check_from, head_hash}
use agents_reality_layer.RealityGit.Chain.{check_from-cons}

-- Two lists of one length whose elements are related one by one.
abbrev pub Pairwise {ℓ} : {E : Type ℓ} → (E → E → Type 0) → List E → List E → Type 0
Pairwise R [] [] = Unit
Pairwise R (e ∷ es) (f ∷ fs) = R e f × Pairwise R es fs
Pairwise R _ _ = ⊥

module _ {E : Type 0} (py : Platform) (link : Link E) where
  -- At one place the lists have records with different contents and one hash.
  abbrev pub Clash : List E → List E → Type 0
  Clash (e ∷ es) (f ∷ fs) =
      (canonicalize (link.body e) ≢ canonicalize (link.body f))
        × (hash_json py (link.body e) ≡ hash_json py (link.body f))
      ⊎ Clash es fs
  Clash _ _ = ⊥

  module _ (Same : E → E → Type 0)
      (same_of : (e f : E)
        → canonicalize (link.body e) ≡ canonicalize (link.body f)
        → link.digest e ≡ link.digest f
        → Same e f × (link.previous e ≡ link.previous f)) where
    pub check_from-Pairwise :
        (p q : Option String) (es fs : List E)
        → length es ≡ length fs
        → check_from py link p es ≡ ok tt
        → check_from py link q fs ≡ ok tt
        → head_hash link p es ≡ head_hash link q fs
        → ((p ≡ q) × Pairwise Same es fs) ⊎ Clash es fs
    check_from-Pairwise p q [] [] n hp hq h = inl (h, tt)
    check_from-Pairwise p q [] (f ∷ fs) n hp hq h = absurd (omega arith)
    check_from-Pairwise p q (e ∷ es) [] n hp hq h = absurd (omega arith)
    check_from-Pairwise p q (e ∷ es) (f ∷ fs) n hp hq h =
        let (pe, de, re) = check_from-cons py link p e es hp in
        let (pf, df, rf) = check_from-cons py link q f fs hq in
        go pe de pf df (
          check_from-Pairwise (some (link.digest e)) (some (link.digest f)) es fs (omega arith) re
            rf h)
      where
        go :
            link.previous e ≡ p
            → link.digest e ≡ hash_json py (link.body e)
            → link.previous f ≡ q
            → link.digest f ≡ hash_json py (link.body f)
            → ((some (link.digest e) ≡ some (link.digest f)) × Pairwise Same es fs) ⊎ Clash es fs
            → ((p ≡ q) × Pairwise Same (e ∷ es) (f ∷ fs)) ⊎ Clash (e ∷ es) (f ∷ fs)
        go pe de pf df (inr c) = inr (inr c)
        go pe de pf df (inl (d, rest)) =
            let same_digest : link.digest e ≡ link.digest f = cc in
            elim (Value-discrete (canonicalize (link.body e)) (canonicalize (link.body f))) [
              | yes c ↦
                  let (same, previous) = same_of e f c same_digest in
                  inl (sym pe ∙ previous ∙ pf, (same, rest))
              | no n ↦ inr (inl (n, sym de ∙ same_digest ∙ df))
            ]
