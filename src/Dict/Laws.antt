-- ===== src/Dict/Laws.antt =====
-- The laws of the dictionary: what a lookup sees after a write, and which values a predicate reaches.
use agents_reality_layer.Prelude.{
  ◌≡◌, refl, none, some, [], ◌∷◌, Eq, ◌==◌, beq_refl, if◌then◌else◌, arith, length, ◌+◌,
}
use agents_reality_layer.Dict.{Dict, get, put, pop}

module _ {ℓ} {K V : Type ℓ} ⦃e : Eq K⦄ where
  pub get-put :
      (d : Dict K V) (k j : K) (v : V) → get (put d k v) j ≡ (if k == j then some v else get d j)
  unfolding get put
  get-put [] k j v = refl
  get-put ((i, w) ∷ d) k j v =
      ground (arith, e.same_iff k j, e.same_iff i k, e.same_iff i j, get-put d k j v)

  pub get-put_self : (d : Dict K V) (k : K) (v : V) → get (put d k v) k ≡ some v
  get-put_self d k v = simp (get-put, beq_refl)

  pub get-pop : (d : Dict K V) (k j : K) → get (pop d k) j ≡ (if k == j then none else get d j)
  unfolding get pop
  get-pop [] k j = ground arith
  get-pop ((i, w) ∷ d) k j =
      ground (arith, e.same_iff k j, e.same_iff i k, e.same_iff i j, get-pop d k j)

  -- a new key makes the dictionary longer by one
  pub length-put_new :
      (d : Dict K V) (k : K) (v : V) → get d k ≡ none → length (put d k v) ≡ length d + 1
  unfolding get put
  length-put_new [] k v h = refl
  length-put_new ((i, w) ∷ d) k v h = ground (arith, length-put_new d k v)
