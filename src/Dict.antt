-- ===== src/Dict.antt =====
-- Python's `dict` over keys with `==`: an association list in the order of insertion.
-- A write to a key that is there keeps its place; a new key goes to the end.
pub mod Laws
use agents_reality_layer.Prelude.{
  Bool, true, Option, none, some, List, [], ◌∷◌, map, Eq, ◌==◌, if◌then◌else◌, is_some,
}

abbrev pub Dict {ℓ} : Type ℓ → Type ℓ → Type ℓ
Dict K V = List (K × V)

module _ {ℓ} {K V : Type ℓ} ⦃e : Eq K⦄ where
  -- d.get(k)
  unfoldable pub get : Dict K V → K → Option V
  get [] k = none
  get ((j, v) ∷ d) k = if j == k then some v else get d k

  -- d[k] = v
  unfoldable pub put : Dict K V → K → V → Dict K V
  put [] k v = (k, v) ∷ []
  put ((j, w) ∷ d) k v = if j == k then (j, v) ∷ d else (j, w) ∷ put d k v

  -- d.pop(k, None)
  unfoldable pub pop : Dict K V → K → Dict K V
  pop [] k = []
  pop ((j, w) ∷ d) k = let rest = pop d k in if j == k then rest else (j, w) ∷ rest

  -- k in d
  abbrev pub contains : Dict K V → K → Bool
  contains d k = is_some (get d k)

-- d.values(), d.keys()
abbrev pub values {ℓ} : {K V : Type ℓ} → Dict K V → List V
values = map (λ e. e.1)

abbrev pub keys {ℓ} : {K V : Type ℓ} → Dict K V → List K
keys = map (λ e. e.0)
