-- ===== src/Connectors/Readback.antt =====
-- What the Shopify test connector reports of an order after a cancellation.
use agents_reality_layer.Prelude.{
  string_eq, String, Bool, true, false, ◌||◌, [], ◌∷◌, ◌≡◌, refl, ◌==◌, ==_iff, any, leb,
  if◌then◌else◌, inl, inr, Bool-cases, subst,
}
use agents_reality_layer.Prelude.Text.{truthy}
use agents_reality_layer.Dict
use agents_reality_layer.Json.{Platform, str}
use agents_reality_layer.Errors.{ok}
use agents_reality_layer.WorldState.Models.{Observation}
use agents_reality_layer.Connectors.{
  Library, CancelledOrders, cancel_order, read_order, normalize_shopify, required_string,
  validate_observation, observed_at,
}
use Prim.Native.String.{◌++◌ as append, count}

-- the orders that are cancelled after a cancellation
pub any-cancel_order :
    (c : CancelledOrders) (a i k hex j : String)
    → any (λ x. x == j) (cancel_order c a i k hex).1 ≡ (i == j || any (λ x. x == j) c)
unfolding cancel_order
any-cancel_order c a i k hex j = elim (Bool-cases (any (λ x. x == i) c)) [
  | inr e ↦ rw (e, cancel_order) refl
  | inl e ↦
      rw (e, cancel_order)
        (elim (Bool-cases (i == j)) [
          | inl same ↦ rw same (subst (λ x. any (λ y. y == x) c ≡ true) ((==_iff i j).0 same) e)
          | inr other ↦ rw other refl
        ])
]

-- an order as the connector reports it
abbrev pub reported : Library → String → String → Observation
reported lib j status = record {
  observation_id = append "obs_shopify_" (lib.observation_token j);
  connector = "shopify";
  object_type = "order";
  object_id = j;
  observed_at = lib.now;
  payload = ("id", str j) ∷ ("status", str status) ∷ [];
}

normalize-reported :
    (py : Platform) (lib : Library) (j : String) (b : Bool)
    → truthy j ≡ true
    → leb (count j) 255 ≡ true
    → normalize_shopify py lib
        (("id", str j) ∷ ("status", str (if b then "cancelled" else "open")) ∷ [])
      ≡ ok (reported lib j (if b then "cancelled" else "open"))
unfolding normalize_shopify required_string observed_at validate_observation Dict.get
normalize-reported py lib j true t n =
    rw (t, n, normalize_shopify, required_string, validate_observation) refl
normalize-reported py lib j false t n =
    rw (t, n, normalize_shopify, required_string, validate_observation) refl

-- what the connector says of an order
abbrev pub said : CancelledOrders → String → String
said c j = if any (λ x. x == j) c then "cancelled" else "open"

pub normalize-read_order :
    (py : Platform) (lib : Library) (c : CancelledOrders) (j : String)
    → truthy j ≡ true
    → leb (count j) 255 ≡ true
    → normalize_shopify py lib (read_order c j) ≡ ok (reported lib j (said c j))
unfolding read_order
normalize-read_order py lib c j t n = normalize-reported py lib j (any (λ x. x == j) c) t n

-- Reading an order back after a cancellation and normalizing what was read gives an observation of
-- that order, with the status `cancelled` if it is the order that was cancelled or was cancelled
-- before, and the status `open` otherwise. The id of the order has 1 to 255 characters.
pub cancel_order-readback :
    (py : Platform) (lib : Library) (c : CancelledOrders) (action_id i key hex j : String)
    → truthy j ≡ true
    → leb (count j) 255 ≡ true
    → normalize_shopify py lib (read_order (cancel_order c action_id i key hex).1 j)
      ≡ ok (reported lib j (if i == j || any (λ x. x == j) c then "cancelled" else "open"))
unfolding read_order
cancel_order-readback py lib c a i k hex j t n =
    subst
      (λ b.
        normalize_shopify py lib (read_order (cancel_order c a i k hex).1 j)
        ≡ ok (reported lib j (if b then "cancelled" else "open")))
      (any-cancel_order c a i k hex j)
      (normalize-reported py lib j (any (λ x. x == j) (cancel_order c a i k hex).1) t n)
