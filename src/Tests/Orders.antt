-- ===== src/Tests/Orders.antt =====
-- Reading an order back from the test connector.
use agents_reality_layer.Prelude.{string_eq, ◌≡◌, refl, []}
use agents_reality_layer.Errors.{ok}
use agents_reality_layer.Connectors.{Library, cancel_order, read_order, normalize_shopify}
use agents_reality_layer.Connectors.Readback.{reported, cancel_order-readback}
use agents_reality_layer.Tests.Samples.{py, noon}

abbrev pub library : Library
library = record { fromisoformat = λ s. ok noon; observation_token = λ s. s; now = noon }

cancel_order-readback_example :
    normalize_shopify py library (read_order (cancel_order [] "act_a" "1001" "key" "f0").1 "1001")
    ≡ ok (reported library "1001" "cancelled")
cancel_order-readback_example =
    cancel_order-readback py library [] "act_a" "1001" "key" "f0" "1001" refl refl
