-- ===== src/Worker.antt =====
-- `verify_action` and `run_once` of src/reality_layer/worker/verifier.py, without a database: the order is read back
-- until the action is verified or the last attempt is made. What an attempt meets is a parameter:
-- the observation that the connector normalizes or the exception it raises, what `uuid4` and the clocks
-- give. The pauses between attempts change no state and are left out.
pub mod Verifier
