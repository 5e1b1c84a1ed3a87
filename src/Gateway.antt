-- ===== src/Gateway.antt =====
-- The order gateway in front of the paper engine: app/execution/gateway.py.
pub mod Submit
pub mod Safety
pub mod Tests
