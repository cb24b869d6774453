-- ===== src/Accessors.antt =====
-- The methods by which users read results, events and invocations.
pub mod Results
pub mod Events
pub mod Invocations
pub mod Reading
