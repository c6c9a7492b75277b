-- ===== src/Fleet.antt =====
-- nff-fleet (observability/nff-fleet/nff_fleet): the command plane between the devices' MQTT topics and the
-- services.
pub mod Messages
pub mod Registry
pub mod Telemetry
pub mod Router
pub mod Examples
