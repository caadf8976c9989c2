-- ===== src/Transport.antt =====
-- racelink/transport: the USB link to the gateway.
pub mod Serial
pub mod Ports
pub mod Address
