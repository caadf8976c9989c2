-- ===== src/Protocol.antt =====
-- racelink/protocol: packet bodies, the rule table and the reply codec.
pub mod Struct
pub mod Offset
pub mod Control
pub mod Bodies
pub mod Codec
pub mod Rules
