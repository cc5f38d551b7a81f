-- ===== src/Packet.antt =====
-- The control packets of include/mqtt5/protocol.
pub mod Framing
pub mod Publish
pub mod Reason
pub mod Puback
pub mod Suback
pub mod Subscribe
pub mod Unsubscribe
pub mod Disconnect
pub mod Shared
pub mod Will
pub mod Connect
pub mod Connack
pub mod Total
pub mod Ends
