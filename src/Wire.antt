-- ===== src/Wire.antt =====
-- include/mqtt5/transport/data_fetcher.hpp and the wire types of include/mqtt5/protocol.
pub mod Fetcher
pub mod Fetchers
pub mod FixedInt
pub mod VarlenInt
pub mod Text
pub mod Total
pub mod Stream
