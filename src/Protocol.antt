-- ===== src/Protocol.antt =====
-- The wire protocol of the extension: extension/src/background/protocol.ts.
pub mod Frames
pub mod Json
pub mod Parts
pub mod RoomState
pub mod Playlist
pub mod Decode
pub mod Server
pub mod Encoder
pub mod Valid
pub mod Names
pub mod RoundTrip
pub mod Rules
pub mod Sound
