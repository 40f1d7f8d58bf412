-- ===== src/Messages.antt =====
-- Edge/edgemessages.{h,cpp}, Edge/edgecontrollermessages.cpp: the messages between the nodes and
-- their forms on the wire.
pub mod Rpc
pub mod Wire
pub mod AppState
pub mod Request
pub mod Response
pub mod Containers
mod Tests
