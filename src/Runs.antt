-- ===== src/Runs.antt =====
-- Runs of the model on concrete inputs.
mod Wire
mod System
mod WebSocket
mod Messages
mod Steps
mod Replies
mod Peer
mod Transfers
mod Session
mod Frames
mod Http
mod Tls
mod Main
