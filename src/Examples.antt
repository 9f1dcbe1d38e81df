-- ===== src/Examples.antt =====
-- The definitions at work on concrete inputs.
mod Buffers
mod Requests
mod Sessions
mod Streams
mod Programs
mod Players
mod Descriptions
mod Datagrams
mod Frames
mod Connections
mod Splitting
mod Dialogues
mod Challenges
mod Messages
