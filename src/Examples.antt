-- ===== src/Examples.antt =====
-- Concrete runs: each theorem with conditions at an input where they hold.
mod Codec
mod Glob
mod Store
mod Routes
mod Quiz
mod Answers
mod Connections
mod Boards
mod Waiting
mod Sessions
mod Joining
mod History
mod Meeting
mod Requests
