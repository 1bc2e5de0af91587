-- ===== src/RealTime.antt =====
-- backend-go/real_time: the service that runs a quiz over WebSocket connections.
pub mod Cache
pub mod Redis
pub mod Tracker
pub mod Message
pub mod Registry
pub mod Leaderboard
pub mod Responder
pub mod Consumer
pub mod Handler
pub mod Rounds
pub mod Answering
pub mod Joining
pub mod Ending
pub mod Reading
pub mod Restart
pub mod Queues
pub mod App
pub mod Entering
pub mod Restarted
pub mod Locking
pub mod Running
pub mod Consuming
pub mod Game
pub mod Opening
pub mod Scoring
