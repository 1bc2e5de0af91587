-- ===== src/Session.antt =====
-- backend-go/SessionService: sessions and their codes, the HTTP handlers of the quiz's life, and the
-- list of who is connected to a waiting room.
pub mod Storage
pub mod Broker
pub mod Manager
pub mod Handlers
pub mod Codes
pub mod Generator
pub mod Life
pub mod Rooms
pub mod Server
