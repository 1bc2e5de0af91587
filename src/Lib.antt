-- ===== src/Lib.antt =====
-- Verification of the Go services of try-it, a live quiz: a host starts a session, users join by its
-- code, every question goes to the host's screen, the participants answer, and a table of points is
-- shown after each question.
--
-- The services and the files here:
--   Shared       backend-go/shared and backend-go/real_time/models: quizzes, answers, tables, tokens;
--                Name says which ids are one word of a routing key and one part of a key of the store.
--   RealTime     backend-go/real_time. Registry is ws/connections.go, Tracker is ws/quiz_tracker.go over
--                the interface Cache of cache/cache.go, Message, Handler and Responder are ws/message.go,
--                ws/handler.go and ws/responses.go, Leaderboard is the client of leaderboard/leaderboard.go
--                with GetLeaderboard, Consumer is rabbit/question.go and rabbit/session.go, Queues
--                their declarations of queues with rabbit/rabbit.go, and Redis is cache/redis/redis.go,
--                which fills Cache. Their children hold the proofs. Rounds, Answering, Scoring, Joining,
--                Ending, Reading, Restart and Restarted put the parts together: what one delivery of the broker,
--                one connection or the messages of a participant do to tracker and sockets, and what a
--                new tracker reads from the store. Consuming has the loops of the consumers over their
--                deliveries, Game and Opening their theorems; App is app/manager.go; Running is the
--                whole service as a step relation over the handlers and the three deliveries, with
--                Registry/Locks and Locking on the lock of the registry.
--   LeaderBoard  backend-go/LeaderBoardService: points, tables and counts of options.
--   Session      backend-go/SessionService: Storage is Storage/Redis/redis.go, Broker is Rabbit, Manager
--                is Game/Game.go, Generator is utils/GenerateSessionCode.go, Handlers are the HTTP
--                handlers, Server is httpServer/httpServer.go with the CORS middleware and the
--                routes, Rooms is Handlers/ws_list_handler.go with the deletion of a user.
--   Hosting      a session over both services: it is created and joined by HTTP in Session, its start is
--                delivered, both users connect and the first question is triggered in RealTime.
--   Results      the board of a question over both services: RealTime asks, LeaderBoard answers.
--   Http         what the handlers use of net/http.
--   Prelude      Go's integers, maps, texts and outcomes; Examples holds concrete runs.
--
-- How the services meet: Session publishes session.start, question.<code>.start and session.end, the
-- consumers of RealTime take them; RealTime posts the answers of a question to LeaderBoard and sends
-- the table to the host and the counts to the participants.
--
-- How Go is read. A function by clauses stands for each function or method, with its state as argument
-- and result. `Run` says how a call ends: it returns, it panics, or it waits for a lock for ever. A map
-- is an association list in the order in which a range loop meets it; Go leaves that order open, and
-- the theorems hold for every list. An int is an integer; only succ_int, on what a client sends, can
-- leave 64 bits, and wraps around. A time is a number of nanoseconds from Go's zero time. Loops are
-- structural recursion on lists, or on the number of tries left for the three codes of NewSession and
-- of characters left for a code. The loops over the cursor of SCAN in RealTime/Redis run on fuel, as
-- many calls as the parameter `rounds` says; the calls of one full iteration are enough, by the laws
-- of Redis, and any more give the same result.
--
-- Parameters, for code that is not in the repository: which route a request matches, whether a write
-- to a socket succeeds, the answers of the broker, of Redis and of the HTTP calls, JWT signing and
-- parsing (that a signed token reads back, and is not the empty text, is a hypothesis of Hosting),
-- the arithmetic of float64, JSON documents, and the drawn ids and characters. Ieee in
-- LeaderBoard/Ieee, RedisLaws in Session/Codes, CommandLaws and JsonLaws in RealTime/Redis/Laws and
-- AmqpLaws in RealTime/Queues/Routing say what is used of float64, Redis, JSON and the topic
-- exchange; the examples give each a concrete instance. CommandLaws are of a server that answers,
-- and of keys that do not expire meanwhile. CacheLaws in RealTime/Cache is the contract of a store
-- of quizzes, which the tracker uses and the Redis client fills.
--
-- Not modelled: goroutines interleaved within one call (each call is one step; the goroutines that a
-- reader of RealTime starts run in any order of steps), pings and deadlines of
-- sockets, logging, headers other than the status, start-up, and the services in other languages.
pub mod Prelude
pub mod Shared
pub mod RealTime
pub mod Http
pub mod LeaderBoard
pub mod Session
pub mod Hosting
pub mod Results
mod Examples
