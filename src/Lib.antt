-- ===== src/Lib.antt =====
-- TradeBench, a benchmark for trading systems: contestants upload an order book, a sandbox runs it,
-- bots send it orders, the ingester turns the telemetry into figures, the scorer into a score, and
-- the leaderboard shows it. The services are Go programs under apps/ that talk over Kafka.
--
-- Common        what all parts share: tests, integers and their 64-bit reading, Go maps, sorting;
--               Process (a `main` with its goroutines, its signals and its end), Kafka (the
--               settings of its readers and writers), Json (messages as objects with members)
-- Ingester      Book (internal/correctness/orderbook.go), Validator (validator.go beside it),
--               Histogram (internal/histogram/hdr.go), Window (internal/window/window.go), Consumer
--               (internal/consumer/kafka.go and internal/publisher/kafka.go), Database
--               (internal/db/timescale.go), with Database/Row for the row of a run
-- Submission    Tracker (internal/status/tracker.go), Listener (internal/consumer/kafka.go),
--               FileCheck (internal/validator/validator.go), Upload (internal/handler/upload.go,
--               with the route for a status in cmd/main.go), Store (internal/store/minio.go)
-- Gateway       Auth (internal/auth/jwt.go), RateLimit (internal/ratelimit/limiter.go),
--               Server (cmd/main.go), with Server/Token for the handler of tokens, Proxy
--               (internal/proxy/proxy.go)
-- Sandbox       Runner (internal/runner/docker.go), DockerClient (docker_linux.go and
--               docker_other.go beside it), Consumer (internal/consumer/kafka.go, with
--               internal/puller/minio.go), Consumer/Publisher (internal/publisher/kafka.go), Loop
--               (the loop of internal/consumer/kafka.go), Puller (internal/puller/minio.go)
-- Bots          Orders (internal/orders/generator.go), Bot (internal/bot/bot.go), Orchestrator
--               (internal/orchestrator/orchestrator.go and internal/publisher/kafka.go), Fleet (the
--               bots of a run together), Consumer (the loop of internal/consumer/kafka.go)
-- Scorer        Formula (internal/scoring/formula.go), Board (internal/leaderboard/redis.go, with
--               the loop of internal/consumer/kafka.go)
-- Leaderboard   Hub (internal/hub/hub.go and the client goroutines of cmd/main.go), Board
--               (internal/redis/redis.go and internal/consumer/kafka.go), Feed (the whole service:
--               the consumer, Redis, the hub with its channel, and `wsHandler` of cmd/main.go)
-- DummyOrderbook  (api/router.go and cmd/main.go)
--
-- Each service has modules Config (config/config.go) and Main (cmd/main.go), and, where it talks to
-- Kafka, Clients (the readers and writers that it makes) and Events (what it encodes and decodes).
-- Pipeline joins the services: Topics and Clients for the topics and brokers, Messages for what they
-- understand of each other, Load for telemetry on its way from the bots into its window, Routes for
-- what the gateway sends on, Mains for how they end, and Binary, which follows a file from its upload
-- into the container.
--
-- The parts meet in their messages: what the bots report is what the ingester counts, what it
-- publishes is what the scorer consumes, and what the scorer emits is what the leaderboard consumes.
-- Leaderboard/Board/Latest runs the last two one after the other. Ingester/Book/Priority and
-- Ingester/Consumer/Runs are abstract views, of the book as two queues and of a run by itself.
--
-- A definition bears the Go name in snake_case. A method that changes its receiver takes and
-- returns it; a method is one step, and goroutines are lists or relations of such steps. Where a
-- method lets go of its lock midway, as `AddEvent` of the ingester does, the step has nothing in
-- between; Ingester/Window/Gap has its locked sections apart, with a flush in between.
--
-- A Go map is an association list; the order of a range over it is an argument. A price is a finite
-- float64 in units of the smallest positive one, so an integer; other floats are the parameter
-- Float, of which a theorem assumes only what it names (Rounding, for the order of the scores).
-- int and int64 wrap around. The clock is an argument.
--
-- Parameters: sort.Slice (SortSlice: it permutes, and sorts by a strict weak order; that equal
-- elements keep their order is not assumed), the HDR histogram (Hdr), golang-jwt (Jwt, documented
-- to do SignLaws), the token bucket (Rate), SHA-256 and media type detection, strconv.ParseFloat,
-- Redis (whose commands are documented to do Laws), MinIO (ObjectStore, documented to do
-- StoreLaws), and what the environment answers: World,
-- Docker, Api, Files, Exchange, Draws, Turn, Answer, Attempt, Env; and the writer of kafka-go
-- (KafkaWriter, documented to be IsExclusive).
-- Loops run over lists, so most need no fuel; the endless ones are a list of rounds, or a step
-- relation. The loop of a bot takes fuel, and a theorem says how much is enough; the wait for Redis
-- takes fuel too, as it may wait for ever. The ten attempts at the database count down.
--
-- Not modelled: partitions and rebalances (the loops of Sandbox and Bots read one partition, which
-- stays with the service while it lives; their commits may fail); a call between the two locks that
-- `consumeStarted` of the submission service takes; Kafka, HTTP and WebSocket connections, MinIO, Docker, Redis and TimescaleDB beyond
-- what their calls return; the text of JSON (a message is an object, with members of the names in
-- the tags); tickers, of which only the order of the ticks counts; the access keys and timeouts of
-- clients and servers, the balancer of a Kafka writer, and what only logs; the integration tests,
-- the frontend, and the files for deployment.
pub mod Common
pub mod Ingester
pub mod Submission
pub mod Sandbox
pub mod Bots
pub mod Scorer
pub mod Gateway
pub mod Leaderboard
pub mod DummyOrderbook
pub mod Pipeline
