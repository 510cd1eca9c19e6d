-- ===== src/Lib.antt =====
-- otp-relay-backend relays encrypted one-time passwords. A source device pushes a ciphertext, the
-- relay stores it and signals the destination devices over Web Push, and a destination device
-- claims it. A claim waits for the claim window: a second device that claims in that time kills
-- the OTP for everybody, and a sole claimant gets the ciphertext when the window's timer fires.
--
-- Base: Boolean tests, text equality, TrimSpace, association lists for Go's maps, signed integers
-- over the native numbers and the wrap-around of int64.
--
-- Db (internal/db/db.go): the rows of the three tables as records, a table as the list of its
-- rows, and each method of DB as a function on the connection. Db/Table has the lookups and
-- updates by key, Db/Otps, Db/Devices and Db/Invites the statements, Db/Otps/Laws their effect on
-- one row. The connection carries the driver's answers to the statements to come (runs, fails, or
-- runs with an unknown row count), so every error branch of the code is reached; an error that is
-- not ErrNotFound is driver_error. SQLite itself and the schema's creation are not modelled; the
-- schema's constraints stand in the insertions.
--
-- Push (internal/push/push.go): Notify and Broadcast over a PushService, a parameter that stands
-- for the Web Push library and the push services. Push/Broadcast has the order in which results
-- arrive.
--
-- Ws (internal/ws/hub.go): the envelope and its type constants. Ws/Hub has the hub: register,
-- unregister, SendToDevice, trySend, handle and one round of readPump and of writePump. A *Client
-- is a reference into a store of clients, so that a displaced connection and its replacement are
-- different clients of one device; a channel is its queue and whether it is closed, and a panic of
-- the Go runtime is a result. Ws/Hub/Order has the invariant and what connecting and leaving do to
-- it, Ws/Hub/Safety the events of the hub, Ws/Hub/Capability the routing, Ws/Hub/Channel the order
-- of messages, Ws/Hub/Reconnect a second connection, Ws/Hub/Runs the histories of events, with
-- Ws/Hub/Queue on each channel, Ws/Hub/Presence on the connection of each device and
-- Ws/Hub/Payloads on the payloads that wait, Ws/Hub/Pump the loop of readPump, with the deadline
-- that each pong sets, over a list of what arrives and when, Ws/Hub/Writer that of writePump, over
-- what wakes it and whether the network takes its writes, with the connection that either pump
-- closes and on which every write then fails, and Ws/Hub/Displaced the end of a displaced
-- connection. An event is one step under the hub's lock; the one gap in a locked section, between
-- the lookup and the send of SendToDevice, is open to other events through send_found. Ws/Handler
-- (internal/ws/handler.go) is ServeHTTP, with its conclusion in Ws/Handler/Gate. JSON encoding and
-- write deadlines are not modelled; the model of a whole history has no failing writes.
--
-- Claim (internal/claim/claim.go): Claim/Window has Claim, resolve, invalidate and the timers,
-- Claim/Ingest the ingestion and the push fan-out, Claim/Step the events, Claim/Janitor the loop
-- of the janitor as a history of sweeps. The state is the record Manager: its field windows is the
-- map pending of the source, timers are the runtime's armed timers, and sent and pushed log what
-- was handed to the Sender and to the push service. A handler is one step that reads the clock, in
-- nanoseconds, once; a history is a list of events with their times, which need not be ordered.
-- Claim/Motion says what an event can do to the windows and timers, Claim/Armed that each window
-- has a timer of its own and stems from a claim, Claim/Effect what an event can do to the row of
-- an OTP and to the receivers of its payload, Claim/Secrecy what the push services learn;
-- Claim/Safety, Claim/History, Claim/Scenarios and Claim/Faults draw the conclusions,
-- Claim/Overlong and Claim/Starved look at a claim window that is too long, and Claim/Log says
-- that a handler only adds to what was sent.
--
-- Claim/Contract is the specification of one OTP: a state machine on its fate, the claimants of
-- its open window and the messages about it, with the events that concern it as inputs.
-- Claim/Contract/Others and Claim/Contract/Own follow each handler for another OTP and for its
-- own, Claim/Contract/Refinement puts them together.
--
-- Claim/Threads drops the assumption that a handler is one step. A goroutine of Claim, resolve or
-- invalidate is where it stands, with its local variables; a turn is one statement of the database
-- or one section under the lock, with what follows up to the next; a system is the manager and its
-- goroutines, and a schedule a list of turns, arriving calls, firing timers, ingestions and
-- sweeps. The sends of invalidate are one turn. That each section releases its lock is read off
-- the source, not modelled. Claim/Threads/Moves says what a turn can do to one OTP,
-- Claim/Threads/Fair what it does to the devices that can get a payload, Claim/Threads/Apart and
-- Claim/Threads/Claimants what holds for every schedule, Claim/Threads/Attended, with Turns, Runs
-- and Closes below it, what looks after an open window and closes it, and Claim/Threads/Stages,
-- Claim/Threads/Races and Claim/Threads/Early follow single schedules.
--
-- Registry (internal/registry/registry.go): Register, Authenticate, List, PushTargets, Revoke and
-- Get over Db. Registry/History has the events that touch the devices table, with everything else
-- that the relay does with the database as one event that leaves that table alone;
-- Registry/Revocation and Registry/Lifetime say what holds in every history.
--
-- Totp (internal/totp/totp.go): New, Verify, IssueCookie, ClearCookie, ValidateRequest, sign and
-- validate, over texts as lists of bytes. Totp/Decimal has FormatInt and ParseInt of the standard
-- library, Totp/Base64 its raw URL encoding; the HMAC with SHA-256 is a parameter, of which only
-- that it gives bytes is used, and only where a cookie is issued. Totp/Parts has the lemmas on the
-- pieces of a cookie value, Totp/Cookies what a valid session is. The check of a TOTP code that
-- Verify calls is a parameter.
--
-- Relay (main.go): OnPush and OnClaim of the dispatcher, and receive, which takes a frame from a
-- connection's reader through the hub to the coordinator. What the coordinator hands to its Sender
-- stays in its log; Relay/Delivery passes what a call has sent on to the hub's SendToDevice, and
-- follows a claim from its frame to the frame of the payload. Relay/World puts the hub and the
-- coordinator together as one state, with everything that happens to them as events, and keeps
-- what the writers write out; Relay/World/Steps follows the payloads of an OTP through each event,
-- Relay/World/Once through histories. Relay/Entry says what a frame can do to the coordinator.
-- Relay/Revoked follows a device that is revoked while it is connected. Relay/Start is main, run
-- and db.Open: their effects are a list of deeds, and SQLite, the signals and the end of the
-- server are inputs; Relay/Lifecycle has the order of start-up and shutdown.
--
-- Api (internal/api): Api has requests and responses, Api/Devices, Api/Onboard and Api/Messages
-- the handlers of devices.go, onboard.go and otp.go, Api/Routes those of auth.go, the middleware
-- and the routes. A request is the record of what the handlers read of it: a body is what
-- decodeJSON makes of it; Api/Bearer is bearerToken, on a header that is valid UTF-8; chi's
-- matching of a path to a route is replaced by naming the route. The check of a TOTP code and the
-- QR encoder are parameters. Api/Access, Api/Pushing and Api/Claiming say who may do what,
-- Api/Views what the list of devices shows, Api/Onboarding what the QR code shows.
--
-- Config (internal/config/config.go): Load over an environment that is a function from names to
-- texts, with durations as int64 nanoseconds that wrap around. Config/Limits says what a
-- configuration promises that loads.
--
-- Identifiers (internal/id/id.go): New, ShortID and Token, with hexadecimal printing; the random
-- source is a parameter. Identifiers/Draws says what is drawn.
--
-- Not modelled: the paths of main.go's http.ServeMux with the health answer, and the two programs
-- under cmd, which print generated secrets.
--
-- Limits: times are int64 as integers, with the wrap-around written out where the code adds; the
-- clock is a natural number of nanoseconds since 1970. Logging is left out. The texts that
-- internal/id draws are arguments of the operations that draw them. The only fuel is the size of
-- FormatInt's buffer, twenty digits, which holds every int64; every other loop is a recursion on a
-- list.
pub mod Base
pub mod Db
pub mod Ws
pub mod Push
pub mod Claim
pub mod Registry
pub mod Totp
pub mod Relay
pub mod Api
pub mod Config
pub mod Identifiers
