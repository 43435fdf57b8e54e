-- ===== src/Lib.antt =====
-- A verification library for the backend of the currency converter (backend/src): a gRPC service
-- that converts amounts and shows rates, from the data of an upstream HTTP service that it keeps in
-- caches.
--
-- Parts and files:
--   * Domain (backend/src/domain): the types, `isIsoDate` and the constructor of `DateRange` in
--     Domain/DateRange, `toUpper` in Domain/TextUtil; Domain/DateOrder is on what the comparison of
--     dates as texts means. The exceptions are in Exec.
--   * Cache (backend/src/cache): Cache/Bounded is `TimeAndSizeBoundedCache`, with `get`, `put`,
--     `sweepExpired` and the sweeper's interval. The `std::list` is a list of nodes with addresses,
--     an iterator is an address, and a step through a dangling one is `none`. Cache/Spec is the
--     abstract cache, a list of entries in the order of their use; Cache/Invariant ties the two views
--     together. Refinement, Insertion and Sweeping take one operation each; Expiry, Reads and Trace
--     are on age, on single reads, and on sequences of calls. Cache/Interface is `ICache`, with the
--     laws that its clients rely on. Cache/Overflow is on ages in 64-bit integers; elsewhere they are
--     numbers of any size. Cache/Sweeper is the sweeper's thread (`sweepLoop`), the clients and the
--     destructor as steps that interleave in any order, with Execution on their sequences, Safety on
--     the states that they reach together, and Stopping on the end of the sweeper.
--   * External (backend/src/external): Frankfurter and Payload are `FrankfurterClient`, its
--     requests and what it reads from the bodies; Provider is `IExchangeRateProvider` with the laws
--     that its clients rely on; Http and Json are what it calls of Poco; Observed is what was seen of
--     the server, and Dates and Service are on those laws, Completeness is on the days of a history,
--     Timeouts on the time limit of a request, and Fixed on an upstream service that answers a
--     request always by the same page.
--   * Application (backend/src/application): Constraints, Catalog, Conversion and History are the
--     four services, each over the interfaces that it is given; Bounds, Listing, Rates and Series
--     hold their contracts, Keys is on the keys under which they store, Hits on what is served from a
--     cache, and Storing on what is left in one. Uncached has the services with no caches, and
--     Transparency, with Rates and Series below it, compares the two. A method that the source writes
--     as one body is cut into the steps after each guard (`check_request`, `apply_rate`, ...).
--   * Grpc (backend/src/grpc): `handle`, `toStatus` and the four methods of `CurrencyServiceImpl`;
--     Grpc/Replies is what a client is told, and Grpc/Agreeing compares two replies, with the methods
--     in its child. Accesses, here and below External and Application, counts what a call takes by
--     the rules of Exec/Budget.
--   * Server (backend/src/main.cpp): the three caches and the objects of `main` as one state;
--     Server/Slots, Server/Holding and Server/Wiring take its caches, client and services as the
--     interfaces that the services rely on, Server/Calls is on one call and Server/Serving on whole
--     sequences of calls. Server/Sharing puts a call amid other threads that change the state between
--     its accesses to the caches, the client and the clock, Server/Interference is on the reply that
--     it gets, and Server/Concurrency has all the threads and the sweepers at once, by the steps that
--     they make in any order: Safety on what they keep, Replies and Transparency on the replies, and
--     Accesses on how many steps a call makes. Server/Startup is on when it starts, Server/Repeats on
--     queries that its caches serve, and Server/Contents and Server/Storing on what a query leaves in
--     them. Server/Reference is the server with no caches, and Server/Transparency the comparison.
--   * Config (backend/src/config and `handleDefine`, `toPocoLevel` of backend/src/main.cpp): the
--     getters of `AppConfig`, `loadJsonFile` in Config/Files, and the override of a setting in
--     Config/Define.
--   * Main (`CurrencyServerApp` in backend/src/main.cpp): the process as the outside with the
--     events so far in Main/Process, `defineOptions` and the callbacks in Main/Options,
--     `setupLogging` in Main/Logging, the objects that `main` builds in Main/Building, and `main` in
--     Main/Program. Built and Channels are on building and logging, Overrides on the command line
--     against the file; Rules, Loading, Serving and Outcomes lead to Main/Ending, which is on whole
--     runs of the process.
--
-- Conventions: code that changes the state and may throw is an `Exec` (Exec.antt): a function from a
-- state to a value, an exception or undefined behaviour, and a state; what was changed before an
-- exception stays. `Runs P m Q E` (Exec/Runs) says that from each state of `P` the action ends by a
-- value and a state of `Q`, or by an exception and a state of `E`, and never in undefined behaviour.
-- `Agrees I Excuse m p` (Exec/Agreement) says that `m` ends as `p` does, which has no state, or by
-- an exception that is excused. A `std::string` is the list of its bytes. Every loop is a structural
-- recursion, so no fuel is used.
--
-- Parameters: a `double` and its operations (Double), Poco's URI, HTTP client, JSON and layered
-- configuration and its files, the log channels, `BuildAndStart` of gRPC, the clocks and the format
-- of a date. The laws assumed of them are `IsHttp`, `IsMap`, `OutsideLaws`, `IsFixed`,
-- `SteadyOutside`, `ClockLaws`, `PlatformLaws` and `LayerLaws`. What upstream gave and the clock has
-- shown is a record of predicates (`Seen` in External/Observed, from which `observed` makes the
-- `Upstream` of the services), and so is what Poco and gRPC answered (`Answers` in Main/Rules): a
-- theorem holds for any such record whose laws the outside keeps, so that no answer can be made up.
-- Tests/Sample, Tests/Transparency, Tests/Concurrency, Tests/Repeats, Tests/Program and
-- Tests/Overrides have small worlds in which they hold.
--
-- Not modelled: log lines and durations; what Poco makes of the command line, of the log channels
-- and of SSL, and gRPC. The methods of a cache hold a mutex, so that calls from several threads are
-- a sequence of calls of the cache (Cache/Trace, Cache/Sweeper); calls of the server are taken one
-- after the other in Server/Serving and Main/Program, and on threads in Server/Concurrency. The
-- caches' map of iterators is a function, and the system clock is not before 1970.
pub mod Base
pub mod Cache
pub mod Exec
pub mod Double
pub mod External
pub mod Domain
pub mod Application
pub mod Grpc
pub mod Server
pub mod Config
pub mod Main
pub mod Tests
