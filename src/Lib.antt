-- ===== src/Lib.antt =====
-- Nodewatch crawls the nodes of a beacon chain: it discovers them, asks each for its status over a
-- request and response protocol, and keeps what it learns in a database that an API reads.
--
-- The parts and their files:
--   Base     shared tests, lists, results, machine integers and texts
--   Rpc      crawler/rpc/request: Rpc/Reader for buf_limit_read.go (BufLimitReader), Rpc/Varint for the
--            varints of encoding/binary, Rpc/Encode for encode.go and compression.go, Rpc/Respond for
--            handle_response.go (MakeResponseHandler is `respond`), Rpc/Serve for handle_request.go
--            (MakeStreamHandler is `receive`), Rpc/Method for rpc_method.go and request.go (Request is
--            `request`); the handlers that only read or write bytes stand with Respond and Serve
--   Host     crawler/p2p/host.go and crawler/rpc/methods: FetchStatus, the look-ups and, in
--            Host/Listeners, ServeBeaconPing, ServeBeaconStatus and ServeBeaconMetadata
--   Clock    utils/clock/clock.go and utils/fork/fork.go (monitorForkChange is `monitor`)
--   Agent    SetUserAgent of models/peer.go
--   Peer     the rest of models/peer.go, and CurrentBlock of crawler/util/util.go
--   Address  the addresses of nodes in crawler/util/util.go, and multiAddressBuilder of
--            crawler/crawl/service.go; Address/Dialled has what NewPeer and GetPeerInfo of
--            models/peer.go make of them
--   Discovery the records of boot nodes in crawler/crawl/udpv5.go
--   Keys     utils/crypto/crypto.go
--   Geo      the resolvers under resolver/, and updateGeolocation of crawler/crawl/crawl.go
--   Store    store/peerstore/mongo/mongo.go over a collection of the database; Store/Queries has its
--            filters and aggregations, and Store/Connect both New
--   Crawl    crawler/crawl/crawl.go: storePeer, selectPendingAndExecute, bgWorker, updatePeerInfo and
--            collectNodeInfoRetryer, as events on the state that the goroutines share; Crawl/Walk has
--            start with runIterator and the channel of nodes between them; Crawl/Pool has
--            updatePeer, the workers and the channel of jobs as a step relation
--   History  store/record/mongo/mongo.go, models/history.go, insertToHistory of crawler/crawl/crawl.go
--            and GetNodeStatsOverTime of graph/schema.resolvers.go
--   Output   output/file.go: Start as a step relation
--   Program  cmd/main.go, Initialize of crawler/crawl/service.go and Start of transport/http/http.go as
--            a step relation, joined from those of Crawl/Pool and Output
--   Startup  main of cmd/main.go up to its go statements, Start of crawler/service.go, Initialize and
--            newCrawler under crawler/crawl, startV5 and NewHost of crawler/p2p/host.go
--   Config   loadForkDefaults of utils/config/config.go; Config/Load has Load, and the choice of the
--            boot nodes in crawler/service.go; Config/Networks has the specifications in
--            cmd/network
--   Epoch    models/marshallable_epoch.go
--   Graph    graph/model/helpers.go, and in Graph/Resolvers the resolvers of graph/schema.resolvers.go
--   Examples concrete runs
--
-- Parameters. A reader is the list of its answers, so that bytes arrive in any pieces and with any
-- errors. The database is a collection with the laws that its driver documents: a write that fails
-- may have been applied all the same, and a limit of 0 is no limit. Store/Memory is one that keeps
-- them. Snappy, the text of a digest, the hash of an identifier, times, the answers of peers, the
-- library of versions, the decoder of forks, the serializers that are generated for the types of
-- the beacon chain, the lengths of these types, the parsers of records and of addresses, the
-- functions of the curve and the order in which Go walks a map are arguments. A peer that is
-- dialled takes a number of bytes, and answers to all of them at once; the network delivers an
-- answer in any pieces.
--
-- Bounds. Times, slots and epochs are at least 0, so that they are natural numbers; lengths, limits
-- and block numbers wrap around at 64 bits where the code converts them. The loop over chunks runs
-- as often as the code allows. Reading a chunk's bytes has fuel of one more than its size, which is
-- enough because each read takes a byte at least or fails, unless the reader stalls. The bytes of a
-- key have fuel for the 32 of a number below 2^256. The crawler's workers overlap: an event is a
-- list of due peers, one round of the selector, one job taken, one update, or one discovery. The
-- loops of the mongo driver over a cursor, the sort and the retryer are structural, or have as many
-- rounds as the code gives them; the digits of an epoch have fuel for the 16 of a uint64. A start
-- with a clock that divides by zero is a failure of its own; the other functions of the clock are
-- about clocks that do not. A handler of streams is given its maximum, and gives back the one that
-- it has for the next stream. A panic of the wait group ends the process: main is then `crashed`.
--
-- Not modelled: sockets, logging, metrics, the options of libraries, the server of the API, the routes of
-- the metrics' server, an iterator of nodes that waits for ever, time limits, what the operating system
-- makes of a line, and percentages as floating point numbers.
pub mod Address
pub mod Agent
pub mod Base
pub mod Clock
pub mod Config
pub mod Crawl
pub mod Discovery
pub mod Epoch
pub mod Examples
pub mod Geo
pub mod Graph
pub mod History
pub mod Host
pub mod Keys
pub mod Output
pub mod Peer
pub mod Program
pub mod Rpc
pub mod Startup
pub mod Store
