-- ===== src/Lib.antt =====
-- A model of LMD, the Livestatus Multitool Daemon: a proxy that keeps the monitoring data of many
-- backends in memory and answers Livestatus queries from it.
--
-- A client sends a request (lmd/request.go): a line `GET <table>`, then header lines. `Filter`
-- headers push filters on a stack, and `And`, `Or` and `Negate` change its last filters
-- (lmd/filter.go). The request goes to every selected backend that this node of the cluster is
-- responsible for (lmd/nodes.go). For each of these peers `gatherResultRows` (lmd/response.go)
-- collects the rows that match every filter (`MatchFilter`) and that the user may see (`checkAuth`,
-- both in lmd/datarow.go), and `PostProcessing` (lmd/rawresultset.go) cuts the rows of all peers to
-- the offset and the limit; a stats query counts on each peer and merges the counts. The rows of a
-- peer are kept in data stores with indexes (lmd/datastore.go), which the peer's update loop
-- (lmd/peer.go, lmd/datastoreset.go) keeps up to date.
--
-- The files, and the code they stand for:
-- - Prelude: native numbers, lists and integers, and the byte strings of Go with the functions of
--   strings, bytes and strconv that the code calls, on ASCII letters.
-- - Platform: float64 and package regexp, as a record of functions that the model takes as an
--   instance argument.
-- - Result: errors, and `panic` for a run time panic.
-- - Column: the tables and columns of lmd/table.go and lmd/column.go. A pointer to a column is a
--   record with its address in the field `ref`. A column that GetEmptyColumn allocates gets the
--   address that the caller passes.
-- - Filter: the struct Filter, as two mutual data types. Filter/Names is the names of operators,
--   Filter/Parse is ParseFilter and ParseStats, Filter/Group is ParseFilterOp, ParseFilterNegate,
--   parseStatsOp and optimizeFilterIndentation, and Filter/Match is Match, its functions for each
--   data type, and MatchFilter. What a row returns for a column is the record Row. The modules
--   below these hold proofs.
-- - Request: the struct Request and its column and sort functions; Request/Header is
--   ParseRequestHeaderLine, and Request/Reader is ParseRequestAction and NewRequest, which reads the
--   lines of a connection from a list.
-- - Cluster: getOnlineNodes, redistribute, updateBackends, IsOurBackend, and getSubBackends.
--   What is done to the peers is a list of actions, and Cluster/Running runs it.
-- - Auth: isAuthorizedFor, the checks of groups, and checkAuth. The lookups in the data store set
--   are the functions of the record Directory.
-- - Response: gatherResultRows, the collection of the results, PostProcessing and Less (Response/Sorting), for a list of
--   peers in the order in which their results arrive. The store of a peer is its number of rows and
--   the rows that GetPreFilteredData returns.
-- - Store: DataStore and its two indexes, with InsertData, AppendData and RemoveItem; Store/Prefilter
--   is GetPreFilteredData. A row is its address, its primary keys, and the rest. A Go map is a list
--   of pairs; where the code ranges over a map of services, the order is an argument.
-- - Rows: the values of a data row with the conversions of fetched values, UpdateValues,
--   UpdateValuesNumberOnly and CheckChangedIntValues. What strconv and fmt return is a record.
-- - Stats: CountStats, ApplyValue, gatherStatsResult, MergeStats and finalStatsApply. The key of a
--   row (getStatsKey) is an argument.
-- - Peer: the connection state of a peer, one function for each section under its lock. Peer/Round is
--   a round of updateLoop over a record of what the remote site answers for each table.
-- - Delta: composeTimestampFilter, UpdateDeltaCommentsOrDowntimes and maxIDOrSizeChanged; the
--   answers of the remote site are arguments. Delta/Remarks is buildDowntimeCommentsList, and
--   Delta/Comments is UpdateDeltaCommentsOrDowntimes as a whole.
-- - Tests: runs on concrete inputs, with integers for float64 and literal texts for expressions.
--
-- All functions are structurally recursive, so there is no fuel. Numbers of the source that are
-- never negative are natural numbers without a bound; a panic of the source, for a nil pointer or
-- an index out of range, is an error value.
--
-- Not modelled: connections, threads, timers, logging, metrics, import and export of data, which
-- are I/O; the schema of lmd/objects.go, which is a parameter; optimizeStatsGroups, distributed and
-- passthrough responses, the getters of a data row, the update of a single table, and peers with
-- several backends. Of the getters, only that of a custom variable panics in the model.
pub mod Prelude
pub mod Platform
pub mod Result
pub mod Column
pub mod Filter
pub mod Cluster
pub mod Auth
pub mod Request
pub mod Response
pub mod Tests
pub mod Peer
pub mod Delta
pub mod Rows
pub mod Stats
pub mod Store
