-- ===== src/Lib.antt =====
-- Verification library of the Unity scopes API, the C++ library by which a client queries search
-- plug-ins, the scopes, that run in processes of their own.
--
-- The parts and how they interact. A client's runtime asks the registry for the scopes that
-- there are and has it locate one: the registry keeps a process for each local scope, starts it
-- on demand, waits for the scope's message that it is ready, and answers with the scope's proxy;
-- remote scopes come from a second registry. A query is sent to a scope as a canned query, which
-- also has a textual form as a scope:// URI. The scope answers through a reply object in the
-- client: its middleware threads call push, info and finished there, and the reply object calls
-- the application's listener. A reaper drops reply objects and other state that nobody
-- refreshes, and calls them back, so that a query ends even if the scope is gone. Queries,
-- departments and results travel as maps of variants.
--
-- Files and code, with paths from the repository's root:
-- - Reaper models src/scopes/internal/Reaper.cpp: the list in LRU order, ReapItem's refresh,
--   cancel and destructor, the reaper thread's rounds and destroy() as steps on an explicit
--   state (Reaper.Steps), and the create() functions. Time is a clock given by its readings; the
--   choice of the zombies, the sections of the pass, destroy() and every call of the owner are
--   separate steps, and the reaper itself outlives them.
-- - Registry models RegistryObject in src/scopes/internal/RegistryObject.cpp: the maps scopes_
--   and scope_processes_ and every call on them. ScopeProcess models its class ScopeProcess:
--   update_state_unlocked, exec, kill, wait_for_state, the placeholders of a custom command, and
--   the messages that it publishes. The core::posix process, wordexp, the executor and the
--   remote registry are parameters: what a call of them comes to is a field of ExecEnv, KillEnv
--   or Remote, and what reaches the process and what the other threads do while exec or kill
--   waits, in critical sections of their own, is a list of events, each of which the wait may
--   notice or miss.
-- - Reply models src/scopes/internal/ReplyObject.cpp: a thread in push, finished or info, or a
--   pass of the reaper, is at one of the points of Call, and an interleaving is a list of thread
--   numbers. ResultReply models process_data of src/scopes/internal/ResultReplyObject.cpp, with
--   the listener and the conversions of filters, categories, annotations and results as
--   parameters that have a state of their own, such as the registry of categories.
-- - Query models src/scopes/internal/CannedQueryImpl.cpp: the query's record, its VariantMap and
--   its URI. The JSON library is a parameter that prints and parses, and the theorems say which
--   texts it must parse back.
-- - Departments models src/scopes/internal/DepartmentImpl.cpp: the tree, its VariantMap, its
--   validation and the search by id.
-- - Filters models src/scopes/internal/OptionSelectorFilterImpl.cpp with its options,
--   FilterOptionImpl.cpp, and the state that a query carries for its filters,
--   FilterStateImpl.cpp. Its children are the other kinds in the same folder: Range
--   (RangeInputFilterImpl.cpp), Slider (ValueSliderFilterImpl.cpp, ValueSliderLabelsImpl.cpp),
--   DateTime (DateTimePickerFilterImpl.cpp), Switch (SwitchFilterImpl.cpp) and Buttons
--   (RadioButtonsFilterImpl.cpp, RatingFilterImpl.cpp); Kinds is FilterBaseImpl.cpp over all of
--   them, with the groups of FilterGroupImpl.cpp.
-- - Results models src/scopes/internal/ResultImpl.cpp, with the results that a result stores and
--   the search for the one that an activation goes to; Results.Categories is
--   CategoryRegistry.cpp and Results.Columns ColumnLayoutImpl.cpp in the same folder.
-- - Metadata models src/scopes/internal/ScopeMetadataImpl.cpp, and Location LocationImpl.cpp in
--   the same folder.
-- - Cancellation.Client models src/scopes/internal/QueryCtrlImpl.cpp, and Cancellation.Scope
--   QueryObject.cpp and QueryCtrlObject.cpp in the same folder; ThreadPool models
--   ThreadPool.cpp. In these, in Reply and in ObjectAdapter, a thread is at one of the points of
--   Call, and a step takes it past its next critical section, wait or call.
-- - ObjectAdapter models src/scopes/internal/zmq_middleware/ObjectAdapter.cpp: the maps of
--   servants, ObjectAdapter.Lifecycle the threads that activate it, shut it down and wait for it
--   with its pump and its workers, ObjectAdapter.Pump the loop that hands requests to the
--   workers. The sockets are the inputs of a round and the list of what was sent.
-- - Variant models src/scopes/Variant.cpp, and a std::map of variants, in the order of its keys.
-- - Encoding models the percent encoding and uncamelcase of src/scopes/internal/Utils.cpp.
-- - Prelude has what these share: Boolean tests, lists over the native numbers, texts as lists
--   of bytes, results with exceptions, int, maps with string keys, and interleavings of threads
--   (Prelude.Threads).
--
-- Bounds. The search through stored results runs on fuel, one more than the size of the map that
-- it searches; each stored result stands within the one that stores it, so that this is enough.
-- Other loops are recursions on the list that the loop walks, and a thread that loops forever is
-- a step that may be repeated. Time stamps and intervals are numbers without the limit of a
-- 64-bit count of ticks. An int that is counted up wraps around where a theorem depends on it;
-- other ints are compared and copied only. A double is the number that its bits are, and the
-- comparisons of doubles are given (Prelude.Doubles). Characters are bytes.
--
-- Not modelled: the text of error messages and log lines, the destruction of shared pointers
-- other than ReapItem's, and the components whose entry says so: the middleware over ZeroMQ and
-- Cap'n Proto, the smart scopes' HTTP client, settings and configuration files, categories and
-- previews, the Qt binding, and the testing helpers. An exception is one of the classes of
-- Error; where a setter throws half way, what it leaves behind is modelled only where the
-- function gives a state along with the exception.
pub mod Prelude
pub mod Encoding
pub mod Reaper
pub mod Variant
pub mod Query
pub mod Results
pub mod ScopeProcess
pub mod Registry
pub mod Departments
pub mod Reply
pub mod ResultReply
pub mod Filters
pub mod ObjectAdapter
pub mod Metadata
pub mod Location
pub mod ThreadPool
pub mod Cancellation
