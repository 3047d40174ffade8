-- ===== src/Lib.antt =====
-- go-etcd-rules runs callbacks when the keys in etcd satisfy rules. A rule is written on key patterns
-- such as "/jobs/:id/state". A key that changes is matched against the patterns of each rule
-- (rules/matcher.go); the attributes that the match binds turn the rule (rules/dynamic_rule.go) into a
-- static rule on fixed keys (rules/static_rule.go), which a filter passes or drops by the key and its
-- value, and which is then evaluated against etcd. The rule manager (rules/rule_manager.go) finds the
-- rules for a key and the key prefixes that watchers and crawlers read; a worker evaluates a rule
-- again under a lock (rules/lock) before it calls back.
--
-- The files, each with the code that it models:
-- Base: Go's strings as lists of bytes, maps as association lists, a value and an error as `Result`,
--   and what is used of the package `strings`. Numbers are the native natural numbers; the code
--   modelled here counts and indexes, and nothing in it can overflow before memory is full, but for
--   durations (Options).
-- Regex: what rules/matcher.go uses of the package `regexp`. `compile` reads plain bytes and the one
--   group that `parsePath` writes; an expression with another operator is outside of the model, where
--   `compile` fails, so that theorems on patterns ask for plain fixed text. It runs on fuel, a round
--   for each byte of the expression.
-- Matcher: rules/matcher.go with the attributes of rules/dynamic_rule.go. `format_path` is
--   `formatPath`, whose loop runs on fuel: a round for each byte of the pattern and one more are
--   enough, since each round uses up a slash. `parse_path`, `new_regex_key_matcher` and `match` are
--   the functions of these names. Segments, Fields, Search, Inversion, Names and RoundTrip hold the
--   lemmas.
-- StaticRule: rules/static_rule.go. `satisfied`, `key_match`, `satisfiable`, `q_satisfiable` and
--   `get_keys` are the methods of the rules, by clauses on the kind of rule. The read API is a
--   function that may fail. Evaluation, Filters, ReadOnce and Missed hold the lemmas.
-- DynamicRule: rules/dynamic_rule.go, the construction of rules and `make_static_rule`, with its
--   lemmas in Scope; DynamicRule/Essential has the essential leaves and the crawler patterns.
-- RuleManager: rules/rule_manager.go, rules/constraint.go and the prefixes with constraints. A rule
--   is known by a number in place of its pointer. `sort_prefixes_by_length` writes to a list in place,
--   as the code does; its inner loop goes down from an index and needs no fuel.
-- Lock: rules/lock. A locker is a function from a state to an unlock operation or an error, and a
--   new state. Time is the number that the clock shows; the etcd client, its sessions and mutexes are
--   a parameter. An error that `errors.Join` wraps is the wrapped error.
--   Lock/Exclusion has the workers that take turns with one locker, as a step relation; Lock/Exclusive
--   says which lockers exclude, and Engine/Locking applies it to the engine's. Lock/CoolingOff has the
--   cool-off locker over a history of attempts.
-- KeyProcessor: rules/key_processor.go, what `processKey` sends to the workers and what `isWork`
--   answers. Callbacks and context providers are the caller's, and stay parameters. Snapshot joins it
--   with the reads of etcd; Sampler has the warnings of `bufferCapacitySampler`.
-- Worker: rules/worker.go, `doWork`, which reads, locks and calls in a world that others change as
--   well: each access gives a new world. Snapshot joins it with the reads of etcd, and Single has
--   `singleRun` from the item that was received.
-- Pipeline: the two channels of rules/key_processor.go and rules/worker.go between those who submit a
--   key, the key workers and the workers, as a step relation. Receiving a task and its one read of
--   etcd are one step, as is a value that goes from hand to hand where the channel has no room. The
--   histories that the state keeps are for the theorems. Counting, Order, Everywhere and Draining
--   hold the lemmas; Called joins it with `doWork`.
-- Shutdown: the loop of rules/worker.go (`run`, `singleRun`, `stop`) and the part of `stop` of
--   rules/engine.go that stops a worker, as a step relation in which both take turns in any order.
--   Shutdown/Stoppables has `stop` of the engine over all its members and `Shutdown`. The rounds of
--   looks run on fuel, and a member's `stop` that waits for ever at its send gives none, as the whole
--   then does; Shutdown/Returning and Watcher/Cancel say for one worker and one watcher when it does.
-- Etcd: rules/etcd.go, `getCachedAPI` and `get`. The etcd client is a parameter: a transaction of gets, and a
--   get by prefix. That a transaction reads at one moment is a hypothesis where it is needed.
-- Watcher: rules/etcd.go, the key watcher. What its select receives is a list of inputs; the events
--   of a response that are not handed on yet are its state. Watcher/Loop is the loop of
--   rules/watcher.go, by what it reads from its stopping flag in each round. Watcher/Stopping is the
--   loop with `stop` and `cancel`, as a step relation.
-- Crawler: rules/int_crawler.go. A crawl reads all prefixes, and hands each key on for which `isWork`
--   says so. The key processor is a parameter, which a theorem ties to `is_work`. Crawler/Loop is the
--   loop of `run` with its pauses, on fuel: one round more than the looks at the flag until it is up.
-- Engine: rules/engine.go, the engine that is made, `AddRule`, `AddPolling` and the callback of a
--   polling. The engine and its key processor have a copy of the rule manager each, with one map of
--   rules for both, as in the code. Engine/Run has the watchers, the crawler and the workers that
--   `Run` makes; Registration, Coverage, Keys and Dispatch hold the lemmas on engines that rules
--   were added to, and Draining joins them with the pipeline. Engine/Fields has the lock time of a rule
--   and the wrappers of the client.
-- Options: rules/options.go and internal/jitter/duration.go. Floating-point numbers are a parameter,
--   which the code compares and keeps. A duration has 64 bits, and its wrap-around is written out.
-- SessionManager: concurrency/session_manager.go, as a step relation of calls and of sessions' ends.
-- CallbackListener: rules/callback_listener.go, the waiting for a callback's event, and its way there
--   as the body of a request. JSON and HTTP are parameters.
-- Metrics: metrics/prometheus.go, what each function hands over to the library's metrics, and which
--   are registered; Metrics/Context is the method's name of rules/metrics.go in a context.
-- Lock/Metrics: rules/lock/metrics.go and rules/lock/options.go.
-- DynamicRule/Expand: `Expand` of rules/dynamic_rule.go, with a level of fuel for each call below
--   another. For a rule on patterns, more than the number of the map's keys is enough where every value
--   can stand in a path (Expansion); a value that is again a parameter with values makes the code call
--   itself without end, which no fuel is enough for.
-- DynamicRule/Render: `String` and `FormatRuleString` of rules/dynamic_rule.go. The range over a text
--   decodes UTF-8 as the language does, with U+FFFD for a byte that is not UTF-8.
--
-- Not modelled: logging, with the texts of static rules and of options for it, which no result depends
-- on; the contexts of callbacks and their time limits; the pauses of loops and the random durations of
-- internal/jitter/duration.go, which are floating-point arithmetic; the collectors of metrics outside
-- the repository. Go visits a map in no fixed order: here a map has the order in which its keys came,
-- and a theorem about it holds for every list of keys.
pub mod Base
pub mod Regex
pub mod Matcher
pub mod StaticRule
pub mod DynamicRule
pub mod RuleManager
pub mod Lock
pub mod KeyProcessor
pub mod Worker
pub mod Etcd
pub mod Options
pub mod Watcher
pub mod Shutdown
pub mod Crawler
pub mod Engine
pub mod CallbackListener
pub mod SessionManager
pub mod Pipeline
pub mod Metrics
