-- ===== src/Lib.antt =====
-- qmdsr, a search service in front of the `qmd` command line, written in Go.
--
-- A request goes from the api to the orchestrator, which answers it from the result cache or runs the
-- backend for one collection or for the collections of a tier, in a plain, a vector or a deep mode;
-- falls back where a mode is not to be had or fails; and puts the finished hits into the cache.
-- Beside it run the overload guard, which samples the CPU; the guardian, which watches the MCP daemon;
-- the heartbeat, which collects the health of the components; and the scheduler, which refreshes the
-- index and the embeddings and cleans up.
--
-- Which module is about which file, by its path from the repository's root:
--   Types         model/types.go
--   Config        config/config.go: the records; Defaults holds `normalize`, `validate` and `load`
--   Cache         cache/cache.go: one function per method, from the cache to the cache and the answer;
--                 the map holds handles of the elements of the recency list
--   CpuGuard      internal/resourceguard/cpu_monitor.go: `tick` is one round of the sampling loop
--   Guardian      guardian/guardian.go: `check`, `start_mcp` and the restarts; `step` interleaves them
--   Heartbeat     heartbeat/heartbeat.go and heartbeat/selfheal.go
--   Scheduler     scheduler/scheduler.go: `run_task` with its retries, and the tasks
--   Textutil      internal/textutil/textutil.go and internal/textutil/snippet.go
--   Router        router/router.go
--   Searchutil    internal/searchutil/searchutil.go
--   Orchestrator  orchestrator/orchestrator.go: Negative is the deep-negative cache, Results what is
--                 left of the hits, Routing the choice of a mode, Exclude the patterns of a collection,
--                 Tiers the searches of the collections of a tier, Search the search itself, as a
--                 function of the state and of the answers of the world,
--                 Registration the calls that make collections and contexts known, Observation the
--                 counters, Tokens the channel of search tokens
--   Executor      executor/cli.go and executor/parse.go: the process that each operation runs, Parse what
--                 is read out of an output, Commands the operations, Slots the channel of query tokens
--   Api           api/: Request is what a request asks for, Core `executeSearchCore`, Fetch
--                 `executeSearchAndGetCore`, Convert and Format are convert.go and format.go, Errors the status of an error, Health the answers to
--                 questions of health and status, Handlers and Admin the handlers of the two services
--   Program       main.go: the start, and the search of the api over the executor
--
-- Conventions. A time is a number of nanoseconds, a duration an integer (Config, Cache) that may be
-- negative, and a subtraction of times is one of integers. A pointer to a list element is a handle, a
-- number that is used once. A score, a float64 in the source, is an integer in millionths; a CPU usage
-- is an exact fraction. A Go map is an association list, or a function where nothing but lookups and
-- assignments is asked of it; a loop over a map is a loop over its keys in any order. A method under a
-- lock is one step, and so is `Get` of the cache, which takes its lock in parts. The functions of the
-- Go standard library (trimming, lower case, `filepath`, sorting, SHA-1, JSON, CSV) are fields of
-- records that the definitions take, and what a theorem needs of them it names.
-- A process's answer, a file's existence and the order in which goroutines end are arguments. In one
-- search the clock is read at its start and at its end.
--
-- Recursion is structural. Two loops run on fuel: the retries of a task, where the fuel is the
-- source's own bound, and the directories above a path in Orchestrator.Exclude, where the fuel is one
-- more than the characters of the directory and each round's directory is shorter than the last, so
-- that every directory above the path is tried before the fuel runs out.
--
-- Not modelled: the start of processes and their end by a signal (what becomes of a process is an
-- argument, and so is the time that it is given), the server of the RPC layer and the generated code
-- of its messages (pb), the log, the tickers and the sleeps, the watchdog and the shutdown in main.go,
-- the sampling of /proc/stat, the parsing of YAML, JSON and CSV. The deadline of a context is among
-- what a process or a queue answers.
pub mod Prelude
pub mod Types
pub mod CpuGuard
pub mod Cache
pub mod Config
pub mod Guardian
pub mod Heartbeat
pub mod Scheduler
pub mod Textutil
pub mod Router
pub mod Searchutil
pub mod Orchestrator
pub mod Executor
pub mod Api
pub mod Program
