-- ===== src/Lib.antt =====
-- A verification library for RavBot, an agent runtime with messaging channels, LLM providers
-- and tools (C++17). It models the parts of the program that decide: which message runs when,
-- which provider is called, which requests and commands are allowed. Everything that only moves
-- bytes (HTTP, WebSockets, files, processes, terminals) is left out.
--
-- Parts, files and code (paths from the repository's root):
--   Prelude           shared names, strings, maps, signed integers, decimal numerals
--   Gateway           src/gateway/command_queue.cpp, include/ravbot/gateway/command_queue.hpp
--     Types           QueueMode, DropPolicy, QueueConfig, QueuedCommand
--     Lane            SessionLane: Enqueue, Dequeue, Cancel, ApplyCapOverflow, SummarizeMessages
--     CommandQueue    CommandQueue: Submit, Cancel, the rounds of dispatcher_loop, the workers;
--                     a worker's executor call is the time between its dispatch and its finish
--     DevicePairing   device_pairing.cpp: DevicePairingManager
--   Providers         src/providers/
--     Error           provider_error.cpp: ClassifyHttpError
--     Cooldown        cooldown_tracker.cpp: CooldownTracker
--     Failover        failover_resolver.cpp: FailoverResolver; Resolve with its mutex is in
--                     Failover/Fallback
--   Security          src/security/
--     RateLimiter     rate_limiter.cpp: RateLimiter
--     ExecApproval    exec_approval.cpp: ExecApprovalManager, ExecAllowlist; the matching of
--                     patterns is in ExecApproval/Glob
--     Rbac            rbac.cpp: the roles, the scopes and RBACChecker
--     ToolPermissions tool_permissions.cpp: ToolPermissionChecker
--   Core              src/core/
--     TurnValidator   turn_validator.cpp: TurnValidator; include/ravbot/core/content_block.hpp
--     Subagent        subagent.cpp: SubagentManager; histories of calls in Subagent/Histories
--     Cron            cron_scheduler.cpp: CronExpression in Expression, CronScheduler in Scheduler
--     Usage           usage_accumulator.cpp: UsageAccumulator
--     Compaction      session_compaction.cpp: SessionCompaction
--     Pruner          context_pruner.cpp: ContextPruner::Prune without a token budget, soft_prune
--     AgentLoop       agent_loop.cpp: the loop of ProcessMessage in Turn, the one of
--                     ProcessMessageStream in Stream, execute_with_retry in Retry, the messages of
--                     a request for Anthropic in Sanitize
--   Channels          src/channels/
--     Deduplication   deduplication_store.cpp: DeduplicationStore
--     Policy          channel_policy.cpp: the enumerations, PairingManager, SessionResolver
--     ThreadBinder    thread_binder.cpp: ThreadBinder
--     LaneProcessor   lane_processor.cpp: LaneProcessor, a lane as a step relation
--   Tools             src/tools/
--     ToolChain       tool_chain.cpp: ChainTemplateEngine in Template, ToolChainExecutor in Execute
--
-- How they interact. A client's RPC call reaches the gateway, where RateLimiter bounds the calls of
-- a connection and RBACChecker says whether the client's scopes allow the method; the handlers
-- manage the devices of DevicePairingManager, and a session is shortened by SessionCompaction. A
-- message becomes a command of the session's lane in CommandQueue, whose dispatcher starts a worker
-- for it. TelegramChannel asks the parts it has been given: DeduplicationStore whether an update is
-- new, ThreadBinder for the session of a thread, and LaneProcessor to handle the messages of a chat
-- in order; PairingManager and SessionResolver are the same decisions for channels in general. The
-- agent loop (AgentLoop.Turn) shortens the history with ContextPruner, calls the provider by
-- execute_with_retry (Retry), runs the tools of the response and records its tokens in
-- UsageAccumulator, until a response has no calls; its streaming variant (Stream) does the same chunk
-- by chunk and asks FailoverResolver itself. execute_with_retry repairs the messages for the
-- provider (Sanitize, and TurnValidator at the end), asks FailoverResolver for the next provider
-- when one fails, and reports the outcome of each call, classified by ClassifyHttpError, to the
-- resolver, which keeps its cooldowns in CooldownTracker (Retry calls the operations of Failover
-- here, and Failover those of Cooldown). A tool that the model calls is checked by
-- ToolPermissionChecker, and a shell command by ExecApprovalManager; the tools chain, cron and
-- spawn_subagent call ToolChainExecutor, CronScheduler and SubagentManager.
--
-- Conventions. Strings are lists of bytes (Prelude.Text), hash maps are association lists
-- (Prelude.Map), `int` and `int64_t` values that can be negative are ℤ (Prelude.Int) and the
-- others are ℕ. A clock reading is an argument of the operation that reads it, in the unit that
-- the module states. An operation is one step, and a history is a list of steps. Most operations
-- hold their object's mutex from the first access to the last; RequestApproval and the operations
-- of FailoverResolver lock more than once and are steps for calls that do not interleave; the parts
-- of SubagentManager::Spawn between its locks are steps of their own. Resolve
-- carries the state of the mutex, since it depends on it. What is not code of this repository is
-- a parameter: localtime_r and mktime in Cron, the JSON library's dump and parse in ThreadBinder, the agent that a subagent runs, the function that
-- executes a tool. The one regular expression that is modelled, `\{\{steps\[(\d+)\]\.result\}\}`
-- of ChainTemplateEngine, is written out as a function in ToolChain/Template.
--
-- Bounds and fuel. Loops over a container recurse on the list. overflow_loop has as many rounds as
-- the queue is long, and each but a last one shortens it; multiplier_loop counts to 5; digits_onto
-- has fuel above the number that it divides; glob_loop has rounds for the rest of the pattern after
-- the last star, the rest of the text from there and the rest of the text, of which each round
-- shortens the first that it changes. replace_prev has as many rounds as the template is long,
-- since each goes on behind its replacement, and replace_steps as the text is long, since a match
-- is not empty. range_from and steps_from of Cron have a round for each value up to the maximum;
-- Next tries the minutes that the source tries. The attempts of a tool in a chain are counted down
-- from the number that its policy allows. The rounds of a turn and the attempts of
-- execute_with_retry are lists of what happens outside, and theorems say which length is enough.
-- Counters that the code keeps in `int` do not wrap here.
--
-- Not modelled: the network, the file system, processes, the parsing of JSON and the other regular
-- expressions, which are other libraries' code; the providers' and channels' wire formats; the
-- prompts; the vector index; the user interfaces; logging. Of the agent loop: the choice of the
-- history by likeness of words, the tests of a text's wording, the events of the streaming variant,
-- the indexing of the messages. Of ContextPruner: what it computes with floating-point numbers from
-- a token budget.
pub mod Prelude
pub mod Providers
pub mod Security
pub mod Gateway
pub mod Core
pub mod Channels
pub mod Tools
