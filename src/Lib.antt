-- ===== src/Lib.antt =====
-- Verification of Rusty-Claw, an autonomous agent in Rust. The development models the parts that
-- keep state of their own and decide what the agent is told: code mode, which runs the JavaScript
-- cells of a session in the background; the runs and the jobs of sub-agents; the chain of nested
-- skill calls with the activation of skills and the tools that they see; the guard of the agent
-- loop against repeated actions; the conversation, with its history, its compaction and the prompt
-- that is made of them; the scheduled tasks; and the fences around what tools return.
--
-- The parts, and how they meet. A tool call `exec` starts a cell in its session (CodeMode/Service,
-- src/code_mode/service.rs). A background host then asks the cell's driver for updates
-- (CodeMode/Driver, src/code_mode/driver.rs), records each in the session's cell (CodeMode/Cell,
-- src/code_mode/cell.rs), decides with a tracker when to publish (CodeMode/Tracker, in service.rs),
-- and answers the caller of `exec`; `wait` watches the host and reads the cell's report
-- (CodeMode/Response, src/code_mode/response.rs; CodeMode/Response/Render prints it). The worker of
-- a cell sends the events of CodeMode/Protocol (src/code_mode/protocol.rs) and keeps its timers in
-- CodeMode/Timers (src/code_mode/runtime/timers.rs). A skill or a sub-agent runs with the limits
-- and the lineage of CallChain (src/call_chain.rs); Skills (src/skills) checks the chain when a
-- skill is activated and says which tools it sees, and Skills/Arguments validates its arguments. A
-- sub-agent ends as Agent/Exit says (src/core.rs), and Subagent (src/subagent_runtime.rs) turns
-- that end into the state of the job and the answer of the tool, and keeps the background jobs with
-- their notifications (Subagent/Jobs) and debug snapshots (Subagent/Debug); Subagent/Toolset says
-- which tools it has (src/session/factory.rs). Agent/Guard is `ExecutionGuardState` of src/core.rs.
-- Tools/Protocol has the errors and trace statuses of src/tools/protocol.rs and src/trace/model.rs,
-- and Tools/Envelope the envelope in which a tool returns its output (src/tools/protocol.rs).
-- Security (src/security.rs) fences that output. Context (src/context) keeps the conversation:
-- Context/Current has the turns and what is cut from the current one (turns.rs, history.rs),
-- Context/History chooses the turns of the history that fit in a budget (Context/Budget), each
-- cleaned by Context/Clean and shortened by Context/Shorten or Context/Rebuild with
-- Context/Sanitize (history.rs, sanitize.rs), Context/Compact replaces the oldest turns by a
-- summary, and Context/Transcript is the file of a session (transcript.rs). Context/Prompt
-- (prompt.rs) puts the request together, whose system prompt Context/Assembler
-- (src/context_assembler.rs) makes of Context/Evidence (src/evidence.rs), Context/TaskState
-- (src/task_state.rs) and the texts of the skills. Scheduler (src/scheduler.rs) keeps the scheduled
-- tasks and starts them, and Tools/Schedule (src/tools/scheduler.rs) is the tool that manages them.
-- ShellEscape (src/shell_escape.rs) says what is shown and kept of the output of a shell command.
-- Prelude holds what all parts share.
--
-- How code becomes definitions. A function keeps its name; a method takes its object as an argument
-- and returns the new one. What runs under one lock of `sessions` is one function on the whole
-- service, and concurrent callers and hosts are lists of such steps (CodeMode/Service/Steps). One
-- round of the host's loop is `host_turn`; it takes the lock up to twice, and what others do
-- between is an argument. The loop runs over the rounds that it meets, so it needs no fuel: each
-- round brings its times, the driver's answer and the steps of others. Host handles, shared by
-- `Arc`, stand in a table, and sessions and tasks hold their places in it; so does the counter of
-- calls that the contexts of a chain share, and the handle of a job, which its task keeps when the
-- store drops it. The driver's channel and timer are a list of arrivals. Times are milliseconds,
-- and the clock is an argument; the scheduler counts seconds, and a round of its loop is a function
-- of the time. JSON values, which the code passes on, are a type parameter; printed JSON, UUIDs and
-- hashes are arguments. The context reads JSON by the operations of the record `Crates`, which also
-- holds the tokenizer, the reader and the writer of envelopes and the regular expressions;
-- floating-point scores are the record `Scores`. The loop that strips thoughts runs on as much fuel
-- as the text has characters, which is enough since a round removes two tags. Files are lists of
-- lines or optional texts. A HashMap is an association list. The `u64` addition of a timer
-- saturates, and the `u8` of the strikes and the seconds of a delay wrap as in a release build; the
-- counters of cells, revisions and calls are unbounded.
--
-- Not modelled: the JavaScript engine and its worker thread, the spans and events of the trace, the
-- wake-up by `Notify` and the timeouts of tokio beyond the order of what arrives, the tasks that
-- run the jobs of sub-agents, the default system prompts, the snapshots and printed reports of the
-- context, and the rest of the agent (its loop, sessions, clients, tools and user interfaces). A
-- write to the transcript that fails, which the code only logs, does not happen here.
pub mod Prelude
pub mod Security
pub mod Tools
pub mod Context
pub mod CodeMode
pub mod CallChain
pub mod Agent
pub mod Subagent
pub mod Skills
pub mod Scheduler
pub mod ShellEscape
