-- ===== src/Lib.antt =====
-- The verification library of OpenVibe.Codes, the service that runs coding agents for a person. The
-- engine decides, over plain data: which runner a brief goes to, at which level of effort, under which
-- limits, and what follows when an attempt ends. The server keeps the tables: the run tasks with their
-- jobs, the attempts of a task, the approvals that an agent waits for, the events that tell the Network,
-- and the agent that a conductor's turn runs on.
--
-- How they interact. A task is one row, and the job that runs for it now is a field of the row. The
-- start of a task writes the row and its first attempt and asks Run for a job, whose input the harness
-- reads again on the machine (Harness/Job). Run's events come back through the consumer, which handles
-- an event once, and through the poll of a page; both write the row through recordState, which announces
-- the change in the outbox in the same transaction. The end of an attempt goes from there to the
-- server's attempts and the engine's chain, and what they decide is the row's outcome or a follow-up:
-- another attempt and another job for the same row. The router's windows and rows serve the chain, the
-- conductor's failover and the server's attempts alike.
--
-- Which file models which part:
--   Runtime            what is taken from JavaScript: String and RegExp methods, as a record
--   Prelude            the native numbers, lists, options and objects that all parts share
--   Engine/Effort      engine/effort.js: fitEffort, stepUp, pickModel, blockModel, unblockModel
--   Engine/Budget      engine/budget.js: limitsFor, caps, evaluate, state, wrapUp
--   Engine/Router      engine/router.js: windowFull, balanceLow, roomFor (Windows), forcedTier,
--                      classifyText, classify (Classify), track (Track), connected, pick (Pick), LADDER (Rungs)
--   Engine/Chain       engine/chain.js: reason (Attempt), facts, detect (Facts), carriedMap,
--                      settleChain, chainEnd (Settle), nextRunner (Runner), ownerSettled,
--                      settledParent, step (Step)
--   Server/Approvals   server/domain/approvals.js: create, get, pending, inbox, decide, decideAny, stop
--   Server/Attempts    server/domain/attempts.js: list, create; bind, end, spend (Updates); nextAgent
--                      and decide (Plan), routing and factsOf (Routing)
--   Server/RunTasks    server/domain/run-tasks.js: the row and its states (RunTasks, Words), the task's
--                      budget (Spending), recordState (Record), what an ended attempt comes to (Outcome),
--                      startFollowUp (Follow), afterEnd (End), applyJob, applyEvent and refresh
--                      (Events), continueTask (Turns), stopTask (Stop), start (Start), present (Shown),
--                      attemptEnv, withEnv (Funding), personConnections, ownMachineOf (Connected)
--   Server/Consumer    server/events-consumer.js: handleRun, ignore
--   Harness/Job        harness/job.js: parseArgs, jobEnv, jobAttachments (Parse), behind the JSON
--   Server/Fleet       server/domain/fleet.js: windowOf, mergeWindows, stateOf; refresh (Stored),
--                      latest, byHarness (Gathered), balances, forRouter, agents, deviceFor (Agents)
--   Server/Failover    server/domain/conductor-failover.js: cleanSwitchPct, cleanFallbacks,
--                      storedFallbacks, usageOf, choose, describe (Labels)
--   Server/Outbox      server/events/outbox.js: emitTask, emitAgentStep, payloadOf, agentStepOf,
--                      repoSlug (Emit), backoffMs, claim, runOnce (Relay)
--   Server/Placement   server/domain/harness-placement.js: toOffer, requirementsFor, route
--   Server/RunTokens   server/domain/run-tokens.js: mint, registerBudget, record, spend,
--                      envFor (Env)
--   Tests              the theorems on concrete inputs
-- The other modules below a part hold its theorems, and are named for what they prove.
--
-- How the code is read. A table is the list of its rows, and an operation that writes answers the new
-- list; what runs in one transaction is one step. Where an operation reads in one statement and
-- writes in another, and a theorem depends on what comes between, what it read is an argument beside
-- the table that it writes to (create of the approvals), or what others do between is (handleRun).
-- Texts are opaque but for their equality: lower case, trimming, cutting and the tests of patterns
-- are the fields of Runtime, and a pattern is its text. Times are milliseconds, money is in whole
-- units, as the module says, and a percentage is a ratio. A value that JavaScript may find undefined,
-- null or empty is an Option, with what the code does on "" written out. The clock, fresh ids, what
-- other processes insert, what the database holds locked and what OpenVibe.Events answers are
-- arguments.
--
-- Bounds. The walk along a chain of attempts takes twelve steps, as the source's loop does. The loop
-- that writes an attempt runs over the list of what its rounds draw, so it ends with the list; the
-- source makes five rounds. All other loops recurse on a list.
--
-- Not modelled: HTTP, pages, rendering and sign-in; the files, processes and prompts of the engine; the
-- sandbox and the harness processes, but for the job's input; the texts that only a person reads, but
-- for those that a later decision reads. The lease of a claim is modelled for one pass at a time. Of the
-- chain engine annotate and outcome are still missing, so that decide takes the engine's step as an
-- argument, and the end of a task's attempt its verdict. Of a run task the words of its prompts and
-- notes, the proof, the knowledge, the session report and the sharing are left out, and its acts take the
-- mode that the funding answers as an argument; they run one at a time.
pub mod Prelude
pub mod Runtime
pub mod Engine
pub mod Harness
pub mod Server
pub mod Tests
