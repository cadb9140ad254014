-- ===== src/Lib.antt =====
-- Verification of demesne, the MCP server that runs agents and commands in sandboxes: the parts of the
-- Go code that decide, count and clean up, each as functions on a state, with the theorems that make it
-- correct.
--
-- The parts, and how they meet. A tool, called by the host's client or by a run from inside its
-- sandbox, makes of a request (Spawns) a script, a sandbox that stays or an agent's run (Tools), which
-- is carried out and undone (Prepare, Scripts, Layout, Runs). A run's inputs are checked against the
-- allowed host paths (Mounts), its model chooses the agent (Agents), whose credentials are refreshed
-- (Credential), and a sandbox is created (Launch) with an image and a network policy (Egress). An
-- agent run is a background job (Jobs); the run may spawn children, whose names and outputs its
-- context keeps (Children). In the run's sidecar a proxy reads each response of the model vendor
-- through an interceptor (Sse), turns it into one usage event (Anthropic, Openai), and adds that to a
-- tracker (Tracker), which prices it (Pricing) and writes usage.json and usage.jsonl. When the run
-- ends the host reads usage.jsonl and the children's results.json and writes its own (Results), and
-- distils from the transcripts which subagent made which request (Attribution); a report on a tree of
-- runs puts the two together (Report). When the server starts, a reaper destroys the sandboxes whose
-- owner is dead (Owner). The ends of outputs are surfaced in results (Tails). The host's MCP servers
-- are found in the configuration of its agents (Discovery), reached through a pool of clients (Pool),
-- and exposed as an allowlist says (Allowlist); the files that they generate are delivered into the
-- workspace (Delivery).
--
-- The files, and the code that each models:
--   Jobs.antt, Jobs/: internal/sandbox/jobs.go, one job: the goroutine of Start and the tail of
--     cancelSubtree as atomic actions on one record, in any order. Settling has what holds after any
--     actions, Race who wins.
--   Jobs/Manager.antt, Jobs/Manager/: the registry of jobs: Start (start), Cancel (cancel,
--     cancel_subtree, cancel_node), reapExpired (reap_expired, is_expired), Wait (wait_begin,
--     wait_fire), Status (job_status, in Polling).
--     The objects are a store by id, since a pointer outlives the registry's entry.
--   Sse.antt, Sse/Chunks.antt, Sse/Bodies.antt: internal/proxies/proxycommon/interceptor.go and
--     ScanSSELines of usage.go.
--   Tracker.antt, Tracker/: internal/proxies/proxycommon/tracker.go: Add (add), AddDroppedParseError,
--     AddDroppedNoUsageBlock, snapshotLocked (snapshot), persistLocked (persist), appendRequestLocked
--     (append_request).
--   Pricing.antt, Pricing/Lookup.antt: internal/proxies/proxycommon/pricing.go and the catalogs of
--     internal/proxies/anthropic/pricing.go and internal/proxies/openai/pricing.go.
--   Anthropic.antt, Anthropic/: internal/proxies/anthropic/usage.go and CostUSD of pricing.go:
--     handleLine, applyStart, applyDelta, flush, wrapResponseBody.
--   Openai.antt, Openai/: the same of internal/proxies/openai: applyEvent is apply_usage, handleLine is
--     handle_line with apply_event.
--   Results.antt, Results/: internal/sandbox/results.go: readPerModelTokens, addPerModelTokens,
--     sumChildResults, sumChildPerModelTokens, writeResults. Ledger ties usage.jsonl to the tracker,
--     Vendors does so for the two vendors, Rollup goes over the tree of runs.
--   Attribution.antt, Attribution/: internal/sandbox/attribution.go: parseTranscriptJSONL (merge_lines),
--     distillAttribution, readAttributionMap, collectTokensByAgent, summariseSubagents,
--     buildUsageSummary. Dedup is about the transcripts, Summary about the summaries.
--   Report.antt, Report/: internal/sandbox/usagereport.go: resolveUsageReportDir, processUsageJSON,
--     processUsageJSONL, walkUsageNode, buildUsageReport. Directory is about the directory of a report,
--     Walk about the walk, Nodes about what a report's nodes stand for, Sums and Exact about tokens, Costs
--     about costs.
--   Owner.antt, Owner/: internal/sandbox/owner.go and internal/sandbox/reaper.go: ComputeOwner,
--     parseStarttimeFromStat, classifyOwner, ReapOrphans, defaultReaperList.
--   Children.antt, Children/: internal/sandbox/children.go.
--   Tails.antt, Tails/: internal/sandbox/stderr.go and internal/sandbox/jobs_io.go.
--   Mounts.antt, Mounts/: ValidateMountPath of internal/sandbox/paths.go, and allowedPathsFromEnv and the
--     output root of LoadConfigFromEnv in internal/sandbox/config.go.
--   Spawns.antt: the requests (types.go), internalAgentSpec and childSpawn of internal/sandbox.
--   Layout.antt, Layout/: buildLayout and agentVolumes of internal/sandbox/agent.go.
--   Runs.antt, Runs/: runAgent of internal/sandbox/agent.go (run_agent). Undone is about what a run
--     undoes, Closed about its mounts under open egress, Heirs and Confined about the inputs of its
--     descendants; Calls is what they share.
--   Scripts.antt, Scripts/: runScript of internal/sandbox/runner.go and create of
--     internal/sandbox/create.go. Kept is about what is left, Denied about the policy.
--   Tools.antt, Tools/: the handlers of internal/server/tools.go and internal/sandbox/childserver.go that
--     spawn a sandbox, over the two modules above. A request is a record of the accessors of the MCP
--     library; a run in the background is the same run with the handle of its job.
--   Settings.antt, Settings/: the rest of LoadConfigFromEnv.
--   Delivery.antt, Delivery/: internal/sandbox/filedelivery.go: DeliveryDir, Deliver (deliver_each,
--     deliver_one), alreadyUnder, uniqueBase. Naming is about the names, Copies about what is delivered.
--   Agents.antt, Agents/: Lookup and LookupByModel of internal/agents/agent.go, the model lists of
--     internal/agents/anthropic/models.go and internal/agents/codex/models.go, and resolveAgentModel,
--     resolveDefaultAgent, availableAgentNames and checkAgentCredentials of internal/sandbox/agent.go.
--   Shell.antt, Shell/: shellQuote of internal/sandbox/agent.go.
--   Credential.antt, Credential/: internal/proxies/openai/credential.go (ParseAuthJSON, jwtExpiry,
--     needsRefreshLocked, refreshLocked, EnsureFresh) and, in AuthFile, internal/proxies/openai/authfile.go
--     (refreshAuthFile, writeAuthFileAtomic, writeFileAtomic, writeAndClose), with the files of the host as
--     a map that each step changes.
--   Allowlist.antt, Allowlist/Resolution.antt: internal/mcpproxy/allowlist.go and
--     internal/mcpproxy/defaults.go: parseOverrideEntry, applyOverride, ResolveAllowlist.
--   Discovery.antt, Discovery/: internal/mcpproxy/discovery.go: parseUpstreams, parseCodexUpstreams,
--     DiscoverClaudeUpstreams and its twin (discover), mergeUpstreams.
--   Pool.antt, Pool/: internal/mcpproxy/clients.go: NewPool, acquire, resetIdleTimerLocked, evict and
--     Shutdown, and a timer that fires (expire), as a step relation. Live has what holds in every state
--     that is reached, Races who wins between an eviction and an acquisition.
--   Launch.antt, Launch/: launchSandbox of internal/sandbox/runner.go, with isCreateSandboxTransient and
--     containerIDFromError: the calls that are made, in their order, and the answer.
--   Mounts/Inputs.antt, Mounts/Inputs/: resolveMounts of internal/sandbox/runner.go and describeInputs of
--     internal/sandbox/agent.go. Apart is about the volumes, Described about the two together.
--   Prepare.antt, Prepare/: prepareSandbox (prepare_root, prepare_child), rootMounts and childMounts of
--     internal/sandbox/runner.go, which put Children, Mounts, Egress and Launch together.
--   Egress.antt, Egress/: internal/sandbox/egress.go (BuildNetworkPolicy), internal/sandbox/images.go
--     (staticImageURI) and resolveImage of internal/sandbox/runner.go.
--   Base.antt, Base/: what the modules share, and the parts of Go's standard library that the code uses:
--     strings and bytes over lists of bytes, maps as association lists, whose order stands for the order
--     of iteration, ParseUint, %d, TrimSpace, Fields, Split, sort.Strings and sort.Slice by an order, and
--     filepath's Clean, Join, Base, Ext and Rel.
--
-- Conventions. A string is its list of bytes. An int64 is its word of 64 bits, with sums modulo 2^64. A
-- float64 is a value of any type with an addition of which nothing is assumed; only report_costs_reconciled
-- takes exact addition and subtraction as hypotheses. The costs in a job's outcome
-- are only carried along, as integers. A JSON decoder or encoder
-- is a parameter. A call of the file system or of the network is an input, its outcome; where it can
-- fail, the failure is one of the outcomes. A mutex is taken for a whole call: a call is one step.
--
-- Fuel. cancel_subtree has one unit for each level of the tree; cancel gives it one more than there are
-- jobs, and the theorems on Cancel show that it reaches every descendant. scan_sse_lines has one unit for
-- each round; scan gives one more than there are bytes, and scan_sse_lines-eq shows that it is enough.
-- digits_of prints up to 20 digits, enough for 64 bits by parse_uint-decimal. The trimming and splitting of
-- spaces have one unit for each byte. walk_usage_node has one for each level of the directories, and Walk
-- shows when the walk returns: the code's own loop has no bound. free_candidate has one round more than
-- there are names taken, enough by unique_base_ends. All else is by recursion on its data.
--
-- Not modelled: a write to usage.jsonl that stops in the middle of a line; the proxies' servers, the
-- MCP aggregator, the context files and command lines of the agents, the schemas and the text of the
-- tools, the sidecar and the commands, and the operations on a sandbox that is there (exec, upload,
-- download, destroy): these call the SDK, the container runtime, the MCP library and the file system.
pub mod Base
pub mod Agents
pub mod Allowlist
pub mod Anthropic
pub mod Attribution
pub mod Children
pub mod Credential
pub mod Delivery
pub mod Discovery
pub mod Egress
pub mod Jobs
pub mod Launch
pub mod Layout
pub mod Mounts
pub mod Openai
pub mod Owner
pub mod Pool
pub mod Prepare
pub mod Pricing
pub mod Report
pub mod Results
pub mod Runs
pub mod Scripts
pub mod Settings
pub mod Shell
pub mod Spawns
pub mod Sse
pub mod Tails
pub mod Tools
pub mod Tracker
