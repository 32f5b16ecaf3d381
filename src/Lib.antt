-- ===== src/Lib.antt =====
-- The runtime control plane of the RKNnoVPN daemon (Go, under daemon/).
--
-- The daemon keeps one runtime: a proxy core with its network rules. Every change of it is an
-- operation of the orchestrator, which lets one operation run at a time, in a goroutine of its own,
-- and answers a second call with a busy error. A configuration reaches the runtime by a transaction
-- that tests it, saves it and then submits an operation. A reset takes the runtime down by a fixed
-- list of steps, under a lock file that other processes and later starts of the daemon read. Nodes
-- come in by batches, which a store collects until they are committed to the profile. A monitor
-- checks the running core; past a number of failures it marks the core degraded, and a rescue tries
-- ever stronger strategies. The manager of the core starts, stops and swaps the processes and their
-- rules by stages that it reports. An update is looked for once a day, fetched and installed by
-- transactions that record their progress, and its files are held against their checksums.
--
-- What models what:
--   Prelude      tests on numbers and texts, lists, maps from texts; no code of the daemon.
--   Runtime      daemon/internal/runtimev2 (orchestrator.go, types.go, busy.go, status_model.go):
--     Types, State, Report, Errors, Phase    the records of types.go and the Orchestrator; busyLocked
--                is `busy`, statusLocked `log_stuck` and `snapshot`, phaseFromHealth
--                `phase_from_health`, CanonicalStatusFromStatus `canonical_status`.
--     Engine     beginOperationLocked, submitLocked, runSubmittedOperation, finishOperationLocked:
--                `begin_operation`, `submit`, `finish`, `finish_operation`.
--     Commands, Updates    the methods: Start, Stop, Restart, Reset, HandleNetworkChange,
--                RunOperation, ApplyDesiredState, RefreshHealth and the other setters.
--     Tasks      the closures that the methods submit: `launched` of Start and Restart, `run_stop`,
--                `run_reset`, `run_network_change`, `run_callback`.
--     System     the interleavings of calls, locked sections and goroutines as a step relation, with
--                its invariant and its progress in child modules.
--   Reset        daemon/internal/resetcontroller: Files is mode.go, Controller is controller.go and
--                report.go (`run` is Controller.Run), Lock is lock.go; Operation is the controller behind
--                the orchestrator, in daemon/cmd/daemon/runtime_v2_reset.go.
--   Apply        daemon/internal/apply: Transaction is transaction.go (ConfigTransaction.Run) with
--                MethodOperationType of daemon/internal/ipc/contract.go, Runtime is runtime_config.go.
--   Import       daemon/internal/control/import_batch_store.go.
--   Profile      daemon/internal/profile (profile.go, operations.go):
--     Types, Keys, Ids    the records, NodeMatchKey, uniqueImportedNodeID.
--     Merge      MergeNodes: `merge_node` is a round of its loop.
--     Normalize, Summary, Endpoint    Normalize with normalizeSubscriptions, validatePort,
--                isValidAndroidPackageName and IsDisallowedSubscriptionEndpoint.
--     Operations    SetActiveNode, UpsertNode, RemoveNode and the other edits.
--     Merging, Identity, Places, Taken, Counts, Active    the proofs about a merge; Unique about ids;
--                Valid, Checks, Accepted, Providers, Tallies about Normalize; Edits about the edits.
--   Subscription    Merge is daemon/internal/subscription/merge.go (MergeSubscriptionNodes), Previews
--                is daemon/internal/control/subscription_preview_cache.go.
--   Core         daemon/internal/core (manager.go, xray_sidecar.go), the CoreManager:
--     Report, State    RuntimeStageReport, and a run of a method: a `CoreRun` holds the manager, its
--                report and the calls made, the newest first; `rules_asked` and `early_signal` of
--                Quiet read from the calls what was last asked for the rules.
--     Process    killProcessWithTimeout, the waits for ports, spawnSingBox, the Xray sidecar.
--     Launch, Stop, Swap, Restore    Start, Stop, HotSwap and
--                restorePreviousRuntimeAfterHotSwapFailure, a function for each stage.
--     Operations    SetConfig, SetState, MarkSelectorActive and Status.
--     Quiet, Ends, Starting, Started, Restoring, Falling, Swapping, Stages, Stopping    the proofs.
--   Update       daemon/internal/updater: State is install_state.go, Install is
--                install_transaction.go (RunInstallTransaction); Steps, Stages, Written and Outcome are
--                proofs.
--     Versions, Checks    NormalizeVersionTag and compareSemver, the choice of the assets, and
--                check_state.go (MaybeCheckForUpdate); Newer and Throttle are proofs.
--     Checksums  verifyChecksums of updater.go; Verified is its proof.
--     Download   download_transaction.go (RunDownloadTransaction); Kept and Downloaded are its proofs.
--   Recovery     Health is daemon/internal/health/monitor.go (`tick`, `run_once`) and Probes its
--                SetConfig (`set_probe_config`), Rescue is daemon/internal/rescue/rescue.go
--                (`attempt`, `rollback`).
--
-- How the parts meet: the report of Reset is what the orchestrator's reset task judges by
-- `reset_failure`, and Reset/Operation puts the one behind the other; the operation that Apply
-- submits is a kind of operation of Runtime. The nodes of a committed batch are those that a merge
-- takes into the profile, and Accepted puts MergeNodes behind Normalize.
-- The merge of a subscription is that merge with the provider's nodes settled behind it. The errors
-- and the reports of Core are what the backend of Runtime answers; the daemon's wiring between the two is
-- not modelled. The download and the installation of an update record their progress in one state.
--
-- Conventions. The mutex of the orchestrator makes every locked section one function on the state,
-- and a goroutine is a list entry of the system that a step takes away. What a backend, a callback,
-- a clock or the file system answers is an argument, and no theorem assumes anything of it beyond
-- its hypotheses. Machine integers that wrap are numbers modulo 2 ^ 64; instants and durations are
-- numbers of nanoseconds, where a difference stops at 0. The fields of the profile that Go declares as
-- `int` or `int64` are integers without a bound. Loops run over lists, but for two: the digits of a
-- number have fuel of its value plus one, and the search for a free id has a round for each id in use,
-- which is enough since its candidates differ.
--
-- Not modelled: rendering of the sing-box configuration, the scripts of the core, the
-- files and the JSON of the profile, the fetching and parsing of subscriptions, the transfers of
-- updates and the installation of their files, JSON framing and request decoding, diagnostics and
-- audit, the command-line client, and the Android application. They are projections, I/O, or components with a state that
-- none of the modelled ones reads. The texts of error messages are kept where a state or a report
-- holds them, and otherwise are constructors.
pub mod Apply
pub mod Core
pub mod Import
pub mod Prelude
pub mod Profile
pub mod Recovery
pub mod Reset
pub mod Runtime
pub mod Subscription
pub mod Update
