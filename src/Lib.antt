-- ===== src/Lib.antt =====
-- HyprBlocker blocks websites and applications on a Linux desktop and is built to resist its own
-- user: a user daemon (daemon/) decides what is blocked, a root service (enforcer/) owns the lock
-- and the enforcement policy, and a loosening of either waits for a delay that is counted by
-- verified time. This library models the decisions of both, and proves what they promise.
--
-- Which file models which part:
--   Base         helpers: Boolean tests, lists, integers, floats, times, texts
--   Blocker      daemon/blocker.py. Url: patterns and protected addresses; Priority: attributes of
--                a block and its band; Evaluate: evaluate_url_against_blocks and the site queries
--   Schedule     daemon/scheduler.py: which blocks are in force; its result is the list that
--                Blocker.Evaluate takes
--   SettingsLock daemon/settings_lock.py: the fail-closed reader of the lock in both layouts
--   Unblock      daemon/pending_unblock.py. Queue: the delayed changes, with the settings and the
--                block table that they change
--   TimeVerifier, LockManager  daemon/time_verifier.py and daemon/lock_manager.py: the locks of single
--                blocks and the time they are read by
--   SettingsRoutes  daemon/api/routes/settings.py: the protections, the watchdogs and the lock, guarded by
--                SettingsLock; Unblock.Delay is the route of the delay
--   BlockRoutes  daemon/api/routes/blocks.py: update_block, which queues a loosening update with
--                Unblock.Queue; Strict: the routes that a lock allows and the deletion; Locked: calls
--                of the routes in a row, with the guard of daemon/api/deps.py; Zone: an extension behind UTC
--   Grants       daemon/grants/: Policy, RateLimit, Models and Tier1 by their names; Regex and
--                Denylist: denylist.py; Executor: executor.py; Store: store.py and get_blocked_sites of
--                daemon/api/routes/status.py; Judge: judge.py, with the Prompt; Broker: request_grant of
--                daemon/api/routes/grants.py, which asks Judge, writes the log that RateLimit counts,
--                and adds to the Store
--   Heartbeats   daemon/heartbeat_tracker.py; Caught runs it through the checks and cleanups of run_check in
--                daemon/hyprland_monitor.py
--   ProcScan     enforcer/proc_scan.py
--   Watchdogs    daemon/watchdog.py
--   NativeHost   extension/native-host/host.py
--   Enforcer     enforcer/logic.py (Policy, Change, Kill), enforcer/heartbeat.py (Attest), and
--                enforcer/main.py in two halves, Guard and Requests, with
--                daemon/enforcement_policy.py
--   Breakglass   enforcer/breakglass_runner.py (Runner), daemon/grants/breakglass.py (Status)
--
-- How the state is modelled: the files of a component are the fields of a record, each operation is
-- a function on it, and an exception that leaves an operation is a constructor of its result. What
-- the world decides comes in as an argument of each step: the clock, the answers of the NTP servers,
-- the files that the user drops, the system calls that fail. A JSON value stands as what the code
-- makes of it, with a case for each shape that the code tells apart. Requests.settings_tick is the
-- settings part of Enforcer.tick: _process_settings_requests, then _apply_matured_pending.
-- Guard.guard_tick is the part before: _check_heartbeat, _issue_challenge and the kill decision. The
-- two share only the policy, which each takes as an input of the tick. The kill itself, the repair of
-- the service and _write_state are I/O and left out.
--
-- Bounds: instants are integers of milliseconds, and floats are such integers, the infinities and
-- NaN, without rounding. The numbers and the kill-list of an enforcement policy may be other JSON values,
-- next to which a comparison raises; a value that is no number is not told apart from another one. An
-- exception that leaves _check_heartbeat, the process scan or the handling of the requests ends that half
-- of the tick. Texts are ASCII code points, so lower and strip are those of ASCII, and so
-- are the classes of the regular expressions. All loops run over lists or texts, and the matcher of
-- regular expressions over the expression, except for NativeHost.run: its fuel is a bound on the rounds,
-- and one more than the length of the input is enough.
--
-- Not modelled: the browser extension and the user interfaces, network and process I/O, the reading
-- routes of the HTTP API and that of the judge policy, and the matching of applications. What the
-- judge's client answers, json.loads and json.dumps are arguments of Grants.Judge and of its Prompt.
pub mod Base
pub mod Blocker
pub mod Schedule
pub mod SettingsLock
pub mod Unblock
pub mod TimeVerifier
pub mod LockManager
pub mod BlockRoutes
pub mod Grants
pub mod Heartbeats
pub mod ProcScan
pub mod Watchdogs
pub mod SettingsRoutes
pub mod NativeHost
pub mod Enforcer
pub mod Breakglass
