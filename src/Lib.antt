-- ===== src/Lib.antt =====
-- teleagent-collab: the rules by which goals are carried out by workers and their results accepted.
--
-- A goal is a set of tasks; each task is run by a worker, at times under the review of a lead. The
-- parts modelled here decide, record and bound this work:
--   * Lifecycle.antt: src/framework/lifecycle.py. The states of tasks and goals with their edges
--     (`assert_transition`), the classes of failures (`map_error_class`) and the projection of the
--     scheduler's states (`project_scheduler_state`). The two tables are functions by clauses over
--     enumerations, and the names are looked up in dicts from strings.
--   * Budget.antt: src/execution_backend/goal_budget.py, the account of a goal. `reserve_entry`,
--     `reconcile_entry` and `release_entry` are the bodies of `reserve`, `reconcile` and `release`;
--     Budget/Store.antt puts the file round them: every operation reads the file first and writes it
--     at the end, so that an operation takes and gives back a `Session`, an object with its file.
--     Budget/Balance, Budget/Charges and Budget/Gate are about one operation; Budget/Store/Recovery
--     and Budget/Store/Steps about every sequence of operations by any objects.
--     Budget/Entry.antt is `can_enter_running`, the gate of a task's start, which asks TaskDeps, Claim
--     and the account, and `attach_goal_budget`.
--   * Claim.antt: src/execution_backend/workdir_claim.py, who may work in a directory. The registry's
--     entry of one directory with the two critical sections of `_try_acquire` (`first_section`,
--     `second_section`) and `release`; Claim/World.antt, threads of several processes whose steps come
--     in any order, with the lock file's lock between the sections; Claim/Waiting.antt, the loop of
--     `claim`; Claim/Counting.antt, nested claims.
--   * AgyPool.antt: src/execution_backend/agy_account_pool.py, the accounts of the antigravity tool and
--     their cooldowns; AgyPool/Leases.antt, leases of busy accounts; AgyPool/Selecting.antt,
--     `select_account`; AgyPool/Preparing.antt, the loop that finds an account whose home is free.
--   * TaskAuth.antt: src/task_auth.py, what an action may do inside a charter (`authorize_action`).
--   * Failures.antt: src/framework/failure_projection.py with `sanitize_reason` of
--     src/framework/need_human.py, what is told of failed tasks.
--   * Completion: src/completion.py. Completion/Artifacts.antt has the snapshots and their comparison,
--     Completion/Rework.antt the bounded number of reworks, Completion/Gates.antt the two gates of
--     success (`job_end_contract_close`, `is_success_allowed`).
--   * Concurrency.antt: src/framework/concurrency.py. Which tasks are ready, whether a goal still makes
--     progress, how many runs may start (`remaining_slots`), and what the public views say.
--   * Outbox.antt: src/framework/outbox.py. The events of a state change (`make_event`,
--     `normalize_event`); Outbox/Store.antt, the entities and rows with their files and recovery;
--     Outbox/Store/Commit.antt, transactions; Outbox/Store/Claims.antt, claiming and marking;
--     Outbox/Inbox.antt, the receiver;
--     Outbox/Transit.antt, `commit_transition`, which asks Lifecycle's `assert_transition`, with what
--     others do between its two holds of the lock as an argument;
--     Outbox/Delivery.antt, `pump_outbox`, which joins the two stores.
--   * TaskDeps.antt: src/framework/task_deps.py. The references that `depends_on` holds, and which of
--     them are unsatisfied (`unsatisfied_deps`).
--   * PathScope.antt: src/framework/path_scope.py, when an allow path or glob lies within a ceiling.
--     PathScope/Parsing.antt has the patterns, PathScope/Globs.antt the matching of segments, whose
--     table is a list for each row, PathScope/Covering.antt `pattern_covered` (`parsed_covered`, once
--     the patterns are parsed) and `allow_item_covered`.
--   * Ownership.antt: src/framework/goal_ownership.py, who coordinates a goal and how its plan is
--     revised. Ownership/Json.antt has the documents, Ownership/Autonomy.antt the checks of
--     src/framework/delegation.py, Ownership/Contract.antt the goal contract,
--     Ownership/Checks.antt `_check_contract_ceiling`, Ownership/Plans.antt
--     `validate_plan_revision` (`validate_document`, for a plan that is an object),
--     Ownership/Store.antt `claim` and `handoff`, Ownership/Grants.antt `merge_authorized_grant`,
--     Ownership/Revisions.antt `propose_plan_revision`, `commit_revision` and
--     `submit_plan_revision`, with what others do between its proposal and its commit as an argument;
--     Ownership/Fencing.antt, every sequence of these calls. It asks
--     Lifecycle's `assert_transition` and PathScope's `allow_item_covered`.
--   * Common.antt: what the parts share: Python's tests and text operations, dicts, lists, results.
--
-- The model. Fallible operations give a `Result`, an exception being its error. Objects with a file
-- are states that are passed on; the persist lock (src/framework/persist_lock.py) makes operations
-- follow one another, and one write of a file happens at once (it replaces the file). A file is
-- missing, cannot be read, or holds a payload, whose JSON text is not modelled. Times and usage,
-- floats in the source, are exact natural numbers; in the account the unit is 1e-9, so that its
-- tolerance 1e-9 is 1. An operation reads the clock once. Ids from uuid4, the digest of bytes, the
-- file system, how `Path` prints a path, and the answer whether a directory is held (in Concurrency.antt) are parameters. So are
-- the operating system's lock of a file (`FileLock`, of which Claim/World.antt uses that only its last
-- taker owns it until that handle is unlocked), what a host tells of processes and clocks (`Host`),
-- the pattern that finds credentials, and the comparison of paths; in PathScope.antt `str.lower` and
-- `fnmatchcase` (`PythonText`), and in Ownership.antt what `str`, `float` and `int` make of a JSON
-- value (`Python`). In AgyPool.antt the unit of time is
-- a microsecond. Python's integers have no bound, so that there is no overflow; counts and caps are
-- natural numbers, and a subtraction that stops at 0 stands where the source has `max(0, ...)`. White
-- space and lower case are those of the strings that the code compares with (Common/Text.antt); where
-- two texts in lower case are compared, the hosts, gates and tools of TaskAuth.antt and the names of
-- jobs in TaskDeps.antt, they are taken to be ASCII. Recursion is on lists, except for two loops
-- that ask the world again: `claim`, whose fuel is enough once it exceeds the number of rounds before
-- the clock passes the deadline, and `pick`, for which a round for each account and one more are
-- enough.
--
-- Not modelled: the services, schedulers, backends and command line tools, which call processes,
-- sockets and the desktop; in src/execution_backend/goal_budget.py the simulations and the limits that
-- a charter gives; in src/execution_backend/workdir_claim.py the JSON of the occupancy file and the
-- jobs that run inside a claim; in src/execution_backend/agy_account_pool.py the pool's JSON, the
-- child's environment and the switch lock, under which an operation is one step; in
-- src/framework/outbox.py the commit of several transitions, the caches and the read-only views; the
-- path functions of src/framework/concurrency.py; the prompt text of src/completion.py;
-- `execution_path_allowed` of src/framework/path_scope.py, which follows links in the file system; in
-- src/framework/goal_ownership.py the JSON of the store, the notes and the views; in
-- src/framework/delegation.py the verdicts on decisions.
pub mod AgyPool
pub mod Budget
pub mod Claim
pub mod Common
pub mod Completion
pub mod Concurrency
pub mod Failures
pub mod Lifecycle
pub mod Outbox
pub mod Ownership
pub mod PathScope
pub mod TaskAuth
pub mod TaskDeps
