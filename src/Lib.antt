-- ===== src/Lib.antt =====
-- The execution broker of steam-cli: the program that may change a Steam library on behalf of an
-- agent, under a policy file that the owner of the machine writes; and the rankings
-- and the compatibility assessments of the planner beside it, which only advise.
--
-- The parts of the broker, all below src/steam_agent/execution, and the files that model them:
--   * The operation ledger, ledger.py (`ExecutionLedger`). Ledger/State has the states, the terminal
--     states and `_TRANSITIONS`; Ledger/Table the two SQLite tables, the version check, the
--     transaction and the single statements; Ledger/Intake `request`, `confirm` and `expire_lapsed`;
--     Ledger/Transition `get` and `transition`; Ledger/Reads the queries. Ledger/Stable turns a
--     property that the single writes keep into one that every method keeps, Ledger/Invariant has the
--     validity of the tables, Ledger/Outcomes the result and the writes of a transition,
--     Ledger/Expiry that `expire_lapsed` returns,
--     Ledger/RoundTrip what is found of a request, and Ledger/History any sequence of calls.
--   * The policy, policy.py: Policy/Toml has parsed TOML values, Policy/Load `load_policy` and the
--     questions that an `ExecutionPolicy` answers, Policy/Grants what a loaded policy satisfies.
--   * The intake of requests, agent_requests.py and `_floor_denial` of broker_main.py:
--     Requests/Intent has `_intent`, `_permitted` and `require_content_provisioning`, Requests/Intake
--     `record_or_reuse`, which reads the policy twice and calls the ledger; Requests/Bound,
--     Requests/Repeated and Requests/Reuse are about a repeated request, Requests/Consent about an
--     authorized one. Requests/Readiness has the
--     advice of readiness.py that may come before, Requests/Ready what it means. Requests/Receipts and
--     Requests/Retry have the `serialize_result` of receipts.py that reports on every call, and
--     Requests/Held where its receipts come from.
--   * The executor, executor.py, with `LeaseGates` of sessions.py and the poll loop of
--     `SteamcmdAdapter.install` in content_plane.py. Executor/World is the interface of everything
--     that it probes or starts; Executor/Restore has the helpers that every path ends in;
--     Executor/Launch `_launch`; Executor/Lease, Executor/Intake, Executor/Content and Executor/Adopt
--     the phases of `_execute_locked` in the order lease, directory, download, adoption;
--     Executor/Reconcile `_reconcile_locked`, a definition for each state. Executor/Paths carries a
--     property of the single calls to every path of these, Executor/Runs has sequences of executions,
--     recoveries and ledger calls, Executor/Unstarted the calls that a recovery does not make,
--     Executor/Dispatch counts the launches that they send, and
--     Executor/Recovery is about failures.
--   * The adoption journal, content_plane.py: Adoption/Disk has the files and the system calls,
--     Adoption/Adopt `adopt_manifest` and `clear_adoption_journal`, Adoption/Reconcile
--     `reconcile_adoption`. Adoption/Calls and Adoption/Uses carry properties of the calls to every
--     path, Adoption/Phases has the disks that an adoption leaves where it ends, Adoption/Restoring and
--     Adoption/Recovery what recovery makes of them, Adoption/Crash the two together,
--     Adoption/Clearing the end of an adoption, and Adoption/Refusals the journals that recovery does not
--     act on. The executor makes these calls through its `World`, whatever they return.
--
-- The rankings, below src/steam_agent, which share Ranking/Order (Python's order of tuples),
-- Ranking/Sort (`sorted` and `min` with a key) and Ranking/Reorder (keys without ties):
--   * storage_ranking.py: Ranking/Checks has the validators, Ranking/Storage/Candidate the candidates,
--     Ranking/Storage/Gates the gates, Ranking/Storage/Reclaim and Ranking/Storage/Travel the two
--     recipes; Ranking/Storage/OrderFree, Ranking/Storage/Ranked and Ranking/Storage/Eligible are about
--     them.
--   * deal_evidence.py and deal_ranking.py: Ranking/Deals/Evidence has the records,
--     Ranking/Deals/Choice the pairs that are compared, Ranking/Deals/Signals what is read off the
--     chosen one, Ranking/Deals/Rank `_rank_candidate` and `rank_deals`; the other files below
--     Ranking/Deals are about them.
--
-- The compatibility assessments, compatibility.py below src/steam_agent, which share those modules:
--   * Compatibility/Texts has the patterns and validators, Compatibility/Evidence, Compatibility/Target
--     and Compatibility/Candidate the records and their constructors, Compatibility/Gate and
--     Compatibility/Raw the gates, Compatibility/Assess `_assess`, Compatibility/Batch
--     `assess_compatibility` and its validation, Compatibility/Minimum the comparison of minimum
--     requirements, with Compatibility/Capacity about it.
--   * Compatibility/Verdict and Compatibility/Results are about the verdicts; Compatibility/Attributed,
--     Compatibility/Backing and Compatibility/Backed about the evidence behind them;
--     Compatibility/Lookup, Compatibility/Interchange and Compatibility/OrderFree about the order of the
--     input; Compatibility/Printable, Compatibility/Accepted, Compatibility/Derived, Compatibility/Raises
--     and Compatibility/Total about what is raised.
--
-- Shared by all:
--   * Checked has functions that raise a `ValueError`, for the rankings and the assessments.
--   * Exec has methods that change an object and may raise, with rules for invariants (Exec/Keeps),
--     results (Exec/Gives) and both (Exec/Triple); Exec/Fallible those that only raise. Scenarios has
--     concrete worlds, the tests and an application of each result.
--
-- How the code is read:
--   * A raise keeps the state that was reached, as in Python. `interrupt` is what `except Exception`
--     lets through: a world whose call raises it is a process that dies there.
--   * The clock is a function of the number of readings so far; times are seconds, because `_utcnow`
--     drops the microseconds and the stored texts of one format are ordered as the times are.
--   * A state or an operation in the database is a declared one or any other text, which the version
--     check refuses. The tables and the two unique indexes exist; an UPDATE is not checked against the
--     indexes, which the validity of the tables shows to be without effect.
--   * The calls of the operating system, of steamcmd and of the file system are fields of `World` on a
--     state of any type; each may return any value or raise, and nothing is assumed of them. A call
--     that sends or starts something is noted in `effects` before it is made; the note is a line of its
--     own beside the call, and Executor/Unstarted shows for a recovery that the calls themselves are not
--     made.
--   * The only fuel is the number of polls of a running steamcmd: the adapter's timeout bounds them,
--     and a run out of fuel is the timeout, at which the adapter ends the process.
--   * In the adoption every system call may fail or be the last one of the process. `_durable_write` is
--     three: the temporary written and synced, the rename, the sync of the directory. What
--     `reconcile_adoption` reads of the destination twice is one reading. A rename that a
--     loss of power undoes before that sync is the disk before the call. Paths are those that a journal
--     can name for one AppID; sha256, `re.subn` and the AppID of a manifest's text are parameters, and
--     the only assumption is that sha256 has no collisions, where it is needed.
--   * In the rankings a `ValueError` is the value of its message, a `KeyError` an `Option` that is
--     empty. Integers that a constructor refuses below 0 are natural numbers, the preference score is an
--     integer; fields that are always "unknown" are left out. `str.isprintable` is a parameter.
--   * In the assessments every `ValueError` is the value of its message. The literals "unknown" of
--     freshness, support, presence and rating have names of their own; regular expressions are tests on
--     the characters of a text. `assess_compatibility` takes values that their constructors returned.
--   * Texts of reports and details that interpolate a value are shortened to their constant part.
--
-- Not modelled: the creation and rebuild of the schema, the lock files, the process and file probes
-- behind the session and content adapters, the redaction of logs and results, the command line and
-- the desktop bridge; and of the planner beside the broker the storage of observations, the queries, the
-- recommendations and the providers, which are SQL, HTTP and parsers of files.
pub mod Prelude
pub mod Exec
pub mod Checked
pub mod Ledger
pub mod Policy
pub mod Requests
pub mod Executor
pub mod Adoption
pub mod Ranking
pub mod Compatibility
pub mod Scenarios
