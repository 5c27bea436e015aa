-- ===== src/Lib.antt =====
-- A verification library for PgSentinel, a server that lets AI agents ask read-only questions of
-- databases and containers. An operator keeps definitions (a server, a database, policies) in
-- encrypted vaults and unlocks them in a web panel; an agent calls tools over MCP with a key; the
-- tools check what is asked against the definition and hand it to a database or a container.
--
-- The parts, with the source that they model:
--   Security      app/core/security.py: the guard that every SQL text passes (Security/Sql), limits
--                 and identifiers. `guard_sql_query` and the functions it calls keep their names.
--   Vault         app/core/vault.py and app/core/agent_key.py: the definitions (Vault/Data), their
--                 dicts (Vault/Codec), the file (Vault/Store, `class Vault`), a safe that the file
--                 implements (Vault/Store/Safe), and what is used of the cryptographic packages
--                 (Vault/Crypto).
--   Manager       app/core/vault_manager.py: the module's globals are the record `World`
--                 (Manager/State), the paths and codes of vaults are Manager/Names, and each
--                 function is an operation on the world, by its own name without the underscore
--                 (Manager, and Manager/Shared for the agent key of all definitions).
--   Mcp           app/mcp/auth.py (Mcp/Auth), and of app/mcp/tools.py what a tool does before its
--                 own work: the gate (Mcp/Gate) and the choice of targets (Mcp/Targets).
--   Tools         app/tools/postgres.py, with the tool query_readonly_sql of app/mcp/tools.py (Tools,
--                 Tools/Tables, Tools/Run), app/tools/logs.py, app/tools/docker.py and
--                 app/tools/health.py (Tools/Logs, Tools/Containers), and
--                 app/tools/safe_diagnostics.py (Tools/Diagnostics).
--   Remote        app/remote: the text of a remote command (Remote/Command), the loop that reads what
--                 it prints (Remote/Drain), ConnectionAdapter (Remote/Connection, Remote/Adapter), the
--                 clients of a configuration file (Remote/Client), DirectPostgresClient
--                 (Remote/Direct).
--   Config        app/core/config.py: the configuration file of the legacy mode. What YAML and the
--                 types make of the text is a parameter, with whether the file gives each of the
--                 three lists whose validators do not run on a default.
--   Masking       app/core/masking.py, with `re.sub` in Regex/Sub.
--   Audit         app/core/audit.py: the audit log, and the wrapper of every tool.
--   Admin         app/admin/routes.py: login, lock and setup (Admin/Access), the form of a
--                 definition (Admin/Definitions) and of the settings (Admin/Settings), and the
--                 routes that change vaults (Admin/Routes).
--   Base, Regex   what the parts share: texts, integers, results, state, JSON values, and the part
--                 of Python's `re` that the guard's patterns need.
--
-- How it is modelled:
--   * An operation that changes state and may raise is a function from a state to a result and a
--     state (Base/Exec): what was changed before an exception stays changed. An exception is a
--     value of a data type with one constructor for each message.
--   * A text is the list of its code points. Case, letters, digits and blanks are those of ASCII.
--     An `int` is unbounded.
--   * Encryption, key derivation, bcrypt and `secrets` are the parameter `Crypto`. `IsCrypto` says
--     what is relied on: a key opens what it closed, no other key does, a token fits its hash. The
--     n-th draw of random bytes is a function of n. `datetime.fromisoformat` and `uuid.uuid4` are
--     parameters too.
--   * A file is an envelope, a recovery bundle or a text, and the disk is a dict of files by path.
--     Reading and writing do not fail. The text between `json.dumps` and `json.loads` and the
--     base64 layer are left out.
--   * The lock of the manager and its threads are not modelled: an operation is one step, and a
--     round of the idle timer is one operation. Times are whole seconds.
--   * A run of a command is a function of what the SSH library, the server and the clock answer
--     (`Answers`, `Process`); it changes the temporary files, the open clients and the list of sent
--     commands (`Host`). The users of a connection are computations that ask for commands and keep
--     those that they asked for (`Asks`), with a function that answers them.
--   * A text is matched by backtracking over its suffixes, all matches in order. Four functions run
--     on fuel: `scan` and `sub_from`, the search for all matches and their replacement, on the
--     length of the text, since every round drops a character, `decimal_from` on the number that it
--     prints plus one, since every round divides by ten, and `drain`, the read loop, on 50 rounds
--     for a second of its limit and one more, since a round sleeps for 20 milliseconds.
--
-- Not modelled: the reading of YAML, the known hosts of SSH and the threads of a tunnel
-- (app/remote/hostkeys.py, app/remote/direct_postgres.py), `memory_usage`, which rounds a float,
-- app/tools/diagnostics.py and the tools that combine others, the tools that read the program's own
-- files beyond their checks, HTTP and templates. Of the panel, the connection tests and the pages
-- that only show something are left out. A masking pattern is not the empty text.
pub mod Base
pub mod Regex
pub mod Audit
pub mod Config
pub mod Masking
pub mod Remote
pub mod Security
pub mod Vault
pub mod Manager
pub mod Mcp
pub mod Tools
pub mod Admin
