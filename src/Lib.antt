-- ===== src/Lib.antt =====
-- FlashAccess: temporary, single-session access to a MySQL server, behind a web gate.
--
-- A session is started with a client address and a lifetime. The manager of sessions calls the
-- activator, which creates a MySQL account for that address and opens the firewall to it. The
-- gate admits the holder of the session's key from the bound address, with a token in a cookie,
-- and every page of the dashboard checks session, address and token. The dashboard runs SQL. The
-- session ends by hand or by the reaper, which has the activator undo its work.
--
-- Files, and what they model:
--   Base            what the modules share: lists, Go strings and package strings, maps, results
--   Disk            package os, as far as it is used: files, and calls of the disk that may fail
--   Config          internal/config/config.go
--   Net             package net, as far as it is used: addresses, prefixes, containment, printing
--   Mysql/Driver    database/sql as the program sees it: a log of what is sent, answers to come
--   Mysql/Quote     escIdent and the quoting of literals, and how MySQL reads them back
--   Mysql/Names     the patterns for names of internal/mysql/mysql.go, admin.go and playground.go
--   Mysql/Accounts  CreateUser, DropUser, CreateAdminUser, DropAdminUser
--   Mysql/Hosts     CIDRToHost
--   Mysql/Databases databases and playgrounds of admin.go, playground.go and query.go
--   Mysql/Rows      row operations, browsing and user queries of query.go
--   Mysql/Tables    ListColumns, ListIndexes and Count of query.go
--   Mysql/Users     ListUsers of admin.go; Open and dsn of mysql.go
--   Mysql/Preview   PreviewQuery and its rewriting of UPDATE and DELETE
--   Mysql/Split     SplitStatements, on the runes of a script; Mysql/Script: RunScript
--   Firewall        internal/firewall/firewall.go
--   Stats           internal/stats/stats.go; Stats/Shown: FmtBytes and FmtUptime
--   Session         internal/session/session.go; Session/Lock: sync.RWMutex;
--                   Session/State, Session/Manager, Session/Restart: manager.go and active.go;
--                   Session/Manager/Running: Start, Stop and newID of manager.go;
--                   Session/Persisters: encrypted_persister.go and file_persister.go;
--                   Session/Keys: key.go
--   Access          internal/access/activator.go
--   Web             internal/web/auth.go (tokens, client address, middleware), and of handlers.go
--                   the gate and the end of a session; Web/Entry: the handlers before the gate
--   Web/Site        internal/web/server.go and the handlers behind the gate: Web/Site/Pages those
--                   that show, Web/Site/Statistics the two with figures of the machine,
--                   Web/Site/Changes and Web/Site/Access those that change, Web/Site/Routes the
--                   routes
--   Web/Grants      internal/web/permanent_store.go
--   Cli             cmd/flashaccess/main.go: the start-up of main, Cli/Connect, Cli/Modes,
--                   Cli/Sessions its commands, Cli/Terminal what they ask, Cli/Main which of
--                   them runs
--   Tests           the theorems below, each on a concrete input
-- A function has the name of its source in snake_case, and the source's name is in the comment
-- above it. The children of a module hold what is proved of it.
--
-- State is passed explicitly. A Driver holds what was sent and what the server will answer, a
-- Shell the commands that were run and how those to come will end, a Host both, with the random
-- bytes to come; so a theorem about every state is one about every answer of the outside. The
-- manager's operations run on its lock, its map and the world of its hooks and store, and an
-- operation comes back or blocks: there is one goroutine after the other. Hooks, store and the
-- check of keys are parameters of the manager, about which nothing is assumed; Cli has the program's
-- own, the activator, the encrypted file and Argon2id.
--
-- Texts are lists of bytes; times and durations are nanoseconds from zero on, and a difference of
-- times stops at zero where the source compares it with a positive bound. Loops are structural
-- recursions. Two helpers of Base run on fuel, `fields` with one round for each byte and `itoa`
-- with more rounds than the number has digits; the loop that parses an IPv6 address has eight
-- rounds, each of which writes two of its sixteen bytes. The rounding of a uint64 to a float has
-- twelve, one for each step that a float below 2^64 can have.
--
-- A Vault holds the disk and the random bytes of the store of the configuration: a disk holds how
-- its calls will end, a write that fails leaves any text in its file, and only a rename replaces a
-- file at once. A Site is the server with the list of permanent grants. A Setting is the terminal,
-- with what is still to be read, and the world. What a command prints is a value of Exit. A Probe
-- holds what the kernel answers to the statistics.
--
-- Not modelled: the hashing of passwords; the templates with their functions, and the embedded
-- files; the log; the texts that a command prints around its data; the permissions of files; the
-- pause behind a wrong key; time limits, which are failures of the driver. A RemoveAll that fails
-- removes nothing, and the reaper does not tick while a command of `session` runs. Upper case and
-- white space are those of ASCII, but for SplitStatements. AES-GCM, Argon2id, JSON, bcrypt, the
-- parsers of durations and of data source names, and the arithmetic of floats are parameters; where
-- a result is about what JSON reads back, it asks that of the values at hand, or says so: package
-- json alters a text that is not valid UTF-8.
pub mod Base
pub mod Disk
pub mod Config
pub mod Net
pub mod Mysql
pub mod Firewall
pub mod Stats
pub mod Session
pub mod Access
pub mod Web
pub mod Cli
mod Tests
