-- ===== src/Lib.antt =====
-- kwt keeps the git worktrees of a team's repositories: a command line and a terminal interface in
-- front of a daemon that runs long operations, a service protocol between them, a parser of git's
-- status output, and policies that decide which worktrees may be taken away. This library models the
-- parts that carry that logic; each definition keeps the source's name, in snake_case for functions.
--
-- Parts and files:
--
-- * Service (service/error.go): failure codes, descriptors and what `errors.As` and `errors.Is` find
--   in a chain of wrapped errors. Service/Operation (service/operation.go): events, prompts,
--   responses, and the validator of a stream, `accept`. Shape and Stream are its proofs.
-- * Daemon/Gate (internal/daemon/gate.go): the gate that counts reservations and leases and drains.
--   Its methods hold a mutex, so each is one step from a gate to a gate, and `run` makes any sequence
--   of steps; the two waits are functions of the events that wake them. Reservations, Invariant,
--   Drain and Waiting are its proofs.
-- * Daemon/OperationEvent (internal/daemon/operation_event.go): the byte budget of an event and its
--   retained encoding. Strings has the budget of a JSON string; Strings/Encoding compares it with an
--   encoder written from the description of encoding/json, on the runes of Strings/Runes.
-- * Daemon/Problem (internal/daemon/server.go and internal/daemon/operation.go): the public descriptor
--   of a failure.
-- * Daemon/OperationHub (internal/daemon/operation.go): the hub of operations. Types has its state,
--   Events what happens to the events of one entry, Entries what finishes an entry, asks and answers
--   its prompt and adds and removes subscriptions, Store the lookups and the pruning, Starts the start
--   of an operation; OperationHub itself has the other methods, as steps on a hub, with `run` for any
--   sequence of them. `Kept` in Invariants is the interface that an invariant of the entries fills, as
--   Streams and Responses do; Keeping and Entrywise carry it over to the hub's calls.
-- * Status/Porcelain (internal/status/porcelain_v2.go): the parser of `git status --porcelain=v2 -z`.
--   Format writes the lines as git documents them.
-- * Status/Changes (internal/status/changes.go): what the parsed changes of a path add up to, and the
--   summary of a change set.
-- * PrunePolicy (internal/prunepolicy, internal/pullrequest/types.go, and one function each of
--   worktree/identity.go and internal/utils/utils.go): outcomes and reports (Types), and the decision
--   whether a worktree is merged (Merged, with Repositories, Outcomes and Search).
-- * Url (internal/url): Authority reads the parts of an address, Repository parses a remote, Identity
--   decides which texts are identities of repositories and folds them, Filesystem turns the authority
--   into a component of a path.
-- * Fleet (internal/fleet): Types has the manifests, HostId the host ids, Validation what a manifest must
--   be, Warnings the warnings, Utf8 the files of valid UTF-8, Grouping the rows that all manifests add up to, and Store the methods of
--   `FileStore` on a directory, with the failures of the context and the file system as arguments.
-- * Registry (internal/registry/registry.go): Entries has the entries and what matches a path, Changes and
--   Updates what each method does to the entries that it has loaded, and Calls the methods under the lock,
--   with the failures of a call as arguments. Groups, Swaps, Owned, Held, Kept, Spared, Left and Failing
--   are its proofs.
-- * Common has names of the libraries, lists, maps and text over native numbers, a result type with do blocks.
--
-- How they interact: the hub takes its release functions from the gate, as an argument of `start`; it
-- validates its own events with the service's validator, encodes them with OperationEvent and turns a
-- worker's error into a descriptor with Problem. A client runs the same validator on what it receives.
-- The fleet's store accepts identities that Url calls canonical and groups by what Url folds; the
-- registry writes the identity that Url makes of a repository.
--
-- Conventions. Text is a list of bytes. Trimming and lower case are those of ASCII; other bytes are left
-- as they are. Numbers are natural; a field of an options record that is not positive is 0, and 64-bit
-- sequence numbers wrap around where the code adds to them. A pointer is a number and a map a list.
-- An early return is the error side of a result. Wall-clock times are arguments.
--
-- Fuel. `parse_loop` takes a byte at least in each round and has the input's length as fuel;
-- `consume_loop` reads a byte at least for each unit; `prune_completed_loop` takes a completed operation
-- out of the map in each round, and has the number of entries as fuel. `canonical_within` has a number
-- of passes; `passes_for` counts them by the length of the text.
--
-- Parameters, which stand for code outside of the repository or for the outside world: `Codec` and
-- `Json` are encoding/json (`Json` with strconv's quoting and the digest of a state), `NetUrl` is
-- net/url, `Clock` prints and reads times, `MergedProvider` is the pull-request service, `World` the
-- file system's canonical paths, `canonical` in Registry what `PathKey` makes of a path, `Faults` what
-- the context and the file system answer in one call; the answers of id sources and reservations are
-- arguments. What is assumed of them is named: `IsNetUrl` states that the host and the path of a URL are
-- parts of its text, and that a URL with a host is printed as a text that reads back; `IsJson` that a
-- file of valid UTF-8 (Fleet/Utf8) decodes to what was encoded, and that what is decoded or quoted is
-- valid UTF-8. Nothing is assumed of the others. The registry's file stands for the list that it decodes
-- to, and encoding/json keeps the list where its texts are valid UTF-8.
--
-- Not modelled: processes, files, networks and terminals (internal/cmd, internal/tui, internal/ssh,
-- most of internal/daemon's transport), running git and tmux, configuration files, the lock files of the
-- registry's creations, and the library parts that only call these. A hub's worker waiting for a response
-- is left to its caller.
pub mod Common
pub mod Service
pub mod Daemon
pub mod Status
pub mod PrunePolicy
pub mod Url
pub mod Fleet
pub mod Registry
