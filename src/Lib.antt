-- ===== src/Lib.antt =====
-- podlaz runs a VPN on a Linux host. A privileged daemon changes the host's network in transactions, which it
-- records in files, from which recovery undoes what a crash has left behind. This library
-- models six parts of it, over Go sources under internal/. The plan of a tunnel is made from a snapshot, the
-- executor applies it, the steps go into a transaction, and recovery undoes what a transaction file says.
--
-- State: internal/state/transaction.go. A transaction moves through the states of `State/Status`, by
--   `Transition` and `MarkFailure` (`State/Lifecycle`). `ValidateTransaction` (`State/Validate`) also searches
--   the transaction's JSON document (`State/Json`) for secrets (`State/Secret`). `TransactionStore`
--   (`State/Store`) saves and loads files on a disk (`State/Disk`) on which any call may fail.
-- Recovery: internal/recovery. `recovery.go` scans the host for leftovers, orders them and runs an executor
--   over them (`Recovery/Plan`); `OSCleanupExecutor` undoes one resource (`Recovery/Os`, with its commands in
--   `Recovery/Command` and its tests of targets in `Recovery/Results`); `daemon_executor.go` undoes the rollback
--   metadata of a transaction (`Recovery/Metadata`, `Recovery/Rollback`,
--   `Recovery/Daemon`). What recovery does is a log of actions on
--   a host whose answers may depend on the log (`Recovery/Host`), and `Recovery/Allowed` lists the actions that
--   are allowed.
-- Network: internal/network/planner/tun.go. A snapshot of the host (`Network/Snapshot`) becomes the plan of a full
--   tunnel: routes and policy rules (`Network/Planner`, `Network/Parts`), the firewall (`Network/Firewall`), warnings
--   (`Network/Warnings`, `Network/Compact`), the steps that undo it (`Network/Undo`). internal/network/executor
--   applies, checks and undoes the device, the routes and the rules of a plan by `ip` (`Network/Executor`), the DNS of the
--   link by `resolvectl` (`Network/Executor/Resolved`) and the firewall by `nft` (`Network/Executor/Nftables`);
--   `Network/Executor/Full` is the executor over all of them.
-- Daemon: internal/daemon. `tun_transaction.go` and `tun_transaction_rollback.go` run a TUN transaction over the store and
--   an executor (`Daemon/Connect`, `Daemon/Run`) in a `Daemon/World`, which is the disk and the log of the host;
--   `Daemon/Connect/Prepared` is what stands on the disk when `Apply` starts, and `Daemon/Interrupted` what recovery makes of
--   it; `tun_child_process_rollback.go` stops processes (`Daemon/Processes`). `Daemon/Partial` is the part of a plan that the
--   applied steps name. What a transaction records of a plan is `Daemon/Metadata` and `Daemon/Desired`, of
--   `tun_transaction_metadata.go`; the plan that a disconnect reads back is `Daemon/Restored`, of
--   `tun_status_helpers.go`.
--
-- Profiles: internal/profile. `profile.go` is the record (`Profile/Model`), `Validate` (`Profile/Validate`) and the ids of
--   manual profiles (`Profile/Id`); `display_name.go` is `Profile/DisplayName`; `xray_provider.go` is
--   `Profile/Provider` and `Profile/Grouped`. What each operation of `store.go` and
--   `subscription_delete.go` makes of the loaded profiles is `Profile/Contents`, and the operations over the disk are
--   `Profile/Store`. They write by `WriteFile` of internal/storejson/write.go (`StoreJson`), on the disk of
--   `State/Disk`.
-- Subscriptions: internal/sub. `Subscription/Source` is the record and its validation, `Subscription/Sources` the store,
--   and `Subscription/Workflow` the import and the update of a subscription over both stores, from the fetched and parsed
--   content on.
--
-- `Prelude`, `Result`, `Text`, `FilePath` and `Netip` hold what these share: numbers, tests and lists, Go's value
-- and error pairs, and the parts of strings, strconv, path/filepath and net/netip that the code uses, on texts of
-- code points.
--
-- A text stands for an error, or a constructor that carries what the text quotes; a time is a number, 0 for Go's
-- zero time. The JSON codec, the clock, the regular expression for secret values, net.ParseIP, url.Parse, SHA-256
-- and the host are arguments. No definition needs fuel: each loop of
-- these parts runs over a list or a text. Recovery's view of a transaction file is one call of the host.
--
-- Not modelled: the daemon's processes, locks and HTTP server, the links and files that profiles are
-- imported from, the fetching and parsing of subscriptions, the
-- configuration of the core, the diagnostics, the command line, and all printing of results.
pub mod Prelude
pub mod Result
pub mod Text
pub mod FilePath
pub mod Netip
pub mod State
pub mod Recovery
pub mod StoreJson
pub mod Profile
pub mod Subscription
pub mod Network
pub mod Daemon
mod Examples
