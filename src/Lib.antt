-- ===== src/Lib.antt =====
-- Sentinel asks the user of a desktop to confirm a privileged action: a PAM module and a polkit agent
-- open a dialog in a process of its own, and a broker and the agent's cache remember answers for a
-- while. This library models the programs' decisions and states what lets a request through.
--
-- The parts, and how they interact. The PAM module (crates/pam-sentinel) runs as root inside sudo, su
-- or polkit's helper. It first asks the polkit agent (crates/sentinel-polkit-agent) on the system bus for
-- an approval, then reads its configuration, looks for a display, consults the policy and the broker
-- (crates/sentinel-broker, over crates/sentinel-broker-proto), and otherwise opens the dialog
-- (crates/sentinel-helper-kde). The agent runs an authentication for polkit: policy, cache or dialog,
-- then an approval in its queue and a conversation with polkit-agent-helper-1, whose PAM module takes
-- that approval. crates/sentinel-shared holds what both share.
--
-- Which file models what:
--   Common, Text: lists, options and texts. A text is its list of code points. Text holds what the code
--     uses of str: trim, split, split_whitespace, join, parse and to_string.
--   Verdict, Basename, Policy, Config, Message, LogKv, Elevation, Procfs: crates/sentinel-shared/src/lib.rs,
--     one module per part, with the names of its functions.
--   Proto, Proto.Frame: crates/sentinel-broker-proto/src/lib.rs. postcard is the parameter Codec.
--   Logind: the module logind and logfmt_session_for_pid of the same file; Config.Load is its load_from.
--   Audit: crates/sentinel-shared/src/audit.rs, and the init_logger functions that call it.
--   Grants: the map from keys to instants that the broker's store and the agent's cache both are.
--   Broker: crates/sentinel-broker/src/store.rs and server.rs; Broker.Daemon is main.rs.
--   Agent: crates/sentinel-polkit-agent/src: Queue is approval_queue.rs and bypass_service.rs, Cache is
--     remember.rs, Helper1 is helper1.rs, HelperUi is helper_ui.rs, Identity is identity.rs, Session is
--     session.rs, Begin is agent.rs, Registration is main.rs and subject.rs. Flow is agent.rs again, step by
--     step: the requests that wait for the mutex, the one that holds it, its session's task, the
--     cancellations and pam_sentinel, with Session's run as one of the ways its session can go.
--   Pam: crates/pam-sentinel/src: ProcessInfo is proc_info.rs, BrokerClient is broker_client.rs, Bypass is
--     agent_bypass.rs, Display is display.rs, Locale is locale.rs, Helper is helper.rs, Authenticate is
--     lib.rs.
--   Dialog: crates/sentinel-helper-kde/src/bridge.rs. A run of the dialog is a list of inputs: ticks, clicks and
--     the end of the event loop. Dialog.Startup is src/main.rs of the same crate, from the environment to the
--     verdict that is written.
--   I18n, Cli: crates/sentinel-shared/src/ui_i18n.rs and cli.rs. Cli.Arguments holds the arguments that `Args`
--     declares, as data that clap, a parameter, is given, and the record that its matches make.
--     Agent.HelperUi.Arguments and Pam.Helper.Arguments join them with the two spawners, and
--     Agent.HelperUi.EndToEnd and Pam.Helper.EndToEnd with the dialog and the way its verdict comes back.
-- State is passed explicitly. What a function meets outside the program, such as the contents of
-- /proc, the answers of PAM and of the bus, the lines and bytes that other processes send and the
-- instants at which the clock is read, is an argument, mostly a record named Env, Proc, Bus, Link,
-- Kernel or Desktop. A function is one step, with no wait inside it, but approvals may be taken
-- while helper-1 runs, and the queue's theorems hold for calls in any order. Where tasks interleave,
-- in Agent.Flow, what lies between two waits is a constructor of the relation Step, and Reach is its
-- closure. Step has more histories than the program: how and when a session ends is left open, the timeouts
-- of the dialog and of helper-1 are no part of it, and a wait for a lock always gives up the turn, which in
-- the agent's single-threaded runtime an uncontended lock does not. So what is proved of all histories holds
-- of the program's, and nothing is claimed of progress. Where the order of system calls matters, in Pam.Helper.Child, Broker.Daemon and
-- Agent.Registration.Lifetime, a function gives the list of the calls that are made.
--
-- Numbers: instants are natural numbers of nanoseconds. u32 values are natural numbers; where i32
-- arithmetic can overflow, its wrap-around is written out, as in parent_poll_timeout. The pids
-- that polkit names and that the dialog shows are integers, negative ones included; elsewhere a pid is a
-- natural number, and the readers of /proc take every pid that is not positive as zero. Writing a number in decimal uses one unit of fuel
-- more than the number, which is at least its count of digits.
--
-- Not modelled: parsing TOML and command lines, D-Bus, the codec's bytes, Qt and
-- the generation of completions and man pages. Of a log line only the fields that the records name.
pub mod Common
pub mod Text
pub mod Verdict
pub mod Basename
pub mod Policy
pub mod Config
pub mod Elevation
pub mod Message
pub mod LogKv
pub mod Procfs
pub mod Grants
pub mod Proto
pub mod Broker
pub mod Agent
pub mod Pam
pub mod Dialog
pub mod I18n
pub mod Cli
pub mod Audit
pub mod Logind
