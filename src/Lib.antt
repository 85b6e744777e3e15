-- ===== src/Lib.antt =====
-- Bouclier Bleu, an endpoint detection daemon: BPF programs in the kernel block and report, and a
-- daemon in user space loads them, parses their events, answers them, and takes commands over a
-- socket. This library models the daemon's Rust code.
--
-- An event of the kernel is a struct of bytes in a ring buffer. The daemon's loop (core/src/actor.rs,
-- Actor) hands it to the module with the buffer's name, whose generated method `process_event`
-- (modules/src/common/macros.rs, Module) parses it with `BpfReader` (modules/src/common/traits.rs,
-- Reader), writes it to the sink of alerts (modules/src/common/telemetry.rs, Siem) and calls the
-- module's handler. The ten modules are modules/src/*.rs (Modules, a file for each); the handler of
-- rename_entropy.rs counts strikes and kills process trees (Strikes). `build_registry` lists the
-- modules with their flags (Registry).
--
-- Commands travel from the client (cli/src/main.rs, Client) over the socket to core/src/ipc/handler.rs
-- (Command for the text, Ipc for the connection and the bounded channel), and from there to the loop,
-- which changes the flag in the kernel through the loader that core/build.rs generates (BuildScript for
-- the script, Loader for what it writes) and
-- then the registry's. At the start core/src/config.rs (Config) reads the configuration,
-- core/src/bpf_manager.rs (Kernel for the release test and the hooks, Engine for the rest) loads the
-- modules, with maps sized and filled by modules/src/common/fs_utils.rs (Watchlist, and Device for the
-- key of a file).
--
-- The daemon's `main` (core/src/main.rs, Startup) tests its rights, reads the configuration, loads the
-- modules, makes the channel and starts the listener (core/src/ipc/mod.rs, with the socket's directory
-- and binding of core/src/ipc/setup.rs in Ipc.Setup). Listener and engine then run side by side:
-- System has their steps, in any order, over the channel.
--
-- The task runner (xtask, Xtask) tests the daemon in a virtual machine: Xtask.Utils runs commands,
-- Xtask.Vm builds, isolates and restores the machine, Xtask.Runner runs the suites, Xtask.Report
-- writes the report and Xtask.Router reads the arguments. Xtask.Machine has the host's commands as a
-- data type with the arguments of each, and keeps the commands that were run; Xtask.Trace says
-- what such a list means for the machine.
--
-- A function of the source has the definition of the same name; code inside a longer function has a
-- definition of its own, named for what it does. State is passed explicitly: `World` (Host) is what
-- the modules change, `Daemon` (Actor) is the loop's, and `Exec` is work that may fail halfway. A
-- handler's reads of the clock, the process table, the locks and the serializer are the fields of
-- `Readings`, so that theorems hold whatever they return. The file system, the disk, libbpf, the
-- parser of TOML and Unicode's tables beyond ASCII are parameters. Texts are lists of code points,
-- bytes and words are natural numbers with the wrap-around written out, a hash map is an association
-- list whose order stands for the map's. Every loop of the model is structural recursion, so no fuel
-- is used; the engine's endless loop is run over a list of turns of any length, each with what comes
-- in and what the ring buffers hold. Both byte orders are covered.
--
-- Not modelled: the lines that core/src/main.rs, core/src/config.rs, core/src/telemetry.rs and the
-- task runner print (those of the modules, of the sink, of the loading and of the socket's set-up
-- are), the text of an operating-system error inside a message, threads other than as an order of
-- connections and rounds, `catch_unwind` around a handler, the parsing of the client's arguments, and
-- the C programs in bpf. In the build script the toolchain and the code that the crate quote renders
-- are parameters.
--
-- Parsing, Reader, Strikes, Module, Ipc, Command, Engine, Actor, Siem, Watchlist, Device, Config, Kernel,
-- System, Startup, BuildScript and Xtask have child modules for the proofs; Tests holds examples on concrete inputs.
-- Base has what they share, Exec the actions that may fail, with the rules for what holds after them.
pub mod Base
pub mod Exec
pub mod Reader
pub mod Host
pub mod Siem
pub mod Device
pub mod Toml
pub mod Watchlist
pub mod Module
pub mod Strikes
pub mod Modules
pub mod Command
pub mod Ipc
pub mod BuildScript
pub mod Client
pub mod Config
pub mod Loader
pub mod Kernel
pub mod Registry
pub mod Engine
pub mod Actor
pub mod System
pub mod Startup
pub mod Xtask
pub mod Parsing
pub mod Tests
