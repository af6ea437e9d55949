-- ===== src/Lib.antt =====
-- common-keyring, a library in Go that stores secrets in the credential store of the platform:
-- its selection of a backend, its clients of the stores of Linux, macOS and Windows, its filesystem
-- backend on Linux and its bridge from WSL2 to Windows.
--
-- Parts and files. A path is that of the repository.
-- Errors models Go's error values and `errors.Is` (internal/contract/errors.go,
-- secure/wsl2/errors.go and the sentinels of the standard library that the program compares with).
-- Errors/Matching holds the lemmas on it.
-- Contract is internal/contract: a context and `ContextError` (context.go), the interface
-- `Keyringer` (interfaces.go), descriptions (Contract/Info, info.go) and the selection error with
-- its `Unwrap` (Contract/SelectionErrors, selection.go). Contract/Memory says what calls in a row on
-- a keyring may answer, if it is a map from keys to secrets whose calls may fail.
-- Selection is `SelectBackend` of internal/selection/selection.go. Selection/Outcome describes its
-- runs without the code, Selection/Winner how it comes to a keyring, and Selection/Rejections what
-- it records.
-- Keyring is the root package (keyring.go, types.go and keyring_*.go): options, the native
-- keyring, the default order, the map of openers and `Open`, for the record `Platform` of what one
-- build supplies.
-- Secure is secure/keyring.go, keyring_linux.go and info_*.go: `Open` with `linuxGetter` or
-- `defaultGetter`.
-- LimitedBuffer is internal/iox/buffer.go.
-- Wsl2 is secure/wsl2: reports of the helper (Wsl2/Reports, errors.go), requests and responses
-- (Wsl2/Protocol, protocol.go), one exchange with the helper's process (Wsl2/Client, client.go and
-- process.go), and the keyring with its discovery and portable errors (Wsl2/Keyring, keyring.go).
-- Wsl2/Keyring/Probed follows the discovery to a keyring.
-- Filesystem is internal/backend/fs on Linux: Filesystem/Layout is layout.go, Filesystem/System the
-- interface `linuxSystem`, Filesystem/Paths the functions of path/filepath that the mount table
-- needs, Filesystem/Mounts mount_linux.go, Filesystem/Directories directory_linux.go,
-- Filesystem/Storage, Filesystem/Writing and Filesystem/Faults the rest of storage_linux.go,
-- Filesystem/RealSystem its `realLinuxSystem`, which puts the mount table and the directories under
-- the storage, Filesystem/Keyring keyring.go, and Filesystem/Elsewhere keyring_unsupported.go.
-- Filesystem/Storage/Traces runs the storage over a system that notes its events, and
-- Filesystem/Storage/Replaced follows its steps. Filesystem/Posix says what the storage relies on of
-- the files behind its system: a `View` of a state tells what the files hold and what descriptors
-- are open on, and the laws of `Posix` what each call does to it, whatever errors it returns.
-- Filesystem/Posix/Kernel says what the mount table and the calls on directories are to do, and
-- derives from it the laws of `Posix` for `realLinuxSystem`. Filesystem/Posix/Refinement follows
-- the storage along calls in a row, and Filesystem/Posix/Kernel/Locked the keyring.
-- Filesystem/Posix/Working adds a system of which no call fails. Filesystem/Posix/Kernel/Stopping
-- stops a process behind any number of calls of the operating system: from then on each call fails
-- and does nothing, so that the state behind an operation is that in which the process was stopped.
-- SecureFs is secure/fs/keyring.go.
-- Keyctl is internal/backend/keyctl/keyring_linux.go, the kernel's keyring of the user session.
-- Keyctl/Laws says what it relies on of the keys in the kernel, Keyctl/Stored what its operations do
-- to them, and Keyctl/Refinement follows calls in a row.
-- Windows is internal/backend/windows, Darwin internal/backend/darwin, and Native the choice of a
-- build's store in internal/backend/native.
-- Fake is secure/fake/keyring.go, the keyring in memory.
-- KeyringCli is examples/keyring-cli/main.go, the example program over cobra and the streams of the
-- process, and KeyringCli/Success what a run of it has done.
-- Dbus is internal/backend/dbus: Dbus/Faults is errors.go, Dbus/Client client.go, and Dbus/Probe and
-- Dbus/Dialing probe.go, over the record `Bus` of what connections and contexts do. Dbus/Traces
-- notes what a client acquires and releases, and Dbus/Balance and Dbus/Keeping count it.
-- Tests holds runs at concrete inputs.
--
-- How they interact. Each operation is a function of a world `W`, which stands for all that the
-- outside of the program knows and keeps, and returns its result with the next world. A backend
-- is an opener that `SelectBackend` calls; the root package and the package `secure` build a map of
-- openers and return what the selection returns. The keyring of WSL2 is one of the openers'
-- keyrings; it sends each operation through `invoke`.
--
-- Conventions. An error text is reduced to a label of the operation, since `errors.Is` does not
-- read it; a wrapped error is the list of its operands, and two error values are compared by their
-- contents where the code compares pointers, which decides only which reasons `Unwrap` leaves out.
-- A nil context is `none`. Bytes are natural numbers, and the bytes of a text are its
-- codes. A duration is a natural number. SHA-256, JSON, base64 and `context.WithTimeout` are
-- parameters, as are the run of a command, the random source and the system calls; `Platform` and
-- `Linux` take the native stores as parameters, and Native says what they are in each build. An
-- exit code of -1 is `none`. A nil option, a nil function field of the WSL2 client and a negative
-- buffer limit, at which the code panics or which no caller passes, are not inputs of the model.
-- The storage takes `validateMount` and `prepareDirectories` as operations of its system, and
-- `realLinuxSystem` defines them. Filesystem/Mounts works for any environment, on bytes, with the
-- white space and the letters of ASCII, and with a path of the host as its cleaned parts.
-- A descriptor is a number. `open_service_directory` and the other operations of the storage run
-- their deferred calls in the order of the code.
--
-- A call on the bus and the decoding of its answer are one operation of `Bus`; `select` in
-- `handlePrompt` is one too, and tells which case was ready. The client's functions work with a
-- context that is not nil, since `connect` and `probe` refuse a nil one first. The clients of
-- Windows and macOS take texts as bytes.
--
-- Bounds. `read_all` and `read_sized` make at most `read_rounds` reads, a parameter of the storage
-- and of the kernel, since a file or a key that grows for ever has no last read. `write_rounds` has
-- one round for each byte that is to be written; a round that writes nothing ends the loop.
-- `createTemporary` makes its 128 attempts, as in the code. A read of a file that fails returns
-- an error and no bytes here; the panic of `io.ReadAll` on its count of -1 is not modelled.
--
-- Not modelled: the bus and its messages, the API of Windows, the command of macOS and the system
-- calls of Linux, which are parameters; the aliases of contract.go; cobra, which sets the flag of the
-- example program and calls its functions. A mutex of the filesystem keyring is a pair of effects on
-- the world, without other goroutines; that of the keyring in memory is left out.
pub mod Base
pub mod Errors
pub mod Contract
pub mod Selection
pub mod Keyring
pub mod Secure
pub mod LimitedBuffer
pub mod Wsl2
pub mod Filesystem
pub mod Keyctl
pub mod Fake
pub mod Dbus
pub mod Windows
pub mod Darwin
pub mod Native
pub mod SecureFs
pub mod KeyringCli
mod Tests
