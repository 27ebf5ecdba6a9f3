-- ===== src/Lib.antt =====
-- A verification of the flow.ci agent (FlowCI/flow-agent-x): the program that receives commands from
-- a server over a queue, runs each in containers or in a shell, and sends the result back.
--
-- The parts and their files. Paths in the repository stand in parentheses.
--   * Util (util/common.go): Template is the expansion of `${VAR}` in a text (parseVariablesFrom),
--     and Replace, Rounds, Terminates and Diverges are about its rounds; Bytes has the functions that
--     trim and compare bytes, Platform the name of the operating system. Files (util/files.go) is a
--     file system as a tree, with Zip, Unzip and CopyDir on it: Slots, Places and Extract are about
--     its changes, Names, Unpack and RoundTrip about a zip file, Copy.Whole about CopyDir. Zk is the
--     client of zookeeper (util/zk.go).
--   * Domain (domain/*.go): the data that the parts exchange. Variables has Resolve and the map
--     operations, Docker the options, configs and volumes of containers, Command a shell command
--     and its result, Secret the secrets and configs with their variables, Volumes the reading of
--     the volume list (NewVolumesFromString).
--   * Executor (executor/): Status has the changes of a result and Retry the retry loop, which
--     executor/docker.go and executor/shell.go share; Script what a shell is told to run
--     (writeCmd, getScripts), Env the reading of exported variables (executor/util.go), with Windows
--     and Allowed for executor/util_win.go; Output what is copied from and to a shell, New the choice
--     of an executor (NewExecutor). Tar packs and unpacks what is copied to and from a container
--     (executor/docker_util.go), with Names, Pack, Unpack, RoundTrip and Succeeds about it.
--   * Executor.Docker (executor/docker.go): the docker executor. Images finds and pulls images,
--     Containers starts, resumes and removes containers, Config makes their configs (initConfig),
--     Volumes the volumes and the network, Init all of these in order, Setup the lines before the
--     scripts, Run one attempt (doStart) and the whole start with its retries, Tty the terminal.
--   * Executor.Shell (executor/shell.go, executor/shell_bash.go): the executor without containers.
--     Files makes its directories and moves its caches (Init, copyCache, writeCache), Attempt is one
--     attempt (doStart) and the start, with the goroutine that watches the context, Tty the terminal.
--     Power is what differs for PowerShell (executor/shell_powershell.go).
--   * Api (api/): the client of the server. Pending has the connection, the channel of messages and
--     the goroutines on both as a step relation, with Queue and Consumers about its runs; Connect
--     opens a connection; Requests reads secrets and configs, Caches uploads and downloads files, and
--     Names has the form of a message and of a cached file's name (api/util.go). Messages has those
--     that wait for no answer.
--   * Dao (dao/): the text of SQL statements. Columns reads a column from the tag of a field, Builder
--     makes the statements.
--   * Service (service/cmd_service.go): the service, which has at most one executor. Shell accepts,
--     refuses or fails a command, Execute dispatches messages and has the terminals and the step
--     relation of the service with the goroutines that act on it without the lock. Manager (config/manager.go) has the events on idle and busy, with
--     the idle timer, and reconnecting; Startup is Init. Plugins (service/plugin_manager.go) and Caches
--     (service/cache_manager.go) are the managers of plugins and caches; Logs is the way of a log
--     from the stream of a shell (writeLog) to the file and the server (startLogConsumer);
--     Environment is initEnv, Consumer the loop that takes the messages of the server (start),
--     Factory the singleton (service/factory.go).
--   * Controller (controller/): the routes that a controller registers and the answers of its
--     handlers, over the service. App (app.go) is the start of the program.
--   * Prelude: lists, texts, dictionaries and the outcomes of Go code; Scenarios: concrete inputs.
--
-- How Go is read. A function that changes a receiver, panics or waits is a function of the state to
-- an outcome and a state: a value that is returned, a panic with an error, or a wait that the rounds
-- granted do not end. The state comes back beside every outcome, since what was written before a
-- panic stays written. `defer` and `recover` are the functions finally and recover of Prelude.Exec,
-- in the order in which Go runs them. A pointer is an Option. A text is the list of its bytes.
-- Integers are unbounded, but for the 64-bit counter of downloaded bytes: no other operation here
-- comes near the range of the machine.
--
-- What is a parameter. The docker engine, the machine with its shells and files, the repositories of
-- plugins and the server are records of answers, each a function of all calls made before, so any
-- deterministic behaviour is allowed; JSON, base64, UTF-16 and Unicode are functions. Go leaves the
-- order of a range over a map open: a map is a list, and Resolve takes the two orders of its loops.
-- Goroutines that share a client take turns in any order, one statement at a time, but for the
-- consumer of messages: what it takes out of the channel it has written in the same step, so the
-- order in which two consumers write is left open. What other goroutines do to the service between
-- two statements that hold no lock is a parameter of its functions, and a step in its step relation:
-- there execShell under the lock is two steps, one as far as the event on busy and one from there,
-- and a release is two as well. The goroutine that
-- watches the context of a shell acts before or after the attempt sees the end of the shell. A shell
-- that never ends is an answer of the machine; that the shells end is a hypothesis where it is used.
--
-- Fuel. Two loops have no bound in the code: the polls of waitForExit and the rounds of
-- parseVariablesFrom. For the first, the fuel is enough if no exec is found running in that many
-- polls in a row; for the second, enough fuel exists where no value holds a `$`, and none is
-- enough for some variables that refer to themselves.
--
-- Not modelled: the flags of the command line (app.go), the events of a connection to zookeeper
-- (handleZkEvents), the database behind dao/, the counter of api/counter_write.go, and what only
-- encodes a record. A timeout or a cancellation of the context reaches the docker executor as an
-- error of the engine's next answer. A log is followed from one stream (write_log), and from
-- the channel that all streams share (consume_shell_log). Two terminals at once are not followed.
pub mod Prelude
pub mod Util
pub mod Domain
pub mod Executor
pub mod Service
pub mod Api
pub mod Dao
pub mod Controller
pub mod App
pub mod Scenarios
