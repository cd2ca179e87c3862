-- ===== src/Lib.antt =====
-- WindowsCommandRunner: a Windows service that runs commands for clients of a named pipe. A client
-- sends frames; a RUN frame creates a job, whose process is launched and whose output goes back as
-- OUTPUT frames, until an EXIT frame ends it. A cleanup task takes idle jobs out, and a monitor
-- stops a job whose timeout has passed. Beside the pipe, requests come in as files.
--
-- The program's parts and the files that model them (paths from the repository's root):
--   src/error.rs          Error: the error type and its result.
--   src/protocol.rs       Protocol: Bytes has the integers as bytes, Frame the types, `Frame::encode`
--                         and `Frame::decode`; Tags, RoundTrip and Canonical prove.
--   src/job_manager.rs    Job: State has `JobState`, Handle the handles and `Drop`, Manager every
--                         method of `JobManager`; Race has `create_job` called by several
--                         clients at once; Diagram, Calls, Effects, Invariant, Cleanup, Idle
--                         and History prove.
--   src/io_pump.rs        Pump: Window has `StreamPump`, Output `read_pipe_blocking` and
--                         `start_output_pump`, Shared two pumps on one window; Frames, Stall, Completion
--                         and Race prove.
--   src/pipe_server.rs    Pipe: Io has `read_exact`, `read_frame`, `write_all` and `write_frame`;
--                         Delivery, Transport and Directions prove. Server: Session has `handle_run`,
--                         its exit task and `process_requests`, Client the version negotiation of
--                         `handle_client`, Writer its writer task alone, Connection all of
--                         `handle_client` with its tasks in any interleaving, Listener
--                         `start_listening` and `create_pipe_instance`; Running, Requests,
--                         Negotiation, Opening, Announced, Senders, Sound, Delivered, Returns,
--                         HandleClient, EndToEnd, Streams and Output prove.
--   src/cancellation.rs   Cancel: `terminate_job` and its wait; Timeout has `monitor_timeout`, Wait
--                         `wait_for_process_exit`; Fires proves.
--   src/process_launcher.rs  Launch: Pipes has the pipes and the job object, EnvBlock the environment
--                         block, Process `launch` with the drops of Rust; Handles, Failures, Leaks
--                         and Variables prove.
--   src/file_ipc.rs       FileIpc: Files has the file system, Request one request from its file to its
--                         response, Tasks several requests side by side, Server the polls and
--                         their permits; Write, Reply, Parallel, SideBySide, Twice and Permits
--                         prove.
--   src/service_host.rs   Service: Host has `ServiceHost` as turns of its tasks, Control `run_service`,
--                         Entry `start_service` and `main` of src/main.rs; Life and Drain prove.
--   src/logger.rs         Logger: levels, entries and the audit functions.
-- Base holds what the parts share: Boolean tests, lists over the native numbers, and the
-- association lists that stand for `DashMap`. Examples applies the theorems to concrete values.
--
-- State is passed from step to step: a method returns the changed manager, pump, pipe or sender
-- with its result. A method of `JobManager` is one step; its map is a list of entries seen through
-- `get`, and the handles that it takes out of the map are kept in `detached`, since tasks may still
-- hold them. A write through a shared `Arc<JobHandle>` is an update of the entry in the map. The
-- clock is an argument, in nanoseconds. Log lines are left out. A formatted text is a constructor
-- with the values that it prints. Machine integers are numbers with their wrap-around written out;
-- codes and handles are bit patterns.
--
-- Parameters, with what is documented of them: the buffer of the bytes crate (Protocol.Bytes), the
-- channel of tokio (Channel), HRESULTs (Windows), `ReadFile` and `WriteFile` on the pipe (Pipe.Io,
-- Pipe.Delivery), serde_json (Server.Session, Server.Client, FileIpc.Request), the launch as the
-- request loop sees it (Server.Session), the calls that end a process (Cancel), the calls of
-- Windows in a launch and UTF-16 (Launch.Pipes, Launch.EnvBlock), the file system, with the
-- relation of paths that name different files and with contents known after a flush, and the run of
-- a command (FileIpc.Files, FileIpc.Request), the service manager and the runtime (Service.Control), `CreateNamedPipeW`
-- (Server.Listener), and `to_string` with the order of a map (Logger).
--
-- Loops: `read_exact` recurs on the number of bytes wanted, by accessibility; `write_all` on fuel,
-- one round for each byte, which is enough since each write takes a byte at least;
-- `start_output_pump` on the list of its rounds, `try_send_frame` on the list of window updates
-- that arrive, `process_requests` on the list of its reads, `monitor_timeout` and
-- `wait_for_process_exit` on the list of their polls, the writer task on the frames of its channel.
-- The listener, a session, the file server and the service run over a list of turns, which may be
-- any interleaving of their tasks.
--
-- Calls of `JobManager` are one step each, but for Job.Race, where several calls of `create_job`
-- run at once in smaller steps. A pump is alone on its window, but for Pump.Shared, where the two
-- pumps of a job share it and take turns by atomic operations.
--
-- Not modelled: the interleaving inside a frame that is handled or written, which is one turn of
-- its session; the capacity of the frame channel, since a task that waits for room takes no turn;
-- the calls of tracing, also its set-up in src/main.rs; and the list of modules in src/lib.rs.
pub mod Base
pub mod Job
pub mod Error
pub mod Protocol
pub mod Windows
pub mod Channel
pub mod Pump
pub mod Pipe
pub mod Server
pub mod Cancel
pub mod Launch
pub mod FileIpc
pub mod Service
pub mod Logger
pub mod Examples
