-- ===== src/Server.antt =====
-- The client session of src/pipe_server.rs: `Session` is the request loop with the handling of
-- RUN, `Running` what a RUN frame leads to, `Client` and `Negotiation` the version negotiation
-- before it, `Writer` the task that writes the frames, `Connection` a whole session of
-- `handle_client` as turns of its tasks; `Opening` and `Listener` are the pipe and the accept
-- loop. The others prove.
pub mod Session
pub mod Running
pub mod Announced
pub mod Senders
pub mod Requests
pub mod Client
pub mod Negotiation
pub mod Connection
pub mod Sound
pub mod Delivered
pub mod Returns
pub mod HandleClient
pub mod EndToEnd
pub mod Streams
pub mod Output
pub mod Writer
pub mod Opening
pub mod Listener
