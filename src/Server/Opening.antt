-- ===== src/Server/Opening.antt =====
-- How a session of src/pipe_server.rs opens: the negotiation of `handle_client`, then the reads of
-- its request loop, on one pipe. Both directions of the pipe are used in turn.
use windows_command_runner.Base.{ℕ, ◌≡◌, Option, none, some, List, ◌++◌, length}
use windows_command_runner.Error.{Result, ok, err}
use windows_command_runner.Protocol.Bytes.{Endian, BytesApi}
use windows_command_runner.Protocol.Frame.{Frame}
use windows_command_runner.Pipe.Io.{PipeApi, write_frame}
use windows_command_runner.Pipe.Delivery.{PipeLaws}
use windows_command_runner.Pipe.Transport.{framed}
use windows_command_runner.Server.Client.{HelloApi, HelloPayload, ack_payload, hello_ack}
use windows_command_runner.Server.Writer.{all_received, read_frames}

module _ (pipe : PipeApi) (laws : PipeLaws pipe) where
  open pipe use {Pipe, write_file}
  open laws use {pending, write_keeps}

  module _ (bytes : BytesApi) (e : Endian) (api : HelloApi) where
    open laws use {written}
    open api use {parse_hello, hello_bytes}

    -- The negotiation returned: with the error of the failed write of the HELLO_ACK frame, or with
    -- the client's payload, that frame as all that was written since a pipe, and the next reads
    -- return some frames in order and leave the bytes after them.
    abbrev pub Opens :
        Pipe → HelloPayload → List Frame → List ℕ → Option (Pipe × Result HelloPayload) → Type 0
    Opens q hello fs rest none = ⊥
    Opens q hello fs rest (some (t, err x)) =
        write_frame pipe bytes e q (hello_ack (hello_bytes (ack_payload hello))) ≡ some (t, err x)
    Opens q hello fs rest (some (t, ok h)) =
        (h ≡ hello)
        × (written t ≡ written q ++ framed e (hello_ack (hello_bytes (ack_payload hello))))
        × ((u : Pipe) × (read_frames pipe (length fs) t ≡ (u, all_received e fs))
            × (pending u ≡ rest))
