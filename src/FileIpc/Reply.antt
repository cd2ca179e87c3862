-- ===== src/FileIpc/Reply.antt =====
-- What a request of src/file_ipc.rs leaves on the disk.
use Prim.Native.String.{String}
use windows_command_runner.Base.{ℕ, ◌*◌, ◌≡◌, refl, ◌∙◌, ◌⊎◌, inl, inr, Option, none, List, arith}
use windows_command_runner.Error.{IoError, Error, err, io}
use windows_command_runner.FileIpc.Files.{FileApi, FileLaws, done, failed}
use windows_command_runner.FileIpc.Write.{IoResult-cases, write_response-elsewhere}
use windows_command_runner.FileIpc.Request.{
  Request, Response, Report, ParsedRequest, good_request, bad_request, invalid_json, Ending, exited,
  not_spawned, wait_error, elapsed, spawn_failed, process_error, timed_out, code_or_minus_one,
  RequestApi, command_spec, execute_command, failure, response_path, write_response, request_id,
  without, answer, process_single_request, write_error_response,
}

Ending-cases :
    (r : Ending)
    → ((code : Option ℕ) × (out : List ℕ) × (err_out : List ℕ) × (r ≡ exited code out err_out))
      ⊎ ((t : String) × (r ≡ not_spawned t))
      ⊎ ((t : String) × (r ≡ wait_error t))
      ⊎ (r ≡ elapsed)
Ending-cases (exited code out err_out) = inl (code, out, err_out, refl)
Ending-cases (not_spawned t) = inr (inl (t, refl))
Ending-cases (wait_error t) = inr (inr (inl (t, refl)))
Ending-cases elapsed = inr (inr (inr refl))

ParsedRequest-cases :
    (r : ParsedRequest)
    → ((q : Request) × (r ≡ good_request q)) ⊎ ((t : String) × (r ≡ bad_request t))
ParsedRequest-cases (good_request q) = inl (q, refl)
ParsedRequest-cases (bad_request t) = inr (t, refl)

module _ (files : FileApi) (laws : FileLaws files) (api : RequestApi) where
  open files use {Disk, read_to_string, remove_file, create, write_all, flush}
  open laws use {
    IsOther, contents, read_contents, removed, created, written, written_elsewhere,
    flushed_elsewhere,
  }
  open api use {parse_request, to_string_pretty}

  -- The response to the content of a request file.
  abbrev pub reply : String → String → Response
  reply path content = elim (parse_request content) [
    | bad_request e ↦ failure files api (request_id files api path) (invalid_json e)
    | good_request request ↦ execute_command files api request
  ]

  pub without-elsewhere :
      (d : Disk) (path q : String)
      → IsOther q path
      → contents (without files api d path) q ≡ contents d q
  without-elsewhere d path q n = elim (IoResult-cases (remove_file d path)) [
    | inl (d', e) ↦ rw (e, without) ((removed d d' path e).1 q n)
    | inr (x, e) ↦ rw (e, without) refl
  ]

  process_single_request-eq :
      (d : Disk) (path content : String)
      → read_to_string d path ≡ done content
      → process_single_request files api d path
        ≡ write_response files api (without files api d path) (reply path content)
  unfolding process_single_request answer write_error_response
  process_single_request-eq d path content e = ground arith

  -- Once a request file has been read and deleted it stays gone, also when the response cannot be
  -- written, unless it is itself the response file.
  process_single_request-consumes :
      (d d' : Disk) (path content : String)
      → read_to_string d path ≡ done content
      → remove_file d path ≡ done d'
      → IsOther path (response_path files api (reply path content).id)
      → contents (process_single_request files api d path).0 path ≡ none
  process_single_request-consumes d d' path content e f n =
      rw (process_single_request-eq d path content e) (
        write_response-elsewhere files laws api (without files api d path) (reply path content) path
          n
        ∙ rw (f, without) (removed d d' path f).0)

  -- A request that is not answered fails with the error of the read, and nothing is touched, or
  -- with that of writing the reply.
  process_single_request-err :
      (d : Disk) (path : String) (x : Error)
      → (process_single_request files api d path).1 ≡ err x
      → ((e : IoError) × (read_to_string d path ≡ failed e)
          × (x ≡ io e)
          × ((process_single_request files api d path).0 ≡ d))
        ⊎ ((content : String) × (read_to_string d path ≡ done content)
            × ((write_response files api (without files api d path) (reply path content)).1
                ≡ err x))
  unfolding process_single_request
  process_single_request-err d path x h = elim (IoResult-cases (read_to_string d path)) [
    | inl (content, e) ↦ inr (content, e, rw (process_single_request-eq d path content e) at h)
    | inr (e, f) ↦ inl (e, f, ground arith, ground arith)
  ]

-- The reply to a request that parses has the id of the request, and it has no error exactly if the
-- command ended by itself; then it has the command's code, or -1 if there is none, and its output.
-- Otherwise its code is -1 and its output empty.
execute_command_lem :
    (files : FileApi) (api : RequestApi) (request : Request)
    → ((execute_command files api request).id ≡ request.id)
      × (((code : Option ℕ) × (out : List ℕ) × (err_out : List ℕ) × (api.run
                (command_spec files api request)
              ≡ exited code out err_out)
            × (execute_command files api request ≡ record {
              id = request.id;
              exit_code = code_or_minus_one files api code;
              stdout = api.from_utf8_lossy out;
              stderr = api.from_utf8_lossy err_out;
              error = none;
            }))
          ⊎ ((report : Report) × (execute_command files api request
                ≡ failure files api request.id report)))
unfolding execute_command
execute_command_lem files api request =
    elim (Ending-cases (api.run (command_spec files api request))) [
      | inl (code, out, err_out, e) ↦ (ground arith, inl (code, out, err_out, e, ground arith))
      | inr (inl (t, e)) ↦ (ground arith, inr (spawn_failed t, ground arith))
      | inr (inr (inl (t, e))) ↦ (ground arith, inr (process_error t, ground arith))
      | inr (inr (inr e)) ↦
          (ground arith, inr (timed_out (request.timeout_ms * 1_000_000), ground arith))
    ]
