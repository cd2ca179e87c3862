-- ===== src/FileIpc/Write.antt =====
-- How src/file_ipc.rs writes a response: `write_response` and what it leaves on the disk.
use Prim.Native.String.{String}
use windows_command_runner.Base.{
  ◌≡◌, refl, ap, ◌∙◌, ◌⊎◌, inl, inr, Option, none, some, arith, Option-cases,
}
use windows_command_runner.Error.{IoError, Error, Result, ok, err, io, protocol, json_serialize}
use windows_command_runner.FileIpc.Files.{FileApi, FileLaws, IoResult, done, failed}
use windows_command_runner.FileIpc.Request.{
  Response, Json, json, no_json, RequestApi, response_path, write_json, write_response, checked,
  then_flush,
}

pub IoResult-cases :
    {A : Type 0} (r : IoResult A) → ((a : A) × (r ≡ done a)) ⊎ ((e : IoError) × (r ≡ failed e))
IoResult-cases (done a) = inl (a, refl)
IoResult-cases (failed e) = inr (e, refl)

Json-cases : (r : Json) → ((t : String) × (r ≡ json t)) ⊎ ((t : String) × (r ≡ no_json t))
Json-cases (json t) = inl (t, refl)
Json-cases (no_json t) = inr (t, refl)

module _ (files : FileApi) (laws : FileLaws files) (api : RequestApi) where
  open files use {Disk, create, write_all, flush}
  open laws use {IsOther, contents, created, written, written_elsewhere, flushed_elsewhere}
  open api use {to_string_pretty}

  checked_state : (r : Disk × Option IoError) → (checked files api r).0 ≡ r.0
  checked_state (d, none) = refl
  checked_state (d, some e) = refl

  checked-ok : (r : Disk × Option IoError) → (checked files api r).1 ≡ ok tt → r.1 ≡ none
  checked-ok (d, none) h = refl
  checked-ok (d, some e) h = cc

  then_flush_contents :
      (p q : String) (r : Disk × Result (Unit {0}))
      → IsOther q p
      → contents (then_flush files api p r).0 q ≡ contents r.0 q
  then_flush_contents p q (d, err e) n = refl
  then_flush_contents p q (d, ok _) n =
      ap (λ d. contents d q) (checked_state (flush d p)) ∙ flushed_elsewhere d p q n

  -- The open file after a write and a flush that both succeed.
  then_flush-written :
      (d : Disk) (p text : String)
      → contents d p ≡ some ""
      → (then_flush files api p (checked files api (write_all d p text))).1 ≡ ok tt
      → contents (then_flush files api p (checked files api (write_all d p text))).0 p ≡ some text
  then_flush-written d p text empty h = elim (Option-cases (write_all d p text).1) [
    | inr (e, q) ↦ absurd (cc (ap (λ (r : Disk × Result (Unit {0})). r.1) (failing e q), h))
    | inl q ↦
        let same = passing q in
        rw same (
          ap (λ d. contents d p) (checked_state (flush (write_all d p text).0 p))
          ∙ written d p text empty q (checked-ok (flush (write_all d p text).0 p) (rw same at h)))
  ]
    where
      go_failing :
          (r : Disk × Option IoError) (e : IoError)
          → r.1 ≡ some e
          → then_flush files api p (checked files api r) ≡ (r.0, err (io e))
      go_failing (d, o) e q = rw q refl

      failing :
          (e : IoError)
          → (write_all d p text).1 ≡ some e
          → then_flush files api p (checked files api (write_all d p text))
            ≡ ((write_all d p text).0, err (io e))
      failing e q = go_failing (write_all d p text) e q

      go_passing :
          (r : Disk × Option IoError)
          → r.1 ≡ none
          → then_flush files api p (checked files api r) ≡ checked files api (flush r.0 p)
      go_passing (d, o) q = rw q refl

      passing :
          (write_all d p text).1 ≡ none
          → then_flush files api p (checked files api (write_all d p text))
            ≡ checked files api (flush (write_all d p text).0 p)
      passing q = go_passing (write_all d p text) q

  write_json-created :
      (d d' : Disk) (p text : String)
      → create d p ≡ done d'
      → write_json files api d p text
        ≡ then_flush files api p (checked files api (write_all d' p text))
  unfolding write_json
  write_json-created d d' p text e = ground arith

  write_json-failed :
      (d : Disk) (p text : String) (e : IoError)
      → create d p ≡ failed e
      → write_json files api d p text ≡ (d, err (io e))
  unfolding write_json
  write_json-failed d p text e q = ground arith

  write_json-ok :
      (d : Disk) (p text : String)
      → (write_json files api d p text).1 ≡ ok tt
      → contents (write_json files api d p text).0 p ≡ some text
  write_json-ok d p text h = elim (IoResult-cases (create d p)) [
    | inr (e, q) ↦
        cc (h, ap (λ (r : Disk × Result (Unit {0})). r.1) (write_json-failed d p text e q))
    | inl (d', q) ↦
        let same = write_json-created d d' p text q in
        rw same (then_flush-written d' p text (created d d' p q).0 (rw same at h))
  ]

  write_json-elsewhere :
      (d : Disk) (p text q : String)
      → IsOther q p
      → contents (write_json files api d p text).0 q ≡ contents d q
  write_json-elsewhere d p text q n = elim (IoResult-cases (create d p)) [
    | inr (e, f) ↦ rw (write_json-failed d p text e f) refl
    | inl (d', f) ↦ rw (write_json-created d d' p text f) (
        then_flush_contents p q _ n
        ∙ ap (λ d. contents d q) (checked_state (write_all d' p text))
        ∙ written_elsewhere d' p text q n
        ∙ (created d d' p f).1 q n)
  ]

  -- How the write of a response to a path can fail: its JSON cannot be made, or an operation on the
  -- file fails.
  abbrev pub WriteFails : String → Response → Error → Type 0
  WriteFails p response x =
      ((t : String) × (to_string_pretty response ≡ no_json t) × (x ≡ protocol (json_serialize t)))
      ⊎ ((e : IoError) × (d : Disk) × (x ≡ io e)
          × ((create d p ≡ failed e)
              ⊎ ((text : String) × ((write_all d p text).1 ≡ some e))
              ⊎ ((flush d p).1 ≡ some e)))

  checked-err :
      (r : Disk × Option IoError) (x : Error)
      → (checked files api r).1 ≡ err x
      → (e : IoError) × (x ≡ io e) × (r.1 ≡ some e)
  checked-err (d, none) x h = cc
  checked-err (d, some e) x h = (e, cc, refl)

  then_flush-err :
      (p : String) (r : Disk × Option IoError) (x : Error)
      → (then_flush files api p (checked files api r)).1 ≡ err x
      → (e : IoError) × (d : Disk) × (x ≡ io e) × ((r.1 ≡ some e) ⊎ ((flush d p).1 ≡ some e))
  then_flush-err p (d, some e) x h = (e, d, cc, inl refl)
  then_flush-err p (d, none) x h =
      let (e, same, q) = checked-err (flush d p) x h in (e, d, same, inr q)

  write_json-err :
      (d : Disk) (p text : String) (x : Error)
      → (write_json files api d p text).1 ≡ err x
      → (e : IoError) × (d : Disk) × (x ≡ io e)
        × ((create d p ≡ failed e)
            ⊎ ((text : String) × ((write_all d p text).1 ≡ some e))
            ⊎ ((flush d p).1 ≡ some e))
  write_json-err d p text x h = elim (IoResult-cases (create d p)) [
    | inr (e, q) ↦ (e, d, cc (rw (write_json-failed d p text e q) at h), inl q)
    | inl (d', q) ↦
        let (e, d1, same, which) =
          then_flush-err p (write_all d' p text) x (rw (write_json-created d d' p text q) at h) in
        elim which [
          | inl w ↦ (e, d', same, inr (inl (text, w)))
          | inr f ↦ (e, d1, same, inr (inr f))
        ]
  ]

  pub write_response-err :
      (d : Disk) (response : Response) (x : Error)
      → (write_response files api d response).1 ≡ err x
      → WriteFails (response_path files api response.id) response x
  unfolding write_response
  write_response-err d response x h = elim (Json-cases (to_string_pretty response)) [
    | inr (t, q) ↦ inl (t, q, ground arith)
    | inl (text, q) ↦
        let same : write_response files api d response
            ≡ write_json files api d (response_path files api response.id) text =
          ground arith in
        inr (write_json-err d (response_path files api response.id) text x (rw same at h))
  ]

  pub write_response-ok :
      (d : Disk) (response : Response)
      → (write_response files api d response).1 ≡ ok tt
      → (text : String) × (to_string_pretty response ≡ json text)
        × (contents (write_response files api d response).0 (response_path files api response.id)
            ≡ some text)
  unfolding write_response
  write_response-ok d response h = elim (Json-cases (to_string_pretty response)) [
    | inr (e, q) ↦ absurd (ground arith)
    | inl (text, q) ↦
        let same : write_response files api d response
            ≡ write_json files api d (response_path files api response.id) text =
          ground arith in
        (
          text,
          q,
          rw same (write_json-ok d (response_path files api response.id) text (rw same at h)),
        )
  ]

  pub write_response-elsewhere :
      (d : Disk) (response : Response) (q : String)
      → IsOther q (response_path files api response.id)
      → contents (write_response files api d response).0 q ≡ contents d q
  unfolding write_response
  write_response-elsewhere d response q n = elim (Json-cases (to_string_pretty response)) [
    | inr (e, f) ↦
        let same : write_response files api d response ≡ (d, err (protocol (json_serialize e))) =
          ground arith in
        rw same refl
    | inl (text, f) ↦
        let same : write_response files api d response
            ≡ write_json files api d (response_path files api response.id) text =
          ground arith in
        rw same (write_json-elsewhere d (response_path files api response.id) text q n)
  ]
