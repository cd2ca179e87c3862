-- ===== src/FileIpc/Files.antt =====
-- The file system as src/file_ipc.rs uses it through tokio: a parameter, with what is documented of
-- its operations. A path is a text.
use Prim.Native.String.{String}
use windows_command_runner.Base.{◌≡◌, Bool, Option, none, some}
use windows_command_runner.Error.{IoError}

-- An operation gives its result, or an error of the operating system.
pub data IoResult (A : Type 0) : Type 0 where
  done : A → IoResult A
  failed : IoError → IoResult A

-- An operation on an open file leaves the file system as it is then, and an error if there is one.
pub record FileApi : Type 1 where
  pub Disk : Type 0
  pub exists : Disk → String → Bool
  pub create_dir_all : Disk → String → IoResult Disk
  pub read_to_string : Disk → String → IoResult String
  pub remove_file : Disk → String → IoResult Disk
  pub create : Disk → String → IoResult Disk
  pub write_all : Disk → String → String → Disk × Option IoError
  pub flush : Disk → String → Disk × Option IoError

-- Two paths may name one file, in another case or spelling: `IsOther` says that they do not. What a
-- write leaves is known after a flush that succeeds, not before.
pub record FileLaws (api : FileApi) : Type 1 where
  pub IsOther : String → String → Type 0
  pub contents : api.Disk → String → Option String
  pub read_contents :
      (d : api.Disk) (p text : String)
      → api.read_to_string d p ≡ done text
      → contents d p ≡ some text
  pub removed :
      (d d' : api.Disk) (p : String)
      → api.remove_file d p ≡ done d'
      → (contents d' p ≡ none) × ((q : String) → IsOther q p → contents d' q ≡ contents d q)
  pub created :
      (d d' : api.Disk) (p : String)
      → api.create d p ≡ done d'
      → (contents d' p ≡ some "") × ((q : String) → IsOther q p → contents d' q ≡ contents d q)
  pub written :
      (d : api.Disk) (p text : String)
      → contents d p ≡ some ""
      → (api.write_all d p text).1 ≡ none
      → (api.flush (api.write_all d p text).0 p).1 ≡ none
      → contents (api.flush (api.write_all d p text).0 p).0 p ≡ some text
  pub written_elsewhere :
      (d : api.Disk) (p text q : String)
      → IsOther q p
      → contents (api.write_all d p text).0 q ≡ contents d q
  pub flushed_elsewhere :
      (d : api.Disk) (p q : String) → IsOther q p → contents (api.flush d p).0 q ≡ contents d q
