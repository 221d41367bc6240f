-- ===== src/Download/Host.antt =====
-- The file system, the network and the archive libraries, as the downloads call them.
use bundle_controller.Base.{ℕ, String, Bool, Option, List, Result}

-- An entry of a tar archive; what of its content cannot be read is cut off.
pub record TarEntry : Type 0 where
  pub name : String
  pub is_dir : Bool
  pub mode : ℕ
  pub content : String

-- An entry of a zip archive, or a path of a directory walk, with the error of opening it.
pub record FileEntry : Type 0 where
  pub name : String
  pub is_dir : Bool
  pub mode : Result ℕ
  pub content : Result String

-- A file of a git commit; a mode that is none of the operating system's is `none`.
pub record GitFile : Type 0 where
  pub name : String
  pub mode : Option ℕ
  pub content : Result String

-- What reading the next item gives before the end.
pub data Step {ℓ} (A : Type ℓ) : Type ℓ where
  item : A → Step A
  broken : String → Step A

pub record FileSystem (State : Type 0) : Type 0 where
  -- `filepath.Join`, `filepath.Dir` and `filepath.Base`
  pub join : String → String → String
  pub dir : String → String
  pub base : String → String
  pub user_home_dir : State → String
  -- Whether `os.Stat` succeeds, and the names that `os.ReadDir` gives where it does.
  pub stat : String → State → Bool
  pub read_dir : String → State → Option (List String)
  -- The error if there is one.
  pub mkdir_all : String → ℕ → State → Option String × State
  pub rename : String → String → State → Option String × State
  -- `os.OpenFile` to write an empty file, and `io.Copy` into it, whose error is dropped.
  pub create : String → ℕ → State → Option String × State
  pub copy : String → String → State → State
  pub write_file : String → String → ℕ → State → Option String × State
  -- The body of an answer.
  pub http_get : String → State → Result String × State
  pub untar : String → List (Step TarEntry)
  pub unzip : String → Result (List FileEntry)
  -- The host and the path of a URI.
  pub parse_request_uri : String → Result (String × String)
  pub walk_dir : String → State → List (Step FileEntry)
  -- The files of a revision.
  pub clone : String → String → State → Result (List GitFile) × State
