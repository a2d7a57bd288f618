-- ===== src/Disk.antt =====
-- A file that holds one JSON document, as backend/internal/fsutil and the stores that it serves see it.
-- Encoding and decoding are not modelled: the file holds the document, is missing, or is not JSON of
-- its type. A write goes through a temporary file and a rename, so it happens whole or not at all.
use llama_labels.Common.{Bool, if◌then◌else◌}

pub data File {ℓ} (F : Type ℓ) : Type ℓ where
  absent corrupt : File F
  holds : F → File F

-- What the operating system does in one operation: whether a read and a write succeed.
pub record Io : Type 0 where
  pub can_read : Bool
  pub can_write : Bool

pub data DiskError : Type 0 where
  not_exist read_failed bad_json write_failed : DiskError

pub data Loaded {ℓ} (F : Type ℓ) : Type ℓ where
  loaded : F → Loaded F
  missing : Loaded F
  failed : DiskError → Loaded F

-- os.ReadFile followed by json.Unmarshal.
abbrev pub parsed {ℓ} : {F : Type ℓ} → File F → Loaded F
parsed absent = missing
parsed corrupt = failed bad_json
parsed (holds f) = loaded f

abbrev pub read_file {ℓ} : {F : Type ℓ} → Io → File F → Loaded F
read_file io file = if io.can_read then parsed file else failed read_failed
