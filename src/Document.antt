-- ===== src/Document.antt =====
-- backend/internal/fsutil/fsutil.go, LoadJSONFile and PersistJSONFile, as the stores of contacts, rules,
-- groups, send-as aliases and cached mail use them: the document in memory beside the file, read again
-- before every operation and written whole after a change. Disk says what a file is.
pub mod Runs
use llama_labels.Common.{Bool, true, false, if◌then◌else◌}
use llama_labels.Disk.{
  File, holds, Io, DiskError, write_failed, Loaded, loaded, missing, failed, read_file,
}

pub record Store (D : Type 0) : Type 0 where
  pub memory : D
  pub file : File D

-- The errors of the disk beside those of the component.
pub data Error (E : Type 0) : Type 0 where
  disk : DiskError → Error E
  failure : E → Error E

pub data Result (E A : Type 0) : Type 0 where
  ok : A → Result E A
  err : Error E → Result E A

-- What an operation does with the document that it has read: answer without a change, fail (with the
-- document that it leaves in memory), or answer once the new document is on disk.
pub data Change (D E A : Type 0) : Type 0 where
  answer : A → Change D E A
  fail : E → D → Change D E A
  save : A → D → Change D E A

module _ {D : Type 0} where
  -- refreshFromDiskLocked: a missing file leaves the memory as it is.
  abbrev pub refreshed : {E : Type 0} → Store D → Loaded D → Result E (Store D)
  refreshed s missing = ok s
  refreshed s (failed e) = err (disk e)
  refreshed s (loaded d) = ok (record s { memory = d })

  abbrev pub refresh : {E : Type 0} → Io → Store D → Result E (Store D)
  refresh io s = refreshed s (read_file io s.file)

  -- A refresh whose error is ignored.
  abbrev pub peeked : Store D → Result (Unit {0}) (Store D) → Store D
  peeked s (ok s') = s'
  peeked s (err e) = s

  unfoldable pub peek : Io → Store D → Store D
  peek io s = peeked s (refresh io s)

  -- persistLocked, and what the operation returns.
  abbrev pub persisted : {E A : Type 0} → Bool → Store D → A → Result E A × Store D
  persisted true s a = (ok a, record s { file = holds s.memory })
  persisted false s a = (err (disk write_failed), s)

  abbrev pub changed : {E A : Type 0} → Io → Store D → Change D E A → Result E A × Store D
  changed io s (answer a) = (ok a, s)
  changed io s (fail e d) = (err (failure e), record s { memory = d })
  changed io s (save a d) = persisted io.can_write (record s { memory = d }) a

  abbrev pub changing :
      {E A : Type 0} → Io → Store D → (D → Change D E A) → Result E (Store D) → Result E A × Store D
  changing io s change (err e) = (err e, s)
  changing io s change (ok s') = changed io s' (change s'.memory)

  unfoldable pub transact :
      {E A : Type 0} → Io → Store D → (D → Change D E A) → Result E A × Store D
  transact io s change = changing io s change (refresh io s)

  -- `New`: the file is loaded, or created with the empty document.
  abbrev pub loading : Io → Store D → Loaded D → Result (Unit {0}) (Unit {0}) × Store D
  loading io s missing = persisted io.can_write s tt
  loading io s (failed e) = (err (disk e), s)
  loading io s (loaded d) = (ok tt, record s { memory = d })

  unfoldable pub new : D → Io → File D → Result (Unit {0}) (Unit {0}) × Store D
  new empty io file =
      let s : Store D = record { memory = empty; file = file } in loading io s (read_file io s.file)
