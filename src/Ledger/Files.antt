-- ===== src/Ledger/Files.antt =====
-- The two files of the signal-stop ledger, as the daemon reads and replaces them: the calls of
-- `std::fs` are parameters, and what the code relies on are laws.
pub mod Writes
use freezeit_cos.Base.{Text, ℕ, List, [], ◌∷◌, ◌++◌, join, ◌≡◌, ◌≢◌, ◌<◌, ◌^◌}
use freezeit_cos.Domain.Error.{Result, ok, err, DaemonError}
use freezeit_cos.Ledger.{SignalStopLedgerGeneration}

-- The main ledger, its sidecar, and the temporary file of each.
pub data LedgerFile : Type 0 where
  main sidecar : LedgerFile
  temporary : LedgerFile → LedgerFile

pub data ReadText : Type 0 where
  content : Text → ReadText
  not_found : ReadText
  failed : DaemonError → ReadText

pub data Removal : Type 0 where
  removed absent : Removal
  refused : DaemonError → Removal

-- `fs::read_to_string`, `fs::metadata` and the calls that change a file. The reads leave the
-- files as they are; the directory of the ledger is the same for all of them.
pub record FileSystem (W : Type 0) : Type 0 where
  pub read_to_string : LedgerFile → W → ReadText
  pub metadata : LedgerFile → W → Result SignalStopLedgerGeneration
  pub remove_file : LedgerFile → W → Removal × W
  pub create_dir_all : W → Result (Unit {0}) × W
  pub write : LedgerFile → Text → W → Result (Unit {0}) × W
  pub rename : LedgerFile → LedgerFile → W → Result (Unit {0}) × W

module _ {W : Type 0} (fs : FileSystem W) where
  abbrev pub after_removal : Removal × W → Result (Unit {0}) × W
  after_removal (removed, w) = (ok tt, w)
  after_removal (absent, w) = (ok tt, w)
  after_removal (refused e, w) = (err e, w)

  -- `?` between two calls
  abbrev pub and_then : Result (Unit {0}) × W → (W → Result (Unit {0}) × W) → Result (Unit {0}) × W
  and_then (ok u, w) next = next w
  and_then (err e, w) next = (err e, w)

  -- The text goes to a temporary file, which then takes the place of the other.
  abbrev pub replace_file : LedgerFile → Text → W → Result (Unit {0}) × W
  replace_file file t w =
      and_then (fs.create_dir_all w)
        λ w1. and_then (fs.write (temporary file) t w1) λ w2. fs.rename (temporary file) file w2

  unfoldable pub write_signal_stop_ledger_file : LedgerFile → List Text → W → Result (Unit {0}) × W
  write_signal_stop_ledger_file file [] w = after_removal (fs.remove_file file w)
  write_signal_stop_ledger_file file (line ∷ lines) w =
      replace_file file (join (10 ∷ []) (line ∷ lines) ++ 10 ∷ []) w

  -- What can be seen of a file is the same in both states.
  abbrev pub Unchanged : LedgerFile → W → W → Type 0
  Unchanged f v w =
      (fs.read_to_string f v ≡ fs.read_to_string f w) × (fs.metadata f v ≡ fs.metadata f w)

  -- What the operations of a file system promise: a call changes the file that it names and no
  -- other, a removal that succeeds or finds nothing leaves no file, a text written is the text
  -- read, a file renamed takes the place of the other or leaves it as it was, and a generation
  -- is two numbers of 64 bits.
  pub record IsFileSystem : Type 0 where
    pub remove_other : (f g : LedgerFile) (w : W) → g ≢ f → Unchanged g (fs.remove_file f w).1 w
    pub removes :
        (f : LedgerFile) (w : W)
        → (fs.remove_file f w).0 ≡ removed
        → fs.read_to_string f (fs.remove_file f w).1 ≡ not_found
    pub removes_absent :
        (f : LedgerFile) (w : W)
        → (fs.remove_file f w).0 ≡ absent
        → fs.read_to_string f (fs.remove_file f w).1 ≡ not_found
    pub refuses :
        (f : LedgerFile) (w : W) (e : DaemonError)
        → (fs.remove_file f w).0 ≡ refused e
        → Unchanged f (fs.remove_file f w).1 w
    pub creates : (f : LedgerFile) (w : W) → Unchanged f (fs.create_dir_all w).1 w
    pub write_other :
        (f g : LedgerFile) (t : Text) (w : W) → g ≢ f → Unchanged g (fs.write f t w).1 w
    pub writes :
        (f : LedgerFile) (t : Text) (w : W)
        → (fs.write f t w).0 ≡ ok tt
        → fs.read_to_string f (fs.write f t w).1 ≡ content t
    pub rename_other :
        (f g h : LedgerFile) (w : W) → h ≢ f → h ≢ g → Unchanged h (fs.rename f g w).1 w
    pub renames :
        (f g : LedgerFile) (w : W)
        → (fs.rename f g w).0 ≡ ok tt
        → fs.read_to_string g (fs.rename f g w).1 ≡ fs.read_to_string f w
    pub keeps_target :
        (f g : LedgerFile) (w : W) (e : DaemonError)
        → (fs.rename f g w).0 ≡ err e
        → Unchanged g (fs.rename f g w).1 w
    pub generation_bounds :
        (f : LedgerFile) (w : W) (g : SignalStopLedgerGeneration)
        → fs.metadata f w ≡ ok g
        → (g.device < 2 ^ 64) × (g.inode < 2 ^ 64)
