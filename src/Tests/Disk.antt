-- ===== src/Tests/Disk.antt =====
-- A file system in memory: every file with its text and the number of the write that made it.
use freezeit_cos.Base.{
  ℕ, suc, ◌%◌, ◌^◌, ◌<◌, Text, [], Bool, true, false, Option, none, some, ◌≡◌, ◌≢◌, ◌↔◌, refl, ap,
  ◌∙◌, arith, if◌then◌else◌,
}
use freezeit_cos.Domain.Error.{Result, ok, err, system, DaemonError}
use freezeit_cos.Ledger.{SignalStopLedgerGeneration}
use freezeit_cos.Ledger.Files.{
  LedgerFile, main, sidecar, temporary, ReadText, content, not_found, Removal, removed, absent,
  refused, FileSystem, IsFileSystem, Unchanged,
}

abbrev pub Disk : Type 0
Disk = (LedgerFile → Option (Text × ℕ)) × ℕ

abbrev pub same_file : LedgerFile → LedgerFile → Bool
same_file main main = true
same_file sidecar sidecar = true
same_file (temporary f) (temporary g) = same_file f g
same_file _ _ = false

same_file_iff : (f g : LedgerFile) → (same_file f g ≡ true) ↔ (f ≡ g)
same_file_iff main main = ground arith
same_file_iff main sidecar = ground arith
same_file_iff main (temporary g) = ground arith
same_file_iff sidecar main = ground arith
same_file_iff sidecar sidecar = ground arith
same_file_iff sidecar (temporary g) = ground arith
same_file_iff (temporary f) main = ground arith
same_file_iff (temporary f) sidecar = ground arith
same_file_iff (temporary f) (temporary g) = ground (arith, same_file_iff f g)

abbrev pub set_file : LedgerFile → Option (Text × ℕ) → Disk → Disk
set_file f o (files, n) = ((λ g. if same_file f g then o else files g), suc n)

abbrev pub text_of : Option (Text × ℕ) → ReadText
text_of none = not_found
text_of (some (t, n)) = content t

abbrev pub generation_of : Option (Text × ℕ) → Result SignalStopLedgerGeneration
generation_of none = err (system [])
generation_of (some (t, n)) = ok (record { device = 1; inode = n % 2 ^ 64 })

abbrev pub remove_found : LedgerFile → Option (Text × ℕ) → Disk → Removal × Disk
remove_found f none d = (absent, d)
remove_found f (some x) d = (removed, set_file f none d)

abbrev pub rename_found :
    LedgerFile → LedgerFile → Option (Text × ℕ) → Disk → Result (Unit {0}) × Disk
rename_found f g none d = (err (system []), d)
rename_found f g (some x) d = (ok tt, set_file g (some x) (set_file f none d))

abbrev pub disk : FileSystem Disk
disk = record {
  read_to_string = λ f d. text_of (d.0 f);
  metadata = λ f d. generation_of (d.0 f);
  remove_file = λ f d. remove_found f (d.0 f) d;
  create_dir_all = λ d. (ok tt, d);
  write = λ f t d. (ok tt, set_file f (some (t, d.1)) d);
  rename = λ f g d. rename_found f g (d.0 f) d;
}

abbrev pub empty_disk : Disk
empty_disk = ((λ f. none), 0)

other_file : (f g : LedgerFile) → g ≢ f → same_file f g ≡ false
other_file f g h = ground (arith, same_file_iff f g)

set_other :
    (f g : LedgerFile) (o : Option (Text × ℕ)) (d : Disk) → g ≢ f → (set_file f o d).0 g ≡ d.0 g
set_other f g o d h = rw (other_file f g h) refl

set_same : (f : LedgerFile) (o : Option (Text × ℕ)) (d : Disk) → (set_file f o d).0 f ≡ o
set_same f o d = rw (yes f) refl
  where
    yes : (f : LedgerFile) → same_file f f ≡ true
    yes f = (same_file_iff f f).1 refl

-- What can be seen of a file depends on its entry only.
seen_same : (g : LedgerFile) (c d : Disk) → c.0 g ≡ d.0 g → Unchanged disk g c d
seen_same g c d e = (ap text_of e, ap generation_of e)

remove_other_file :
    (f g : LedgerFile) (o : Option (Text × ℕ)) (d : Disk)
    → g ≢ f
    → (remove_found f o d).1.0 g ≡ d.0 g
remove_other_file f g none d h = refl
remove_other_file f g (some x) d h = set_other f g none d h

rename_other_file :
    (f g h : LedgerFile) (o : Option (Text × ℕ)) (d : Disk)
    → h ≢ f
    → h ≢ g
    → (rename_found f g o d).1.0 h ≡ d.0 h
rename_other_file f g h none d a b = refl
rename_other_file f g h (some x) d a b =
    set_other g h (some x) (set_file f none d) b ∙ set_other f h none d a

gone :
    (f : LedgerFile) (o : Option (Text × ℕ)) (d : Disk)
    → d.0 f ≡ o
    → text_of ((remove_found f o d).1.0 f) ≡ not_found
gone f none d e = ap text_of e
gone f (some x) d e = ap text_of (set_same f none d)

never_refused :
    (f : LedgerFile) (o : Option (Text × ℕ)) (d : Disk) (e : DaemonError)
    → (remove_found f o d).0 ≢ refused e
never_refused f none d e = ground arith
never_refused f (some x) d e = ground arith

renamed :
    (f g : LedgerFile) (o : Option (Text × ℕ)) (d : Disk)
    → (rename_found f g o d).0 ≡ ok tt
    → (rename_found f g o d).1.0 g ≡ o
renamed f g none d h = ground arith
renamed f g (some x) d h = set_same g (some x) (set_file f none d)

not_renamed :
    (f g : LedgerFile) (o : Option (Text × ℕ)) (d : Disk) (e : DaemonError)
    → (rename_found f g o d).0 ≡ err e
    → (rename_found f g o d).1 ≡ d
not_renamed f g none d e h = refl
not_renamed f g (some x) d e h = ground arith

bounds :
    (o : Option (Text × ℕ)) (g : SignalStopLedgerGeneration)
    → generation_of o ≡ ok g
    → (g.device < 2 ^ 64) × (g.inode < 2 ^ 64)
bounds none g h = ground arith
bounds (some (t, n)) g h = ground arith

pub disk-IsFileSystem : IsFileSystem disk
disk-IsFileSystem = record {
  remove_other =
      λ f g d h. seen_same g (remove_found f (d.0 f) d).1 d (remove_other_file f g (d.0 f) d h);
  removes = λ f d h. gone f (d.0 f) d refl;
  removes_absent = λ f d h. gone f (d.0 f) d refl;
  refuses = λ f d e h. ground (arith, never_refused f (d.0 f) d e);
  creates = λ f d. (refl, refl);
  write_other =
      λ f g t d h. seen_same g (set_file f (some (t, d.1)) d) d (set_other f g (some (t, d.1)) d h);
  writes = λ f t d h. ap text_of (set_same f (some (t, d.1)) d);
  rename_other = λ f g h d a b.
      seen_same h (rename_found f g (d.0 f) d).1 d (rename_other_file f g h (d.0 f) d a b);
  renames = λ f g d h. ap text_of (renamed f g (d.0 f) d h);
  keeps_target = λ f g d e h.
      seen_same g (rename_found f g (d.0 f) d).1 d
        (ap (λ (c : Disk). c.0 g) (not_renamed f g (d.0 f) d e h));
  generation_bounds = λ f d g h. bounds (d.0 f) g h;
}
