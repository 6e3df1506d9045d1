-- ===== src/Ledger/Files/Writes.antt =====
-- What a rewritten file of the ledger holds, and which files stay as they were.
use freezeit_cos.Base.{
  Text, List, [], ◌∷◌, ◌++◌, join, ◌≡◌, ◌≢◌, refl, ◌∙◌, ap, arith, inl, inr, ◌⊎◌,
}
use freezeit_cos.Domain.Error.{Result, ok, err, DaemonError}
use freezeit_cos.Ledger.Files.{
  LedgerFile, temporary, ReadText, content, not_found, Removal, removed, absent, refused,
  FileSystem, IsFileSystem, Unchanged, after_removal, and_then, write_signal_stop_ledger_file,
  replace_file,
}

-- The text of a file that was written line by line; without a line there is no file.
abbrev pub written : List Text → ReadText
written [] = not_found
written (l ∷ ls) = content (join (10 ∷ []) (l ∷ ls) ++ 10 ∷ [])

pub Result-cases {ℓ} :
    {A : Type ℓ} (r : Result A) → ((a : A) × (r ≡ ok a)) ⊎ ((e : DaemonError) × (r ≡ err e))
Result-cases (ok a) = inl (a, refl)
Result-cases (err e) = inr (e, refl)

module _ {W : Type 0} (fs : FileSystem W) (laws : IsFileSystem fs) where
  Unchanged-trans :
      (f : LedgerFile) (u v w : W) → Unchanged fs f u v → Unchanged fs f v w → Unchanged fs f u w
  Unchanged-trans f u v w p q = (p.0 ∙ q.0, p.1 ∙ q.1)

  pub and_then-keeps :
      (P : W → Type 0) (p : Result (Unit {0}) × W) (next : W → Result (Unit {0}) × W)
      → P p.1
      → ((w : W) → P w → P (next w).1)
      → P (and_then fs p next).1
  and_then-keeps P (ok u, w) next a b = b w a
  and_then-keeps P (err e, w) next a b = a

  pub and_then-ok :
      (p : Result (Unit {0}) × W) (next : W → Result (Unit {0}) × W)
      → (and_then fs p next).0 ≡ ok tt
      → (p.0 ≡ ok tt) × ((next p.1).0 ≡ ok tt) × (and_then fs p next ≡ next p.1)
  and_then-ok (ok u, w) next h = (refl, h, refl)
  and_then-ok (err e, w) next h = ground arith

  pub and_then-err :
      (P : W → Type 0) (p : Result (Unit {0}) × W) (next : W → Result (Unit {0}) × W)
      (e : DaemonError)
      → (and_then fs p next).0 ≡ err e
      → (p.0 ≡ err e → P p.1)
      → (p.0 ≡ ok tt → (next p.1).0 ≡ err e → P (next p.1).1)
      → P (and_then fs p next).1
  and_then-err P (ok u, w) next e h a b = b refl h
  and_then-err P (err d, w) next e h a b = a h

  -- The three steps of a replacement leave another file as it is.
  replace_other :
      (f g : LedgerFile) (t : Text) (w : W)
      → g ≢ f
      → g ≢ temporary f
      → Unchanged fs g (replace_file fs f t w).1 w
  replace_other f g t w n m =
      and_then-keeps (λ x. Unchanged fs g x w) (fs.create_dir_all w)
        (λ w1. and_then fs (fs.write (temporary f) t w1) λ w2. fs.rename (temporary f) f w2)
        (laws.creates g w)
        λ w1 u.
          and_then-keeps (λ x. Unchanged fs g x w) (fs.write (temporary f) t w1)
            (λ w2. fs.rename (temporary f) f w2)
            (Unchanged-trans g (fs.write (temporary f) t w1).1 w1 w
              (laws.write_other (temporary f) g t w1 m) u)
            λ w2 v.
              Unchanged-trans g (fs.rename (temporary f) f w2).1 w2 w
                (laws.rename_other (temporary f) f g w2 m n) v

  after_removal_world : (p : Removal × W) → (after_removal fs p).1 ≡ p.1
  after_removal_world (removed, w) = refl
  after_removal_world (absent, w) = refl
  after_removal_world (refused e, w) = refl

  removal_cases :
      (p : Removal × W) → (after_removal fs p).0 ≡ ok tt → (p.0 ≡ removed) ⊎ (p.0 ≡ absent)
  removal_cases (removed, w) h = inl refl
  removal_cases (absent, w) h = inr refl
  removal_cases (refused e, w) h = ground arith

  removal_refused :
      (p : Removal × W) (e : DaemonError) → (after_removal fs p).0 ≡ err e → p.0 ≡ refused e
  removal_refused (removed, w) e h = ground arith
  removal_refused (absent, w) e h = ground arith
  removal_refused (refused d, w) e h = ground arith

  pub write_other :
      (f g : LedgerFile) (ls : List Text) (w : W)
      → g ≢ f
      → g ≢ temporary f
      → Unchanged fs g (write_signal_stop_ledger_file fs f ls w).1 w
  unfolding write_signal_stop_ledger_file
  write_other f g [] w n m =
      rw (after_removal_world (fs.remove_file f w)) (laws.remove_other f g w n)
  write_other f g (l ∷ ls) w n m = replace_other f g (join (10 ∷ []) (l ∷ ls) ++ 10 ∷ []) w n m

  replace_ok :
      (f : LedgerFile) (t : Text) (w : W)
      → (replace_file fs f t w).0 ≡ ok tt
      → fs.read_to_string f (replace_file fs f t w).1 ≡ content t
  replace_ok f t w h =
      let w1 = (fs.create_dir_all w).1 in
      let a =
        and_then-ok (fs.create_dir_all w)
          (λ v. and_then fs (fs.write (temporary f) t v) λ w2. fs.rename (temporary f) f w2) h in
      let b = and_then-ok (fs.write (temporary f) t w1) (λ v. fs.rename (temporary f) f v) a.1 in
      ap (λ (p : Result (Unit {0}) × W). fs.read_to_string f p.1) (a.2 ∙ b.2)
      ∙ laws.renames (temporary f) f (fs.write (temporary f) t w1).1 b.1
      ∙ laws.writes (temporary f) t w1 b.0

  pub write_ok :
      (f : LedgerFile) (ls : List Text) (w : W)
      → (write_signal_stop_ledger_file fs f ls w).0 ≡ ok tt
      → fs.read_to_string f (write_signal_stop_ledger_file fs f ls w).1 ≡ written ls
  unfolding write_signal_stop_ledger_file
  write_ok f [] w h =
      rw (after_removal_world (fs.remove_file f w)) (elim (removal_cases (fs.remove_file f w) h) [
        | inl e ↦ laws.removes f w e
        | inr e ↦ laws.removes_absent f w e
      ])
  write_ok f (l ∷ ls) w h = replace_ok f (join (10 ∷ []) (l ∷ ls) ++ 10 ∷ []) w h

  replace_err :
      (f : LedgerFile) (t : Text) (w : W) (e : DaemonError)
      → f ≢ temporary f
      → (replace_file fs f t w).0 ≡ err e
      → Unchanged fs f (replace_file fs f t w).1 w
  replace_err f t w e n h =
      let w1 = (fs.create_dir_all w).1 in
      let w2 = (fs.write (temporary f) t w1).1 in
      let u1 = laws.creates f w in
      let u2 = Unchanged-trans f w2 w1 w (laws.write_other (temporary f) f t w1 n) u1 in
      and_then-err (λ x. Unchanged fs f x w) (fs.create_dir_all w)
        (λ v. and_then fs (fs.write (temporary f) t v) λ x. fs.rename (temporary f) f x) e h
        (λ _. u1)
        λ _ k.
          and_then-err (λ x. Unchanged fs f x w) (fs.write (temporary f) t w1)
            (λ x. fs.rename (temporary f) f x) e k (λ _. u2)
            λ _ l.
              Unchanged-trans f (fs.rename (temporary f) f w2).1 w2 w
                (laws.keeps_target (temporary f) f w2 e l) u2

  pub write_err :
      (f : LedgerFile) (ls : List Text) (w : W) (e : DaemonError)
      → f ≢ temporary f
      → (write_signal_stop_ledger_file fs f ls w).0 ≡ err e
      → Unchanged fs f (write_signal_stop_ledger_file fs f ls w).1 w
  unfolding write_signal_stop_ledger_file
  write_err f [] w e n h =
      rw (after_removal_world (fs.remove_file f w))
        (laws.refuses f w e (removal_refused (fs.remove_file f w) e h))
  write_err f (l ∷ ls) w e n h = replace_err f (join (10 ∷ []) (l ∷ ls) ++ 10 ∷ []) w e n h
