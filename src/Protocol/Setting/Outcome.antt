-- ===== src/Protocol/Setting/Outcome.antt =====
-- What a change of one setting leaves, on every branch.
use freezeit_cos.Base.{
  ℕ, ◌+◌, ◌≤◌, ◌↔◌, txt, ◌%◌, ◌^◌, Text, beq, beq_iff, list_key, nat_key, [], ◌∷◌, length, Option,
  none, some, Bool, true, false, if◌then◌else◌, ◌≡◌, ◌≢◌, ◌⊎◌, inl, inr, refl, sym, subst, arith,
  Bool-cases,
}
use freezeit_cos.Domain.Error.{Result, ok, err}
use freezeit_cos.Protocol.Bytes.{Bytes}
use freezeit_cos.Protocol.Setting.{
  SettingsState, setting_error, set_at, commit_settings, advance_config_revision, whole_settings,
  after_persist, persist_updated, set_checked, set_settings_var, unsynced,
}

-- The revision has advanced by one, modulo the width, if the settings changed, and is as it was
-- otherwise.
abbrev pub CountsChange : SettingsState → SettingsState → Type 0
CountsChange before after =
    ((after.settings ≡ before.settings) × (after.config_revision ≡ before.config_revision))
    ⊎ ((after.settings ≢ before.settings)
        × (after.config_revision ≡ (before.config_revision + 1) % 2 ^ 64))

commit-counts : (s : SettingsState) (updated : Bytes) → CountsChange s (commit_settings s updated)
unfolding commit_settings advance_config_revision
commit-counts s updated = elim (Bool-cases (beq s.settings updated)) [
  | inl e ↦ inl (rw e (sym ((beq_iff s.settings updated).0 e), refl))
  | inr e ↦ inr (rw e ((λ q. ground (arith, e, (beq_iff s.settings updated).1 (sym q))), refl))
]

commit-settings :
    (s : SettingsState) (updated : Bytes) → (commit_settings s updated).settings ≡ updated
unfolding commit_settings advance_config_revision
commit-settings s updated = elim (Bool-cases (beq s.settings updated)) [
  | inl e ↦ rw e refl
  | inr e ↦ rw e refl
]

-- The values of the settings, by their index.
abbrev pub IsInRange : ℕ → ℕ → Type 0
IsInRange index v =
    ((index ≡ 2) × (1 ≤ v) × (v ≤ 60))
    ⊎ ((index ≡ 3) × (v ≤ 5))
    ⊎ ((index ≡ 4) × (3 ≤ v) × (v ≤ 120))
    ⊎ ((index ≡ 5) × (v ≤ 2))
    ⊎ ((index ≡ 6) × (v ≤ 3))
    ⊎ ((10 ≤ index) × (index ≤ 29) × (v ≤ 1))
    ⊎ ((index ≡ 30) × (v ≤ 4))

setting_error-none : (index v : ℕ) → (setting_error index v ≡ none) ↔ IsInRange index v
unfolding setting_error
setting_error-none index v = ground arith

whole_of_256 : (xs : Bytes) → length xs ≡ 256 → whole_settings xs ≡ xs
unfolding whole_settings
whole_of_256 xs l = rw l refl

module _ {W : Type 0} (persist : Text → Bytes → W → Result (Unit {0}) × W)
    (persisted_bytes_match : Text → Bytes → W → Bool) where
  -- The file was written: the settings are the new ones, and the answer says so.
  abbrev pub IsStored : Bytes → Text × SettingsState × W → Type 0
  IsStored updated out = (out.0 ≡ txt "success") × (out.1.settings ≡ updated)

  -- The file was not written: the settings are the new ones exactly if the file holds them all the
  -- same, and the hook no longer counts as synchronized.
  abbrev pub IsUnstored : SettingsState → Text → Bytes → Text × SettingsState × W → Type 0
  IsUnstored s path updated out =
      (out.1.settings ≡ (if persisted_bytes_match path updated out.2 then updated else s.settings))
      × (out.1.hook_config_synced ≡ false)

  after_persist_lem :
      (s : SettingsState) (index v : ℕ) (path : Text) (updated : Bytes) (p : Result (Unit {0}) × W)
      → let out = after_persist persist persisted_bytes_match s index v path updated p in
        ((p.0 ≡ ok tt) × IsStored updated out) ⊎ ((p.0 ≢ ok tt) × IsUnstored s path updated out)
  unfolding after_persist
  after_persist_lem s index v path updated (ok u, w) = inl (refl, (refl, commit-settings s updated))
  after_persist_lem s index v path updated (err e, w) =
      inr ((λ q. ground (arith, q)), (unsynced_state (persisted_bytes_match path updated w), refl))
    where
      unsynced_state :
          (b : Bool)
          → (unsynced (if b then commit_settings s updated else s)).settings
            ≡ (if b then updated else s.settings)
      unsynced_state true = commit-settings s updated
      unsynced_state false = refl

  abbrev IsPersisted : SettingsState → Text → Bytes → W → Text × SettingsState × W → Type 0
  IsPersisted s path updated w out =
      (((persist path updated w).0 ≡ ok tt) × IsStored updated out)
      ⊎ (((persist path updated w).0 ≢ ok tt) × IsUnstored s path updated out)

  set_checked_lem :
      (s : SettingsState) (index v : ℕ) (path : Text) (o : Option Text) (w : W)
      → length s.settings ≡ 256
      → s.settings_path ≡ some path
      → let out = set_checked persist persisted_bytes_match s index v o w in
        let updated = set_at index v s.settings in
        ((o ≢ none) × (out.1 ≡ s) × (out.2 ≡ w))
        ⊎ ((o ≡ none) × ((persist path updated w).0 ≡ ok tt) × IsStored updated out)
        ⊎ ((o ≡ none) × ((persist path updated w).0 ≢ ok tt) × IsUnstored s path updated out)
  unfolding set_checked persist_updated
  set_checked_lem s index v path (some message) w l f = inl ((λ q. ground (arith, q)), refl, refl)
  set_checked_lem s index v path none w l f =
      let updated = set_at index v s.settings in
      inr
        (elim (subst
          (λ (xs : Bytes). IsPersisted s path updated w (
            persist_updated persist persisted_bytes_match s index v (set_at index v xs)
              s.settings_path w))
          (sym (whole_of_256 s.settings l))
          (subst
            (λ (file : Option Text).
              IsPersisted s path updated w
                (persist_updated persist persisted_bytes_match s index v updated file w))
            (sym f) (after_persist_lem s index v path updated (persist path updated w)))) [
              | inl (a, b) ↦ inl (refl, a, b)
              | inr (a, b) ↦ inr (refl, a, b)
            ])

  -- What setting a value does, for settings of 256 bytes that have a file. A value out of the range
  -- of its setting, or of no setting, changes neither the state nor the file. One in range is put at
  -- its index and written: if that succeeds, the answer is a success and the settings are the new
  -- ones; if not, they are the new ones exactly if the file holds them when it is read back, and the
  -- hook no longer counts as synchronized.
  pub set_settings_var_lem :
      (s : SettingsState) (index v : ℕ) (path : Text) (w : W)
      → length s.settings ≡ 256
      → s.settings_path ≡ some path
      → let out = set_settings_var persist persisted_bytes_match s (index ∷ v ∷ []) w in
        let updated = set_at index v s.settings in
        ((¬ (IsInRange index v)) × (out.1 ≡ s) × (out.2 ≡ w))
        ⊎ (IsInRange index v × ((persist path updated w).0 ≡ ok tt) × IsStored updated out)
        ⊎ (IsInRange index v × ((persist path updated w).0 ≢ ok tt) × IsUnstored s path updated out)
  unfolding set_settings_var
  set_settings_var_lem s index v path w l f =
      elim (set_checked_lem s index v path (setting_error index v) w l f) [
        | inl (n, a, b) ↦ inl ((λ r. n ((setting_error-none index v).1 r)), a, b)
        | inr (inl (n, a, b)) ↦ inr (inl ((setting_error-none index v).0 n, a, b))
        | inr (inr (n, a, b)) ↦ inr (inr ((setting_error-none index v).0 n, a, b))
      ]
