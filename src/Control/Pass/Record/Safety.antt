-- ===== src/Control/Pass/Record/Safety.antt =====
-- Which applications a control pass never freezes or kills.
use freezeit_cos.Base.{
  ◌%◌, ◌<◌, [], Bool, true, false, is_some, any, ◌==◌, ◌≡◌, ◌⊎◌, inl, inr, arith, list_key, nat_key,
  pair_key, remove, option_key, int_key, if◌then◌else◌,
}
use freezeit_cos.Domain.Policy.{is_control_allowed_for, is_protected, control_method}
use freezeit_cos.Control.State.{RuntimeControlState}
use freezeit_cos.Control.World.{Env, RespectsThaw}
use freezeit_cos.Control.World.Trace.{traced, IsHarmless, traced-RespectsThaw}
use freezeit_cos.Control.Thaw.Guarded.{unfreeze_keeps, thaw_identities_keeps}
use freezeit_cos.Control.Settings.{
  managed_app_from_record, is_control_policy_mode, policy_from_record, mode_from_record,
}
use freezeit_cos.Control.Pass.Job.{Job, Round, identity, app_of, policy_of}
use freezeit_cos.Control.Pass.Record.{
  forbidden, in_foreground, by_visibility, check_signature, control_job,
}

abbrev is_foreground : Job → Bool
is_foreground j = any (λ uid. uid == j.config.uid) j.foreground_uids

module _ {W : Type 0} (env : Env W) (P : W → Type 0) (R : RespectsThaw env P) (j : Job) where
  forbidden_keeps : (s : RuntimeControlState) (w : W) → P w → P (forbidden env j s w).2
  unfolding forbidden
  forbidden_keeps s w q = thaw_identities_keeps env P R _ _ j.timestamp_ms _ w q

  in_foreground_keeps : (s : RuntimeControlState) (w : W) → P w → P (in_foreground env j s w).2
  unfolding in_foreground
  in_foreground_keeps s w q =
      round_if _ _ _ (unfreeze_keeps env P R j.package_name j.processes _ w q) q
    where
      round_if : (b : Bool) (r r' : Round W) → P r.2 → P r'.2 → P (if b then r else r').2
      round_if true r r' h h' = h
      round_if false r r' h h' = h'

  by_visibility_keeps :
      (s : RuntimeControlState) (w : W)
      → is_foreground j ≡ true
      → P w
      → P (by_visibility env j s w).2
  unfolding by_visibility
  by_visibility_keeps s w f q = rw f (in_foreground_keeps s w q)

  check_signature_keeps :
      (s : RuntimeControlState) (w : W)
      → is_foreground j ≡ true
      → P w
      → P (check_signature env j s w).2
  unfolding check_signature
  check_signature_keeps s w f q = ground (
    arith,
    by_visibility_keeps s w f q,
    by_visibility_keeps
        (record s { blocked_process_signatures = remove (identity j) s.blocked_process_signatures })
        w f q,
  )

  pub spared_keeps :
      (s : RuntimeControlState) (w : W)
      → (is_foreground j ≡ true) ⊎ (is_control_allowed_for (policy_of j) (app_of j) ≡ false)
      → P w
      → P (control_job env j s w).2
  unfolding control_job
  spared_keeps s w (inl f) q = ground (arith, forbidden_keeps s w q, check_signature_keeps s w f q)
  spared_keeps s w (inr n) q = rw n (forbidden_keeps s w q)

-- The reasons to leave an application alone: it is in the foreground, its uid is one of the
-- system's, its package is protected, or its mode asks for no control.
abbrev pub IsSpared : Job → Type 0
IsSpared j =
    (is_foreground j ≡ true)
    ⊎ (j.config.uid % 100_000 < 10_000)
    ⊎ (is_some (app_of j).protected_reason ≡ true)
    ⊎ (is_control_policy_mode j.config.mode ≡ false)

spared_not_allowed :
    (j : Job)
    → (j.config.uid % 100_000 < 10_000)
      ⊎ ((is_some (app_of j).protected_reason ≡ true)
          ⊎ (is_control_policy_mode j.config.mode ≡ false))
    → is_control_allowed_for (policy_of j) (app_of j) ≡ false
unfolding is_control_allowed_for is_protected
spared_not_allowed j (inl u) = unfold managed_app_from_record in ground arith
spared_not_allowed j (inr (inl p)) = ground arith
spared_not_allowed j (inr (inr m)) =
    unfold policy_from_record control_method mode_from_record is_control_policy_mode in ground arith

-- The reasons to leave an application alone: it is in the foreground, its uid is one of the
-- system's, its package is protected, or its mode asks for no control. The handling of such an
-- application freezes and kills nothing, whatever the state, the device and its answers.
pub spared-IsHarmless :
    {W : Type 0} (env : Env W) (j : Job) (s : RuntimeControlState) (w : W)
    → IsSpared j
    → IsHarmless (control_job (traced env) j s ([], w)).2.0
spared-IsHarmless env j s w h =
    spared_keeps (traced env) (λ t. IsHarmless t.0) (traced-RespectsThaw env) j s ([], w) (reason h)
      tt
  where
    reason :
        IsSpared j
        → (is_foreground j ≡ true) ⊎ (is_control_allowed_for (policy_of j) (app_of j) ≡ false)
    reason (inl f) = inl f
    reason (inr n) = inr (spared_not_allowed j n)
