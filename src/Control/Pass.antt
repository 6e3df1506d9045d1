-- ===== src/Control/Pass.antt =====
-- One control pass over the manager's records: `run_control_pass_with_sampling_and_terminate` of
-- freezeitDaemon/src/app/controller.rs, the part for one record in `Record`.
pub mod Job
pub mod Fallback
pub mod Freeze
pub mod Outcome
pub mod Record
pub mod Invariants
use freezeit_cos.Base.{
  ℕ, Text, txt, List, [], ◌∷◌, ◌++◌, map, Option, none, some, Bool, not, ◌&&◌, keep, keys, Set,
  contains, retain, nat_key, list_key, pair_key, if◌then◌else◌,
}
use freezeit_cos.Domain.Error.{DaemonError}
use freezeit_cos.Deferral.{DownloadDeferral, clear_uid}
use freezeit_cos.Control.State.{RuntimeControlState, RuntimeIdentity, to_set}
use freezeit_cos.Control.World.{Env}
use freezeit_cos.Control.Thaw.{thaw_frozen_identities, clear_detached_each}
use freezeit_cos.Control.Settings.{ManagerAppConfigRecord, is_control_policy_mode}
use freezeit_cos.Control.Audit.{refreeze_audit_due}
use Job.{Round}
use Record.{control_record}

unfoldable pub controlled_uids : List ManagerAppConfigRecord → Set ℕ
controlled_uids app_config = to_set (
    map (λ (c : ManagerAppConfigRecord). c.uid)
      (keep (λ (c : ManagerAppConfigRecord). is_control_policy_mode c.mode) app_config))

uids_of : List RuntimeIdentity → List ℕ
uids_of = map λ i. i.1

clear_uids : List ℕ → DownloadDeferral → DownloadDeferral
clear_uids [] d = d
clear_uids (u ∷ us) d = clear_uids us (clear_uid u d)

-- The frozen identities whose uid is no longer controlled.
unfoldable pub stale_frozen_identities : Set ℕ → RuntimeControlState → List RuntimeIdentity
stale_frozen_identities controlled s =
    keep (λ (i : RuntimeIdentity). not (contains i.1 controlled)) (keys s.frozen_apps)

stale_uids : Set ℕ → RuntimeControlState → List ℕ
unfolding uids_of
stale_uids controlled s = keys (
    to_set (
      keep (λ uid. not (contains uid controlled))
        (uids_of (keys s.pending_freezes)
          ++ (uids_of (stale_frozen_identities controlled s)
              ++ uids_of (keys s.frozen_ownership)))))

-- The bookkeeping of uids that are no longer controlled is dropped.
unfoldable pub drop_stale : Set ℕ → RuntimeControlState → RuntimeControlState
unfolding stale_uids clear_uids
drop_stale controlled s = record s {
  pending_freezes = retain (λ (i : RuntimeIdentity). contains i.1 controlled) s.pending_freezes;
  blocked_process_signatures =
      retain (λ (i : RuntimeIdentity). contains i.1 controlled) s.blocked_process_signatures;
  network_restriction_requests =
      retain (λ uid. contains uid controlled) s.network_restriction_requests;
  status_since_ms = retain (λ uid. contains uid controlled) s.status_since_ms;
  download_deferral = clear_uids (stale_uids controlled s) s.download_deferral;
}

unfoldable pub stale_detached : Set ℕ → RuntimeControlState → List RuntimeIdentity
stale_detached controlled s =
    keep (λ (i : RuntimeIdentity). not (contains i s.frozen_apps) && not (contains i.1 controlled))
      (keys s.frozen_ownership)

module _ {W : Type 0} (env : Env W) where
  -- The loop over the records: an error of one ends the pass.
  unfoldable pub control_records :
      List ℕ → List ℕ → Bool → ℕ → List ManagerAppConfigRecord → RuntimeControlState → W → Round W
  control_records settings foreground_uids audit_due t [] s w = (none, s, w)
  control_records settings foreground_uids audit_due t (c ∷ cs) s w =
      let out = control_record env settings foreground_uids audit_due t c s w in
      elim out.0 [
        | some e ↦ (some e, out.1, out.2)
        | none ↦ control_records settings foreground_uids audit_due t cs out.1 out.2
      ]

  -- What happens before the loop.
  unfoldable pub thaw_stale :
      List ManagerAppConfigRecord → ℕ → RuntimeControlState → W → RuntimeControlState × W
  thaw_stale app_config t s w =
      let controlled = controlled_uids app_config in
      let (result, s1, w1) =
        thaw_frozen_identities env (drop_stale controlled s) (stale_frozen_identities controlled s)
          t (txt "control policy removed") w in
      (clear_detached_each s1 (stale_detached controlled s1), w1)

  unfoldable pub run_control_pass :
      RuntimeControlState → List ManagerAppConfigRecord → List ℕ → List ℕ → ℕ → W → Round W
  unfolding thaw_stale control_records
  run_control_pass s app_config settings foreground_uids t w =
      let (s1, w1) = thaw_stale app_config t s w in
      let (audit_due, s2) = refreeze_audit_due s1 settings t in
      control_records settings foreground_uids audit_due t app_config s2 w1
