-- ===== src/Deferral.antt =====
-- Postponing a freeze while an application downloads: freezeitDaemon/src/app/download_deferral.rs.
pub mod Rates
use freezeit_cos.Base.{
  ℕ, ◌*◌, ◌-◌, ◌/◌, Text, txt, eq_ignore_ascii_case, List, [], ◌∷◌, Option, none, some, Bool, not,
  any, ltb, leb, ◌||◌, Map, lookup, insert, remove, nat_key, if◌then◌else◌,
}

abbrev pub download_threshold_bytes_per_sec : ℕ
download_threshold_bytes_per_sec = 5 * 1024 * 1024

abbrev pub download_retry_delay_ms : ℕ
download_retry_delay_ms = 30_000

abbrev pub initial_sample_delay_ms : ℕ
initial_sample_delay_ms = 1_000

pub data DownloadDeferralAction : Type 0 where
  proceed postpone : DownloadDeferralAction

pub data UidRxSample : Type 0 where
  value : ℕ → UidRxSample
  missing failed : UidRxSample

pub record Sample : Type 0 where
  pub rx_bytes : ℕ
  pub sampled_at_ms : ℕ

pub record DownloadDeferral : Type 0 where
  pub samples : Map ℕ Sample

abbrev pub default_deferral : DownloadDeferral
default_deferral = record { samples = [] }

unfoldable pub clear_uid : ℕ → DownloadDeferral → DownloadDeferral
clear_uid uid d = record { samples = remove uid d.samples }

abbrev pub candidate_packages : List Text
candidate_packages =
    txt "com.baidu.netdisk"
    ∷ txt "com.quark.clouddrive"
    ∷ txt "com.google.android.apps.docs"
    ∷ txt "com.pikpak.android"
    ∷ txt "com.trim.app"
    ∷ []

unfoldable pub is_candidate_package : Text → Bool
is_candidate_package name = any (eq_ignore_ascii_case name) candidate_packages

-- The decision from two readings of the counter.
unfoldable pub rate_action : Sample → Sample → DownloadDeferralAction
rate_action previous now =
    if leb now.sampled_at_ms previous.sampled_at_ms || ltb now.rx_bytes previous.rx_bytes
    then postpone
    else if ltb download_threshold_bytes_per_sec
        ((now.rx_bytes - previous.rx_bytes) * 1_000 / (now.sampled_at_ms - previous.sampled_at_ms))
    then postpone
    else proceed

compare_with : Option Sample → Sample → DownloadDeferralAction
unfolding rate_action
compare_with none now = postpone
compare_with (some previous) now = rate_action previous now

evaluate_candidate :
    DownloadDeferral → ℕ → UidRxSample → ℕ → DownloadDeferral × DownloadDeferralAction
unfolding clear_uid compare_with
evaluate_candidate d uid (value rx) at_ms =
    let now : Sample = record { rx_bytes = rx; sampled_at_ms = at_ms } in
    (record { samples = insert uid now d.samples }, compare_with (lookup uid d.samples) now)
evaluate_candidate d uid missing at_ms = (clear_uid uid d, postpone)
evaluate_candidate d uid failed at_ms = (clear_uid uid d, postpone)

unfoldable pub evaluate :
    DownloadDeferral → ℕ → Text → UidRxSample → ℕ → DownloadDeferral × DownloadDeferralAction
unfolding evaluate_candidate clear_uid
evaluate d uid name sample at_ms =
    if not (is_candidate_package name)
    then (clear_uid uid d, proceed)
    else evaluate_candidate d uid sample at_ms
