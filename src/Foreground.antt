-- ===== src/Foreground.antt =====
-- Which process states count as the foreground: freezeitDaemon/src/app/foreground.rs.
use freezeit_cos.Base.{Bool, true, false, ◌&&◌, ◌||◌, ◌≡◌, refl}
use freezeit_cos.Domain.Process.{ProcessState, foreground, visible}
use freezeit_cos.Domain.Policy.{ForegroundStrategy, strict, permissive}
use freezeit_cos.Backend.{is_user_facing}

pub record ForegroundSignals : Type 0 where
  pub has_visible_ui : Bool
  pub has_foreground_service : Bool
  pub has_overlay : Bool
  pub has_audio : Bool

abbrev pub is_strict : ForegroundStrategy → Bool
is_strict strict = true
is_strict permissive = false

abbrev pub is_permissive : ForegroundStrategy → Bool
is_permissive strict = false
is_permissive permissive = true

unfoldable pub classify_foreground : ProcessState → ForegroundStrategy → ForegroundSignals → Bool
classify_foreground foreground strategy signals = true
classify_foreground visible strategy signals = true
classify_foreground ProcessState.unknown strategy signals = is_strict strategy
classify_foreground _ strategy signals =
    is_permissive strategy
    && (signals.has_visible_ui
        || (signals.has_foreground_service || (signals.has_overlay || signals.has_audio)))

-- Under the strict strategy the classification is the freezer backend's own test of the process
-- state, whatever the signals say.
pub strict_classifies :
    (state : ProcessState) (signals : ForegroundSignals)
    → classify_foreground state strict signals ≡ is_user_facing state
unfolding classify_foreground
strict_classifies foreground signals = refl
strict_classifies visible signals = refl
strict_classifies ProcessState.service signals = refl
strict_classifies ProcessState.cached signals = refl
strict_classifies ProcessState.empty signals = refl
strict_classifies ProcessState.unknown signals = refl
