-- ===== src/Domain/Error.antt =====
-- Errors and results: freezeitDaemon/src/app/error.rs.
use freezeit_cos.Base.{Text, txt, Bool, ◌++◌}

-- `std::io::Error`: whether its kind is `PermissionDenied`, and what it displays.
pub record IoError : Type 0 where
  pub permission_denied : Bool
  pub message : Text

pub data DaemonError : Type 0 where
  config : Text → DaemonError
  io : IoError → DaemonError
  protocol : Text → DaemonError
  system : Text → DaemonError

unfoldable pub display : DaemonError → Text
display (config m) = txt "config error: " ++ m
display (io e) = txt "io error: " ++ e.message
display (protocol m) = txt "protocol error: " ++ m
display (system m) = txt "system error: " ++ m

pub data Result {ℓ} (A : Type ℓ) : Type ℓ where
  ok : A → Result A
  err : DaemonError → Result A
