-- ===== src/Protocol/Frames.antt =====
-- The frames of the two sockets: `parse_frame` and `encode_frame` of
-- freezeitDaemon/src/protocol/manager_v1.rs and of freezeitDaemon/src/protocol/xposed.rs.
pub mod RoundTrip
use Prim.Native.Nat.{bit_xor}
use freezeit_cos.Base.{
  ℕ, ◌+◌, ◌-◌, ◌*◌, ℤ, pos, negsuc, Text, txt, show, List, [], ◌∷◌, ◌++◌, Bool, true, false, not,
  length, ltb, ◌==◌, if◌then◌else◌,
}
use freezeit_cos.Domain.Error.{DaemonError, Result, ok, err, protocol}
use freezeit_cos.Protocol.Bytes.{
  Bytes, u32_to_le_bytes, u32_from_le_bytes, i32_to_le_bytes, i32_from_le_bytes,
}
use freezeit_cos.Protocol.Commands.{
  ManagerCommand, manager_code, manager_command, XposedCommand, xposed_code, xposed_command,
}

abbrev pub manager_header_len : ℕ
manager_header_len = 6

abbrev pub manager_max_payload_len : ℕ
manager_max_payload_len = 1024 * 1024

pub record ManagerFrame : Type 0 where
  pub command : ManagerCommand
  pub payload : Bytes

-- `fold(0, |accumulator, byte| accumulator ^ byte)`
unfoldable pub xor_from : ℕ → Bytes → ℕ
xor_from accumulator [] = accumulator
xor_from accumulator (byte ∷ bytes) = xor_from (bit_xor accumulator byte) bytes

unfoldable pub checksum : Bytes → ℕ
unfolding xor_from
checksum = xor_from 0

unfoldable pub payload_checksum : Bytes → ℕ
unfolding checksum
payload_checksum [] = 0
payload_checksum (b ∷ bytes) = checksum (b ∷ bytes)

abbrev pub length_mismatch : Text → ℕ → ℕ → Text
length_mismatch name expected got =
    name
    ++ (txt " frame length mismatch: expected " ++ (show expected ++ (txt ", got " ++ show got)))

abbrev pub manager_frame : Bytes → Result ManagerCommand → Result ManagerFrame
manager_frame payload (ok command) = ok (record { command = command; payload = payload })
manager_frame payload (err e) = err e

-- After the six bytes of the header.
unfoldable pub parse_manager_payload : ℕ → ℕ → ℕ → Bytes → Result ManagerFrame
parse_manager_payload payload_len code sum payload =
    if ltb manager_max_payload_len payload_len
    then err (protocol (txt "manager frame payload is too large"))
    else if not (manager_header_len + length payload == manager_header_len + payload_len)
    then err (
        protocol (
          length_mismatch (txt "manager") (manager_header_len + payload_len)
            (manager_header_len + length payload)))
    else if not (sum == payload_checksum payload)
    then err (protocol (txt "manager frame checksum mismatch"))
    else manager_frame payload (manager_command code)

unfoldable pub parse_manager_frame : Bytes → Result ManagerFrame
parse_manager_frame (a ∷ b ∷ c ∷ d ∷ code ∷ sum ∷ payload) =
    parse_manager_payload (u32_from_le_bytes a b c d) code sum payload
parse_manager_frame _ = err (protocol (txt "manager frame header is incomplete"))

unfoldable pub encode_manager_frame : ManagerCommand → Bytes → Result Bytes
encode_manager_frame command payload =
    if ltb manager_max_payload_len (length payload)
    then err (protocol (txt "manager frame payload is too large"))
    else ok (
        u32_to_le_bytes (length payload)
        ++ (manager_code command ∷ payload_checksum payload ∷ payload))

abbrev pub xposed_header_len : ℕ
xposed_header_len = 8

abbrev pub max_request_payload_len : ℕ
max_request_payload_len = 128 * 1024 - 1

pub record XposedFrame : Type 0 where
  pub command : XposedCommand
  pub payload : Bytes

abbrev pub xposed_frame : Bytes → Result XposedCommand → Result XposedFrame
xposed_frame payload (ok command) = ok (record { command = command; payload = payload })
xposed_frame payload (err e) = err e

-- After the eight bytes of the header.
unfoldable pub parse_xposed_payload : ℤ → ℤ → Bytes → Result XposedFrame
parse_xposed_payload command (negsuc n) payload =
    err (protocol (txt "xposed frame payload length is negative"))
parse_xposed_payload command (pos payload_len) payload =
    if ltb max_request_payload_len payload_len
    then err (protocol (txt "xposed frame payload is too large"))
    else if not (xposed_header_len + length payload == xposed_header_len + payload_len)
    then err (
        protocol (
          length_mismatch (txt "xposed") (xposed_header_len + payload_len)
            (xposed_header_len + length payload)))
    else xposed_frame payload (xposed_command command)

unfoldable pub parse_xposed_frame : Bytes → Result XposedFrame
parse_xposed_frame (a ∷ b ∷ c ∷ d ∷ e ∷ f ∷ g ∷ h ∷ payload) =
    parse_xposed_payload (i32_from_le_bytes a b c d) (i32_from_le_bytes e f g h) payload
parse_xposed_frame _ = err (protocol (txt "xposed frame header is incomplete"))

unfoldable pub encode_xposed_frame : XposedCommand → Bytes → Result Bytes
encode_xposed_frame command payload =
    if ltb max_request_payload_len (length payload)
    then err (protocol (txt "xposed frame payload is too large"))
    else ok (
        i32_to_le_bytes (xposed_code command)
        ++ (i32_to_le_bytes (pos (length payload)) ++ payload))
