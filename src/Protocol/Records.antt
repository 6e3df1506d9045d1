-- ===== src/Protocol/Records.antt =====
-- Lists of records as bytes: the policies and the freeze states of
-- freezeitDaemon/src/protocol/manager_v1.rs, the user ids of freezeitDaemon/src/protocol/xposed.rs
-- and freezeitDaemon/src/sys/socket.rs.
pub mod RoundTrip
pub mod Merge
use freezeit_cos.Base.{
  ℕ, ◌+◌, ◌-◌, ◌*◌, ◌%◌, ◌^◌, ℤ, pos, negsuc, is_pos, Text, txt, show, join, List, [], ◌∷◌, ◌++◌,
  Option, none, some, map, keep, any, is_empty, Bool, true, false, not, ◌&&◌, ◌||◌, length, ltb,
  ◌==◌, if◌then◌else◌, Map, Set, insert, lookup, contains, nat_key, unwrap_or,
}
use freezeit_cos.Domain.Error.{DaemonError, Result, ok, err, protocol}
use freezeit_cos.Control.Settings.{ManagerAppConfigRecord}
use freezeit_cos.Control.Status.{ManagerFreezeStatusRecord}
use freezeit_cos.Protocol.Bytes.{
  Bytes, u32_to_le_bytes, u32_from_le_bytes, as_i32, i32_to_le_bytes, i32_from_le_bytes,
}

abbrev pub u32_max : ℕ
u32_max = 2 ^ 32 - 1

abbrev pub flag : Bool → ℤ
flag true = pos 1
flag false = pos 0

unfoldable pub encode_app_config : List ManagerAppConfigRecord → Bytes
encode_app_config [] = []
encode_app_config (r ∷ records) =
    u32_to_le_bytes r.uid
    ++ (i32_to_le_bytes r.mode
        ++ (i32_to_le_bytes (flag r.permissive) ++ encode_app_config records))

-- `payload.chunks_exact(12)`, decoded
unfoldable pub decode_chunks : Bytes → List ManagerAppConfigRecord
decode_chunks (a ∷ b ∷ c ∷ d ∷ e ∷ f ∷ g ∷ h ∷ i ∷ j ∷ k ∷ l ∷ rest) =
    (record {
      uid = u32_from_le_bytes a b c d;
      mode = i32_from_le_bytes e f g h;
      permissive = not (is_pos (i32_from_le_bytes i j k l) 0);
    })
    ∷ decode_chunks rest
decode_chunks _ = []

unfoldable pub decode_app_config : Bytes → Result (List ManagerAppConfigRecord)
decode_app_config payload =
    if length payload % 12 == 0
    then ok (decode_chunks payload)
    else err (protocol (txt "app config payload length is not a multiple of 12"))

unfoldable pub encode_app_config_for_manager : List ManagerAppConfigRecord → Bytes
encode_app_config_for_manager [] =
    encode_app_config ((record { uid = u32_max; mode = pos 50; permissive = false }) ∷ [])
encode_app_config_for_manager (r ∷ records) = encode_app_config (r ∷ records)

-- The numbers of the record are not negative: `max(0)` leaves them.
unfoldable pub encode_freeze_status : List ManagerFreezeStatusRecord → Bytes
encode_freeze_status [] = []
encode_freeze_status (r ∷ records) =
    i32_to_le_bytes (as_i32 r.uid)
    ++ (i32_to_le_bytes (flag r.foreground)
        ++ (i32_to_le_bytes r.state
            ++ (i32_to_le_bytes (pos r.seconds)
                ++ (i32_to_le_bytes (pos r.process_count) ++ encode_freeze_status records))))

-- `encode_uid_payload`
unfoldable pub encode_uid_payload : List ℕ → Bytes
encode_uid_payload [] = []
encode_uid_payload (uid ∷ uids) = u32_to_le_bytes uid ++ encode_uid_payload uids

-- The first words of the bytes, as many as the count says.
unfoldable pub read_uids : ℕ → Bytes → List ℕ
read_uids ℕ.zero bytes = []
read_uids (ℕ.suc n) (a ∷ b ∷ c ∷ d ∷ rest) = u32_from_le_bytes a b c d ∷ read_uids n rest
read_uids (ℕ.suc n) _ = []

-- After the count.
unfoldable pub counted_uids : ℤ → Bytes → Result (List ℕ)
counted_uids (negsuc n) rest = err (protocol (txt "foreground uid payload count is negative"))
counted_uids (pos count) rest =
    if ltb (4 + length rest) (4 + count * 4)
    then err (
        protocol (
          txt "foreground uid payload length mismatch: expected at least "
          ++ (show (4 + count * 4) ++ (txt ", got " ++ show (4 + length rest)))))
    else ok (read_uids count rest)

unfoldable pub parse_foreground_uid_payload : Bytes → Result (List ℕ)
parse_foreground_uid_payload (a ∷ b ∷ c ∷ d ∷ rest) = counted_uids (i32_from_le_bytes a b c d) rest
parse_foreground_uid_payload _ = err (protocol (txt "foreground uid payload count is missing"))

-- The last of the requested records for each user id but the placeholder.
unfoldable pub requested_by_uid :
    List ManagerAppConfigRecord → Map ℕ ManagerAppConfigRecord → Map ℕ ManagerAppConfigRecord
requested_by_uid [] m = m
requested_by_uid (r ∷ records) m =
    requested_by_uid records (if not (r.uid == u32_max) then insert r.uid r m else m)

unfoldable pub merge_app_config_records :
    List ManagerAppConfigRecord → List ManagerAppConfigRecord → List ManagerAppConfigRecord
merge_app_config_records previous requested =
    map (λ (r : ManagerAppConfigRecord). unwrap_or (lookup r.uid (requested_by_uid requested [])) r)
      previous
    ++ keep
        (λ (r : ManagerAppConfigRecord).
          not (r.uid == u32_max)
          && not (any (λ (p : ManagerAppConfigRecord). p.uid == r.uid) previous))
        requested
