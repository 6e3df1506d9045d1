-- ===== src/Protocol/Records/RoundTrip.antt =====
-- Records between their encoding and their decoding.
use freezeit_cos.Base.{
  ℕ, ◌*◌, ◌<◌, ◌^◌, ◌%◌, ◌/◌, ℤ, pos, is_pos, List, [], ◌∷◌, ◌++◌, Bool, true, false, not, ◌&&◌,
  all, length, ltb, ◌≡◌, refl, arith,
}
use freezeit_cos.Base.Parse.{in_i32}
use freezeit_cos.Domain.Error.{ok}
use freezeit_cos.Control.Settings.{ManagerAppConfigRecord}
use freezeit_cos.Protocol.Bytes.{
  u32_to_le_bytes, i32_to_le_bytes, i32_from_le_bytes, word_round_trip, i32_round_trip,
}
use freezeit_cos.Protocol.Records.{
  flag, encode_app_config, decode_chunks, decode_app_config, encode_uid_payload, read_uids,
  counted_uids, parse_foreground_uid_payload,
}

-- A record whose user id is one of 32 bits, and whose mode is.
abbrev pub record_in_range : ManagerAppConfigRecord → Bool
record_in_range r = ltb r.uid (2 ^ 32) && in_i32 r.mode

flag_round_trip : (b : Bool) → not (is_pos (flag b) 0) ≡ b
flag_round_trip true = refl
flag_round_trip false = refl

decode_chunks-encode :
    (records : List ManagerAppConfigRecord)
    → all record_in_range records ≡ true
    → decode_chunks (encode_app_config records) ≡ records
unfolding decode_chunks encode_app_config u32_to_le_bytes
decode_chunks-encode [] h = refl
decode_chunks-encode (r ∷ records) h =
    rw
      (
        word_round_trip r.uid (ground arith),
        i32_round_trip r.mode (ground arith),
        i32_round_trip (flag r.permissive) (flag_in_range r.permissive),
        flag_round_trip r.permissive,
        decode_chunks-encode records (ground arith),
      )
      refl
  where
    flag_in_range : (b : Bool) → in_i32 (flag b) ≡ true
    flag_in_range true = refl
    flag_in_range false = refl

length-encode :
    (records : List ManagerAppConfigRecord)
    → length (encode_app_config records) ≡ 12 * length records
unfolding encode_app_config u32_to_le_bytes
length-encode [] = refl
length-encode (r ∷ records) = ground (arith, length-encode records)

-- The policies that are sent to the manager are the ones that are read from them.
pub app_config_round_trip :
    (records : List ManagerAppConfigRecord)
    → all record_in_range records ≡ true
    → decode_app_config (encode_app_config records) ≡ ok records
unfolding decode_app_config
app_config_round_trip records h =
    ground (arith, length-encode records, decode_chunks-encode records h)

read_uids-encode :
    (uids : List ℕ)
    → all (λ u. ltb u (2 ^ 32)) uids ≡ true
    → read_uids (length uids) (encode_uid_payload uids) ≡ uids
unfolding read_uids encode_uid_payload u32_to_le_bytes
read_uids-encode [] h = refl
read_uids-encode (u ∷ uids) h =
    rw (word_round_trip u (ground arith), read_uids-encode uids (ground arith)) refl

length-encode_uid_payload : (uids : List ℕ) → length (encode_uid_payload uids) ≡ 4 * length uids
unfolding encode_uid_payload u32_to_le_bytes
length-encode_uid_payload [] = refl
length-encode_uid_payload (u ∷ uids) = ground (arith, length-encode_uid_payload uids)

counted_uids-encode :
    (uids : List ℕ) (count : ℤ)
    → count ≡ pos (length uids)
    → all (λ u. ltb u (2 ^ 32)) uids ≡ true
    → counted_uids count (encode_uid_payload uids) ≡ ok uids
unfolding counted_uids
counted_uids-encode uids count e h =
    rw e (ground (arith, length-encode_uid_payload uids, read_uids-encode uids h))

-- A count and the encoded user ids are parsed as these ids, if the count fits a signed word.
pub uid_payload_round_trip :
    (uids : List ℕ)
    → length uids < 2 ^ 31
    → all (λ u. ltb u (2 ^ 32)) uids ≡ true
    → parse_foreground_uid_payload (i32_to_le_bytes (pos (length uids)) ++ encode_uid_payload uids)
      ≡ ok uids
unfolding parse_foreground_uid_payload u32_to_le_bytes
uid_payload_round_trip uids n h =
    let k = length uids in
    counted_uids-encode uids
      (i32_from_le_bytes (k % 256) (k / 256 % 256) (k / 65_536 % 256) (k / 16_777_216 % 256))
      (i32_round_trip (pos k) (ground arith)) h
