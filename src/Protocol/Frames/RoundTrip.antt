-- ===== src/Protocol/Frames/RoundTrip.antt =====
-- Frames between their encoding and their parsing.
use freezeit_cos.Base.{
  ℕ, ◌%◌, ◌/◌, ℤ, pos, [], ◌∷◌, ◌++◌, true, length, all, ◌≤◌, ◌≡◌, refl, ap, sym, ◌∙◌, arith,
}
use freezeit_cos.Base.Parse.{in_i32}
use freezeit_cos.Domain.Error.{Result, ok, err}
use freezeit_cos.Protocol.Bytes.{
  Bytes, is_byte, u32_to_le_bytes, u32_from_le_bytes, i32_to_le_bytes, word_round_trip,
  bytes_round_trip, i32_round_trip,
}
use freezeit_cos.Protocol.Commands.{
  ManagerCommand, manager_code, manager_command, manager_command-code, manager_code-command,
  XposedCommand, xposed_code, xposed_command-code,
}
use freezeit_cos.Protocol.Frames.{
  ManagerFrame, payload_checksum, manager_frame, parse_manager_payload, parse_manager_frame,
  encode_manager_frame, parse_xposed_payload, parse_xposed_frame, encode_xposed_frame,
  manager_max_payload_len, max_request_payload_len,
}

-- `?` before the parser
abbrev pub then_parse {ℓ} : {A : Type ℓ} → (Bytes → Result A) → Result Bytes → Result A
then_parse parse (ok bytes) = parse bytes
then_parse parse (err e) = err e

parse_manager_payload_lem :
    (c : ManagerCommand) (payload : Bytes) (n : ℕ)
    → n ≡ length payload
    → n ≤ manager_max_payload_len
    → parse_manager_payload n (manager_code c) (payload_checksum payload) payload
      ≡ ok (record { command = c; payload = payload })
unfolding parse_manager_payload
parse_manager_payload_lem c payload n e h = rw (manager_command-code c) (ground arith)

-- Every frame of a payload within the limit is encoded, and parsed back.
pub manager_frame_round_trip :
    (c : ManagerCommand) (payload : Bytes)
    → length payload ≤ manager_max_payload_len
    → then_parse parse_manager_frame (encode_manager_frame c payload)
      ≡ ok (record { command = c; payload = payload })
unfolding encode_manager_frame parse_manager_frame u32_to_le_bytes
manager_frame_round_trip c payload h =
    let n = length payload in
    ground (
      arith,
      word_round_trip n,
      parse_manager_payload_lem c payload
          (u32_from_le_bytes (n % 256) (n / 256 % 256) (n / 65_536 % 256) (n / 16_777_216 % 256)),
    )

manager_frame_parts :
    (payload : Bytes) (r : Result ManagerCommand) (f : ManagerFrame)
    → manager_frame payload r ≡ ok f
    → (f.payload ≡ payload) × (r ≡ ok f.command)
manager_frame_parts payload (ok c) f h = ground arith
manager_frame_parts payload (err e) f h = ground arith

manager_payload_parts :
    (n code sum : ℕ) (payload : Bytes) (f : ManagerFrame)
    → parse_manager_payload n code sum payload ≡ ok f
    → (n ≤ manager_max_payload_len)
      × (length payload ≡ n)
      × (sum ≡ payload_checksum payload)
      × (f.payload ≡ payload)
      × (manager_command code ≡ ok f.command)
unfolding parse_manager_payload
manager_payload_parts n code sum payload f h =
    ground (arith, manager_frame_parts payload (manager_command code) f)

encoded_manager_frame :
    (c : ManagerCommand) (payload : Bytes)
    → length payload ≤ manager_max_payload_len
    → encode_manager_frame c payload
      ≡ ok (
          u32_to_le_bytes (length payload) ++ (manager_code c ∷ payload_checksum payload ∷ payload))
unfolding encode_manager_frame
encoded_manager_frame c payload h = ground arith

-- A frame that is parsed is the encoding of what it is parsed as.
pub parsed_manager_frame :
    (bytes : Bytes) (f : ManagerFrame)
    → all is_byte bytes ≡ true
    → parse_manager_frame bytes ≡ ok f
    → encode_manager_frame f.command f.payload ≡ ok bytes
unfolding parse_manager_frame encode_manager_frame
parsed_manager_frame (a ∷ b ∷ c ∷ d ∷ code ∷ sum ∷ payload) f h e =
    let p = manager_payload_parts (u32_from_le_bytes a b c d) code sum payload f e in
    encoded_manager_frame f.command f.payload (ground (arith, p.0, p.1, ap length p.3))
    ∙ rw
        (
          p.3,
          p.1,
          bytes_round_trip a b c d (ground arith),
          manager_code-command code f.command p.4,
          sym p.2,
        )
        refl
parsed_manager_frame [] f h e = ground arith
parsed_manager_frame (a ∷ []) f h e = ground arith
parsed_manager_frame (a ∷ b ∷ []) f h e = ground arith
parsed_manager_frame (a ∷ b ∷ c ∷ []) f h e = ground arith
parsed_manager_frame (a ∷ b ∷ c ∷ d ∷ []) f h e = ground arith
parsed_manager_frame (a ∷ b ∷ c ∷ d ∷ code ∷ []) f h e = ground arith

parse_xposed_payload_lem :
    (c : XposedCommand) (payload : Bytes) (z n : ℤ)
    → z ≡ xposed_code c
    → n ≡ pos (length payload)
    → length payload ≤ max_request_payload_len
    → parse_xposed_payload z n payload ≡ ok (record { command = c; payload = payload })
unfolding parse_xposed_payload
parse_xposed_payload_lem c payload z n e f h = rw (e, f, xposed_command-code c) (ground arith)

xposed_code_bound : (c : XposedCommand) → in_i32 (xposed_code c) ≡ true
xposed_code_bound XposedCommand.get_foreground = refl
xposed_code_bound XposedCommand.get_screen = refl
xposed_code_bound XposedCommand.get_xp_log = refl
xposed_code_bound XposedCommand.set_config = refl
xposed_code_bound XposedCommand.set_wakeup_lock = refl
xposed_code_bound XposedCommand.break_network = refl
xposed_code_bound XposedCommand.update_pending = refl
xposed_code_bound XposedCommand.get_hook_health = refl
xposed_code_bound XposedCommand.get_runtime_app_states = refl
xposed_code_bound XposedCommand.get_system_freezer_hints = refl

encoded_xposed_frame :
    (c : XposedCommand) (payload : Bytes)
    → length payload ≤ max_request_payload_len
    → encode_xposed_frame c payload
      ≡ ok (i32_to_le_bytes (xposed_code c) ++ (i32_to_le_bytes (pos (length payload)) ++ payload))
unfolding encode_xposed_frame
encoded_xposed_frame c payload h = ground arith

opened_xposed_frame :
    (c : XposedCommand) (payload : Bytes)
    → length payload ≤ max_request_payload_len
    → parse_xposed_frame
        (i32_to_le_bytes (xposed_code c) ++ (i32_to_le_bytes (pos (length payload)) ++ payload))
      ≡ ok (record { command = c; payload = payload })
unfolding parse_xposed_frame u32_to_le_bytes
opened_xposed_frame c payload h =
    rw
      (
        i32_round_trip (xposed_code c) (xposed_code_bound c),
        i32_round_trip (pos (length payload)) (ground arith),
      )
      (parse_xposed_payload_lem c payload (xposed_code c) (pos (length payload)) refl refl h)

-- Every frame for the hook of a payload within the limit is encoded, and parsed back.
pub xposed_frame_round_trip :
    (c : XposedCommand) (payload : Bytes)
    → length payload ≤ max_request_payload_len
    → then_parse parse_xposed_frame (encode_xposed_frame c payload)
      ≡ ok (record { command = c; payload = payload })
xposed_frame_round_trip c payload h =
    ap (then_parse parse_xposed_frame) (encoded_xposed_frame c payload h)
    ∙ opened_xposed_frame c payload h
