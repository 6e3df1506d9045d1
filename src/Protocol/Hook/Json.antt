-- ===== src/Protocol/Hook/Json.antt =====
-- JSON values and their text, as the hook writes them, to say what the reading of its health report
-- in freezeitDaemon/src/protocol/xposed.rs is for. The text is put before what follows the value.
use freezeit_cos.Base.{
  ℕ, suc, ◌+◌, ◌/◌, ◌%◌, max, List, [], ◌∷◌, ◌++◌, Option, none, some, Bool, true, false, not, ltb,
  ◌||◌, leb, ◌==◌, txt, if◌then◌else◌, Text,
}
use freezeit_cos.Protocol.Bytes.{Bytes}
use freezeit_cos.Protocol.Hook.{is_number_byte, max_health_json_nesting}

mutual
  -- A number is a digit and more of them, a string its characters.
  pub data Json : Type 0 where
    null : Json
    boolean : Bool → Json
    number : ℕ → List ℕ → Json
    string : Text → Json
    empty_array empty_object : Json
    array : Elements → Json
    object : Members → Json

  pub data Elements : Type 0 where
    last_element : Json → Elements
    element : Json → Elements → Elements

  pub data Members : Type 0 where
    last_member : Text → Json → Members
    member : Text → Json → Members → Members

abbrev pub digit : ℕ → ℕ
digit n = b'0' + n % 10

unfoldable pub render_digits : List ℕ → Bytes → Bytes
render_digits [] rest = rest
render_digits (n ∷ ns) rest = digit n ∷ render_digits ns rest

abbrev pub hex_digit : ℕ → ℕ
hex_digit n = if ltb n 10 then b'0' + n else 87 + n

-- A character of a string: a quote and a backslash after a backslash, a control character by its
-- code, and any other as it is.
abbrev pub render_character : ℕ → Bytes → Bytes
render_character c rest =
    if c == b'"' || c == 92
    then 92 ∷ c ∷ rest
    else if ltb c 32
    then 92 ∷ b'u' ∷ b'0' ∷ b'0' ∷ hex_digit (c / 16) ∷ hex_digit (c % 16) ∷ rest
    else c ∷ rest

unfoldable pub render_characters : Text → Bytes → Bytes
render_characters [] rest = b'"' ∷ rest
render_characters (c ∷ cs) rest = render_character c (render_characters cs rest)

abbrev pub render_string : Text → Bytes → Bytes
render_string s rest = b'"' ∷ render_characters s rest

unfoldable mutual
  unfolding render_digits

  pub render : Json → Bytes → Bytes
  render null rest = txt "null" ++ rest
  render (boolean true) rest = txt "true" ++ rest
  render (boolean false) rest = txt "false" ++ rest
  render (number n ns) rest = digit n ∷ render_digits ns rest
  render (string s) rest = render_string s rest
  render empty_array rest = b'[' ∷ b']' ∷ rest
  render empty_object rest = b'{' ∷ b'}' ∷ rest
  render (array es) rest = b'[' ∷ render_elements es rest
  render (object ms) rest = b'{' ∷ render_members ms rest

  pub render_elements : Elements → Bytes → Bytes
  render_elements (last_element j) rest = render j (b']' ∷ rest)
  render_elements (element j es) rest = render j (b',' ∷ render_elements es rest)

  pub render_members : Members → Bytes → Bytes
  render_members (last_member key j) rest = render_string key (b':' ∷ render j (b'}' ∷ rest))
  render_members (member key j ms) rest =
      render_string key (b':' ∷ render j (b',' ∷ render_members ms rest))

-- How many arrays and objects are open at once, at most.
unfoldable mutual
  pub nesting : Json → ℕ
  nesting empty_array = 1
  nesting empty_object = 1
  nesting (array es) = suc (nesting_elements es)
  nesting (object ms) = suc (nesting_members ms)
  nesting _ = 0

  pub nesting_elements : Elements → ℕ
  nesting_elements (last_element j) = nesting j
  nesting_elements (element j es) = max (nesting j) (nesting_elements es)

  pub nesting_members : Members → ℕ
  nesting_members (last_member key j) = nesting j
  nesting_members (member key j ms) = max (nesting j) (nesting_members ms)

-- What follows does not go on with a number.
abbrev pub ends_number : Bytes → Bool
ends_number [] = true
ends_number (c ∷ rest) = not (is_number_byte c)

-- What is left after a value that is nested so deep.
abbrev pub within_limit : ℕ → Bytes → Option Bytes
within_limit n rest = if leb n max_health_json_nesting then some rest else none
