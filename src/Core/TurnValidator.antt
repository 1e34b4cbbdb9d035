-- ===== src/Core/TurnValidator.antt =====
-- include/ravbot/core/turn_validator.hpp and src/core/turn_validator.cpp, with the blocks and
-- messages that it works on. The JSON type of a tool's input is a parameter.
pub mod Merging
pub mod Stripping
pub mod Anthropic
pub mod Gap
use rav_bot.Prelude.{
  ℕ, Bool, true, false, ◌&&◌, not, Option, none, some, List, [], ◌∷◌, ◌++◌, any, filter, is_empty,
  if◌then◌else◌,
}
use rav_bot.Prelude.Text.{Str, bytes, str_eq}
use rav_bot.Prelude.Map.{Map, lookup, insert}

pub record ContentBlock (Json : Type 0) : Type 0 where
  pub type : Str
  pub text : Str
  pub id : Str
  pub name : Str
  pub input : Json
  pub tool_use_id : Str
  pub content : Str

pub record Message (Json : Type 0) : Type 0 where
  pub role : Str
  pub content : List (ContentBlock Json)
  pub timestamp : Str

-- `null` is the JSON value of a block that has no input.
module _ {Json : Type 0} (null : Json) where
  -- ContentBlock::MakeText
  unfoldable pub make_text : Str → ContentBlock Json
  make_text text = record {
    type = bytes "text";
    text = text;
    id = [];
    name = [];
    input = null;
    tool_use_id = [];
    content = [];
  }

module _ {Json : Type 0} where
  abbrev pub is_role : Str → Message Json → Bool
  is_role role msg = str_eq msg.role role

  abbrev pub is_tool_use : ContentBlock Json → Bool
  is_tool_use block = str_eq block.type (bytes "tool_use")

  -- Whether a block is a tool result that names a call.
  abbrev pub is_result : ContentBlock Json → Bool
  is_result block = str_eq block.type (bytes "tool_result") && not (is_empty block.tool_use_id)

  -- valid_tool_use_ids.count(id) > 0, for the results of the next message.
  unfoldable pub has_result : Str → List (ContentBlock Json) → Bool
  has_result id results = any (λ block. is_result block && str_eq block.tool_use_id id) results

  abbrev pub keeps : List (ContentBlock Json) → ContentBlock Json → Bool
  keeps results block = if is_tool_use block then has_result block.id results else true

module _ {Json : Type 0} (null : Json) where
  -- The message for an assistant message, given the content of the user message after it.
  unfoldable pub strip_message : Message Json → List (ContentBlock Json) → Message Json
  strip_message msg results =
      let filtered = filter (keeps results) msg.content in
      if any is_tool_use msg.content
      then (if is_empty filtered && not (is_empty msg.content)
          then record {
            role = msg.role;
            content = make_text null (bytes "[tool calls omitted]") ∷ [];
            timestamp = [];
          }
          else record { role = msg.role; content = filtered; timestamp = [] })
      else msg

  -- What becomes of a message, given the messages after it.
  unfoldable pub fix_message : Message Json → List (Message Json) → Message Json
  unfolding strip_message
  fix_message msg [] = msg
  fix_message msg (next ∷ rest) =
      if is_role (bytes "assistant") msg
      then (if is_role (bytes "user") next then strip_message msg next.content else msg)
      else msg

  unfoldable pub strip_dangling_tool_uses : List (Message Json) → List (Message Json)
  unfolding fix_message
  strip_dangling_tool_uses [] = []
  strip_dangling_tool_uses (msg ∷ rest) = fix_message msg rest ∷ strip_dangling_tool_uses rest

module _ {Json : Type 0} where
  -- The last message of the result, taken up with the next one of its role.
  abbrev pub merged : Message Json → Message Json → Message Json
  merged back msg = record back {
    content = back.content ++ msg.content;
    timestamp = if is_empty msg.timestamp then back.timestamp else msg.timestamp;
  }

  -- The loop, with the last message of the result at hand: it leaves the result from there on.
  unfoldable pub merge_onto : Str → Message Json → List (Message Json) → List (Message Json)
  merge_onto role back [] = back ∷ []
  merge_onto role back (msg ∷ rest) = elim (is_empty msg.content) [
    | true ↦ merge_onto role back rest
    | false ↦ elim (is_role role back && is_role role msg) [
      | true ↦ merge_onto role (merged back msg) rest
      | false ↦ back ∷ merge_onto role msg rest
    ]
  ]

  -- The loop while the result is empty.
  unfoldable pub merge_consecutive_role : Str → List (Message Json) → List (Message Json)
  unfolding merge_onto
  merge_consecutive_role role [] = []
  merge_consecutive_role role (msg ∷ rest) = elim (is_empty msg.content) [
    | true ↦ merge_consecutive_role role rest
    | false ↦ merge_onto role msg rest
  ]

  unfoldable pub fix_google_turns : List (Message Json) → List (Message Json)
  fix_google_turns messages = merge_consecutive_role (bytes "assistant") messages

module _ {Json : Type 0} (null : Json) where
  unfoldable pub fix_anthropic_turns : List (Message Json) → List (Message Json)
  fix_anthropic_turns messages =
      merge_consecutive_role (bytes "user") (strip_dangling_tool_uses null messages)

  -- The validators of the constructor.
  abbrev pub built_in : Map (List (Message Json) → List (Message Json))
  built_in =
      (bytes "anthropic", fix_anthropic_turns)
      ∷ (bytes "google", fix_google_turns)
      ∷ (bytes "gemini", fix_google_turns)
      ∷ []

module _ {Json : Type 0} where
  unfoldable pub register_validator :
      Str
      → (List (Message Json) → List (Message Json))
      → Map (List (Message Json) → List (Message Json))
      → Map (List (Message Json) → List (Message Json))
  register_validator provider_id validator validators = insert provider_id validator validators

  unfoldable pub validate_and_fix :
      Map (List (Message Json) → List (Message Json))
      → List (Message Json)
      → Str
      → List (Message Json)
  validate_and_fix validators messages provider_id = elim (lookup provider_id validators) [
    | none ↦ messages
    | some validator ↦ validator messages
  ]
