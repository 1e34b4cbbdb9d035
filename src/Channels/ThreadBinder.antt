-- ===== src/Channels/ThreadBinder.antt =====
-- include/ravbot/channels/thread_binder.hpp and src/channels/thread_binder.cpp. The file
-- is its content; the time stamp is an argument.
pub mod Binding
pub mod Persistence
mod Tests
use rav_bot.Prelude.{
  Bool, true, false, not, ◌&&◌, List, [], ◌∷◌, ◌++◌, map, Option, none, some, if◌then◌else◌,
  is_empty, filter,
}
use rav_bot.Prelude.Text.{Str, bytes, str_eq}
use rav_bot.Prelude.Map.{Map, lookup, insert, erase}

pub record ThreadBinding : Type 0 where
  pub chat_id : Str
  pub thread_id : Str
  pub session_key : Str
  pub created_at : Str

abbrev pub make_key : Str → Str → Str
make_key chat_id thread_id = chat_id ++ b':' ∷ thread_id

abbrev pub default_key : Str → Str
default_key name = bytes "agent:main:telegram:" ++ name

unfoldable pub get_session_key : Str → Option Str → Map ThreadBinding → Str
get_session_key chat_id none bindings = default_key chat_id
get_session_key chat_id (some thread_id) bindings =
    elim (lookup (make_key chat_id thread_id) bindings) [
      | some binding ↦ binding.session_key
      | none ↦ default_key (make_key chat_id thread_id)
    ]

unfoldable pub bind_thread : Str → Str → Str → Str → Map ThreadBinding → Map ThreadBinding
bind_thread chat_id thread_id session_key now bindings =
    insert (make_key chat_id thread_id)
      (record {
        chat_id = chat_id;
        thread_id = thread_id;
        session_key = session_key;
        created_at = now;
      })
      bindings

unfoldable pub unbind_thread : Str → Str → Map ThreadBinding → Map ThreadBinding
unbind_thread chat_id thread_id bindings = erase (make_key chat_id thread_id) bindings

unfoldable pub list_threads : Str → Map ThreadBinding → List ThreadBinding
list_threads chat_id bindings = filter (λ b. str_eq b.chat_id chat_id) (map (λ e. e.1) bindings)

-- A value of nlohmann::json, as far as Load tells values apart; an object has its members by their
-- names.
pub data Value : Type 0 where
  text : Str → Value
  no_text : Value

pub data Item : Type 0 where
  object : Map Value → Item
  no_object : Item

pub data Document : Type 0 where
  array : List Item → Document
  no_array : Document

-- The object for a binding.
unfoldable pub to_item : ThreadBinding → Item
to_item b = object (
    insert (bytes "createdAt") (text b.created_at) (
      insert (bytes "sessionKey") (text b.session_key) (
        insert (bytes "threadId") (text b.thread_id)
          (insert (bytes "chatId") (text b.chat_id) []))))

-- The array that Save writes.
unfoldable pub to_array : Map ThreadBinding → Document
unfolding to_item
to_array bindings = array (map (λ e. to_item e.1) bindings)

-- item.value(name, ""): `none` is the exception for a member that is no text.
unfoldable pub value : Str → Map Value → Option Str
value name members = elim (lookup name members) [
  | none ↦ some []
  | some (text s) ↦ some s
  | some no_text ↦ none
]

unfoldable pub make_binding :
    Option Str → Option Str → Option Str → Option Str → Option ThreadBinding
make_binding (some c) (some t) (some s) (some now) =
    some (record { chat_id = c; thread_id = t; session_key = s; created_at = now })
make_binding c t s now = none

-- The binding of an item; `none` is an exception, as it is where the item is no object.
unfoldable pub read_item : Item → Option ThreadBinding
unfolding value make_binding
read_item no_object = none
read_item (object members) =
    make_binding (value (bytes "chatId") members) (value (bytes "threadId") members)
      (value (bytes "sessionKey") members) (value (bytes "createdAt") members)

unfoldable pub add_binding : ThreadBinding → Map ThreadBinding → Map ThreadBinding
add_binding b bindings =
    if not (is_empty b.chat_id) && not (is_empty b.thread_id)
    then insert (make_key b.chat_id b.thread_id) b bindings
    else bindings

-- The loop of Load over the array, onto the bindings so far; whether it returns, and the bindings.
unfoldable pub load_onto : List Item → Map ThreadBinding → Bool × Map ThreadBinding
unfolding read_item add_binding
load_onto [] bindings = (true, bindings)
load_onto (i ∷ items) bindings = elim (read_item i) [
  | none ↦ (false, bindings)
  | some b ↦ load_onto items (add_binding b bindings)
]

-- dump(2), which throws (`none`) on a text that is not UTF-8, and `file >> j`, which throws on a
-- text that is no JSON.
module _ (dump : Document → Option Str) (parse : Str → Option Document) where
  -- What Save leaves in the file that it has opened, and whether it returns: an exception of dump
  -- leaves it empty.
  unfoldable pub save : Map ThreadBinding → Bool × Str
  unfolding to_array
  save bindings = elim (dump (to_array bindings)) [ none ↦ (false, []) | some s ↦ (true, s) ]

  -- Load of a file with this content.
  unfoldable pub load : Str → Map ThreadBinding → Bool × Map ThreadBinding
  unfolding load_onto
  load content bindings = elim (parse content) [
    | none ↦ (true, bindings)
    | some (array items) ↦ load_onto items []
    | some no_array ↦ (true, [])
  ]
