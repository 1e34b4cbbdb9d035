-- ===== src/Channels/ThreadBinder/Persistence.antt =====
-- Save and Load.
use rav_bot.Prelude.{
  ◌≡◌, refl, sym, ap, ◌∙◌, subst, false, List, [], ◌∷◌, ◌++◌, append_assoc, append-nil, none, arith,
  true, map, Option, some, is_empty, Bool-cases, inl, inr,
}
use rav_bot.Prelude.Text.{Str, str_eq, str_eq_iff}
use rav_bot.Prelude.Map.{Map, lookup, insert, Distinct, insert-Distinct}
use rav_bot.Channels.ThreadBinder.{
  ThreadBinding, Item, Document, make_key, bind_thread, to_item, to_array, value, make_binding,
  read_item, add_binding, save, load, load_onto,
}

-- Every binding has its own key, and its identifiers are not empty.
unfoldable pub Keyed : Map ThreadBinding → Type 0
Keyed [] = Unit
Keyed ((k, b) ∷ m) =
    (k ≡ make_key b.chat_id b.thread_id)
    × (is_empty b.chat_id ≡ false)
    × (is_empty b.thread_id ≡ false)
    × Keyed m

unfoldable pub IsValid : Map ThreadBinding → Type 0
unfolding Keyed
IsValid m = Keyed m × Distinct m

insert_absent :
    (k : Str) (b : ThreadBinding) (m : Map ThreadBinding)
    → lookup k m ≡ none
    → insert k b m ≡ m ++ (k, b) ∷ []
unfolding lookup insert
insert_absent k b [] h = refl
insert_absent k b ((j, c) ∷ m) h = ground (arith, insert_absent k b m, str_eq_iff j k)

lookup_middle :
    (j k : Str) (b : ThreadBinding) (m rest : Map ThreadBinding)
    → lookup j (m ++ (k, b) ∷ rest) ≡ none
    → str_eq k j ≡ false
unfolding lookup
lookup_middle j k b [] rest h = ground arith
lookup_middle j k b ((i, c) ∷ m) rest h = ground (arith, lookup_middle j k b m rest)

lookup_before :
    (k : Str) (b : ThreadBinding) (m rest : Map ThreadBinding)
    → Distinct (m ++ (k, b) ∷ rest)
    → lookup k m ≡ none
unfolding lookup
lookup_before k b [] rest d = refl
lookup_before k b ((j, c) ∷ m) rest d = ground (
  arith,
  lookup_middle j k b m rest d.0,
  lookup_before k b m rest d.1,
  str_eq_iff j k,
  str_eq_iff k j,
)

read_item-to_item : (b : ThreadBinding) → read_item (to_item b) ≡ some b
unfolding read_item to_item value make_binding lookup insert str_eq
read_item-to_item b = refl

load_onto-item :
    (i : Item) (b : ThreadBinding) (items : List Item) (m : Map ThreadBinding)
    → read_item i ≡ some b
    → load_onto (i ∷ items) m ≡ load_onto items (add_binding b m)
unfolding load_onto
load_onto-item i b items m h = rw (load_onto, h) refl

add_binding_valid :
    (b : ThreadBinding) (m : Map ThreadBinding)
    → is_empty b.chat_id ≡ false
    → is_empty b.thread_id ≡ false
    → add_binding b m ≡ insert (make_key b.chat_id b.thread_id) b m
unfolding add_binding
add_binding_valid b m h k = rw (add_binding, h, k) refl

load_onto_valid :
    (b : ThreadBinding) (items : List Item) (m : Map ThreadBinding)
    → is_empty b.chat_id ≡ false
    → is_empty b.thread_id ≡ false
    → load_onto (to_item b ∷ items) m
      ≡ load_onto items (insert (make_key b.chat_id b.thread_id) b m)
load_onto_valid b items m h k =
    load_onto-item (to_item b) b items m (read_item-to_item b)
    ∙ ap (load_onto items) (add_binding_valid b m h k)

load_onto-items :
    (m done : Map ThreadBinding)
    → Keyed m
    → Distinct (done ++ m)
    → load_onto (map (λ e. to_item e.1) m) done ≡ (true, done ++ m)
unfolding Keyed
load_onto-items [] done v d = unfold load_onto in ap (λ x. (true, x)) (sym (append-nil done))
load_onto-items ((k, b) ∷ m) done (key, chat, thread, v) d =
    load_onto_valid b (map (λ e. to_item e.1) m) done chat thread
    ∙ ap (load_onto (map (λ e. to_item e.1) m))
        (ap (λ j. insert j b done) (sym key) ∙ insert_absent k b done (lookup_before k b done m d))
    ∙ load_onto-items m (done ++ (k, b) ∷ []) v
        (subst Distinct (sym (append_assoc done ((k, b) ∷ []) m)) d)
    ∙ ap (λ x. (true, x)) (append_assoc done ((k, b) ∷ []) m)

module _ (dump : Document → Option Str) (parse : Str → Option Document) where
  save_text :
      (bindings : Map ThreadBinding) (content : Str)
      → save dump parse bindings ≡ (true, content)
      → dump (to_array bindings) ≡ some content
  unfolding save
  save_text bindings content h = ground arith

  -- Where Save returns, with this content in the file, and the JSON library reads the document that
  -- it has written there, Load of the file gives the bindings again, whatever was bound before: for
  -- bindings that stand under their own keys, as BindThread puts them, with no identifier of a chat
  -- or a thread empty.
  pub load-save_bindings :
      (bindings old : Map ThreadBinding) (content : Str)
      → IsValid bindings
      → ((s : Str) → dump (to_array bindings) ≡ some s → parse s ≡ some (to_array bindings))
      → save dump parse bindings ≡ (true, content)
      → load dump parse content old ≡ (true, bindings)
  unfolding load IsValid to_array
  load-save_bindings bindings old content (v, d) reads h =
      rw (load, reads content (save_text bindings content h)) (load_onto-items bindings [] v d)

Keyed-insert :
    (b : ThreadBinding) (m : Map ThreadBinding)
    → is_empty b.chat_id ≡ false
    → is_empty b.thread_id ≡ false
    → Keyed m
    → Keyed (insert (make_key b.chat_id b.thread_id) b m)
unfolding Keyed insert
Keyed-insert b [] h k v = (refl, h, k, tt)
Keyed-insert b ((j, x) ∷ m) h k (key, chat, thread, v) =
    elim (Bool-cases (str_eq j (make_key b.chat_id b.thread_id))) [
      | inl e ↦ rw e ((str_eq_iff j (make_key b.chat_id b.thread_id)).0 e, h, k, v)
      | inr e ↦ rw e (key, chat, thread, Keyed-insert b m h k v)
    ]

-- BindThread with identifiers that are not empty keeps the bindings so.
pub bind_thread-IsValid :
    (c t key now : Str) (bindings : Map ThreadBinding)
    → is_empty c ≡ false
    → is_empty t ≡ false
    → IsValid bindings
    → IsValid (bind_thread c t key now bindings)
unfolding IsValid bind_thread
bind_thread-IsValid c t key now bindings h k (v, d) =
    let binding : ThreadBinding = record {
      chat_id = c;
      thread_id = t;
      session_key = key;
      created_at = now;
    } in
    (Keyed-insert binding bindings h k v, insert-Distinct (make_key c t) binding bindings d)
