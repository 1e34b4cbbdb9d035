-- ===== src/Channels/ThreadBinder/Binding.antt =====
-- The session of a thread after it, or another, is bound.
use rav_bot.Prelude.{◌≡◌, ap, ◌∙◌, true, ◌&&◌, ◌∷◌, ◌++◌, append_assoc, some, arith, if◌then◌else◌}
use rav_bot.Prelude.Text.{Str, str_eq, str_eq_iff, str_eq_refl, no_byte, cut_unique}
use rav_bot.Prelude.Map.{Map, lookup-insert, lookup-erase}
use rav_bot.Channels.ThreadBinder.{
  ThreadBinding, make_key, default_key, get_session_key, bind_thread, unbind_thread,
}

str_eq-make_key :
    (c t d u : Str)
    → no_byte b':' c ≡ true
    → no_byte b':' d ≡ true
    → str_eq (make_key c t) (make_key d u) ≡ (str_eq c d && str_eq t u)
str_eq-make_key c t d u h k = ground (
  arith,
  str_eq_iff (make_key c t) (make_key d u),
  str_eq_iff c d,
  str_eq_iff t u,
  cut_unique b':' c d t u h k,
)

get_session_key-bind_thread :
    (c t d u key now : Str) (bindings : Map ThreadBinding)
    → get_session_key d (some u) (bind_thread c t key now bindings)
      ≡ (if str_eq (make_key c t) (make_key d u) then key else get_session_key d (some u) bindings)
unfolding get_session_key bind_thread
get_session_key-bind_thread c t d u key now bindings = ground (
  arith,
  lookup-insert (make_key c t) (make_key d u)
      (record { chat_id = c; thread_id = t; session_key = key; created_at = now }) bindings,
)

get_session_key-unbind_thread :
    (c t d u : Str) (bindings : Map ThreadBinding)
    → get_session_key d (some u) (unbind_thread c t bindings) ≡ (
        if str_eq (make_key c t) (make_key d u)
        then default_key (make_key d u)
        else get_session_key d (some u) bindings)
unfolding get_session_key unbind_thread
get_session_key-unbind_thread c t d u bindings =
    ground (arith, lookup-erase (make_key c t) (make_key d u) bindings)

-- Binding a thread gives it the session, unbinding gives it the default session again, and no
-- other thread's session changes, where the identifiers of the chats have no colon.
get_session_key_changes :
    (c t d u key now : Str) (bindings : Map ThreadBinding)
    → no_byte b':' c ≡ true
    → no_byte b':' d ≡ true
    → (get_session_key d (some u) (bind_thread c t key now bindings)
        ≡ (if str_eq c d && str_eq t u then key else get_session_key d (some u) bindings))
      × (get_session_key d (some u) (unbind_thread c t bindings) ≡ (
          if str_eq c d && str_eq t u
          then default_key (make_key d u)
          else get_session_key d (some u) bindings))
get_session_key_changes c t d u key now bindings h k = (
  get_session_key-bind_thread c t d u key now bindings
      ∙ ap (λ b. if b then key else get_session_key d (some u) bindings)
          (str_eq-make_key c t d u h k),
  get_session_key-unbind_thread c t d u bindings
      ∙ ap (λ b. if b then default_key (make_key d u) else get_session_key d (some u) bindings)
          (str_eq-make_key c t d u h k),
)

-- Where they have a colon, binding one thread changes the session of another.
get_session_key_collides :
    (x y z key now : Str) (bindings : Map ThreadBinding)
    → get_session_key x (some (y ++ b':' ∷ z)) (bind_thread (x ++ b':' ∷ y) z key now bindings)
      ≡ key
get_session_key_collides x y z key now bindings =
    get_session_key-bind_thread (x ++ b':' ∷ y) z x (y ++ b':' ∷ z) key now bindings
    ∙ ap (λ b. if b then key else get_session_key x (some (y ++ b':' ∷ z)) bindings) same
  where
    same : str_eq (make_key (x ++ b':' ∷ y) z) (make_key x (y ++ b':' ∷ z)) ≡ true
    same = rw (append_assoc x (b':' ∷ y) (b':' ∷ z)) (str_eq_refl (make_key x (y ++ b':' ∷ z)))
