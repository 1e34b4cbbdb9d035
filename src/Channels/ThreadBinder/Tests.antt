-- ===== src/Channels/ThreadBinder/Tests.antt =====
-- The theorems about the thread binder at concrete inputs.
use rav_bot.Prelude.{◌≡◌, refl, true, Option, some, []}
use rav_bot.Prelude.Text.{Str, bytes}
use rav_bot.Prelude.Map.{Map}
use rav_bot.Channels.ThreadBinder.{ThreadBinding, Document, bind_thread, to_array, save, load}
use rav_bot.Channels.ThreadBinder.Persistence.{IsValid, load-save_bindings, bind_thread-IsValid}

no_bindings-IsValid : IsValid []
unfolding IsValid
no_bindings-IsValid = (tt, tt)

abbrev bindings : Map ThreadBinding
bindings = bind_thread (bytes "12") (bytes "7") (bytes "agent:main:x") (bytes "now") []

-- A library that knows one document.
abbrev dump : Document → Option Str
dump j = some (bytes "[..]")

abbrev parse : Str → Option Document
parse s = some (to_array bindings)

saved : save dump parse bindings ≡ (true, bytes "[..]")
unfolding save
saved = refl

load-save_bindings_example : load dump parse (bytes "[..]") [] ≡ (true, bindings)
load-save_bindings_example =
    load-save_bindings dump parse bindings [] (bytes "[..]")
      (bind_thread-IsValid (bytes "12") (bytes "7") (bytes "agent:main:x") (bytes "now") [] refl
        refl no_bindings-IsValid)
      (λ s h. refl) saved
