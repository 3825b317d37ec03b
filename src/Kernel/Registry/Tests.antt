-- ===== src/Kernel/Registry/Tests.antt =====
-- The theorems on registries at a concrete one.
use aiya_cms.Prelude.{
  String, ℕ, ◌≡◌, refl, true, false, some, List, [], ◌∷◌, ◌++◌, str_eq, not, ltb,
}
use aiya_cms.Kernel.Registry.{
  Rules, Registry, find, set_spec, lookup, register, freeze, RegistryCall, register_call,
  freeze_call, answer, run_calls,
}
use aiya_cms.Kernel.Registry.Handlers.{
  EventHandler, HandlerRegistry, HandlerCall, handler_call, register_handler, handlers_for,
  run_handler_calls, DistinctHandlers, run_handler_calls-DistinctHandlers,
}
use aiya_cms.Kernel.Registry.Catalog.{
  view, shown_all, changes, run_calls-view, frozen_for_good, registered_for_good,
}

-- Keys are not empty, declarations are positive.
abbrev rules : Rules ℕ
rules = record { is_key = λ key. not (str_eq key ""); accepts = λ v. ltb 0 v }

abbrev unfilled : Registry ℕ
unfilled = record { specs = []; frozen = false }

abbrev boot : List (RegistryCall ℕ)
boot =
    register_call "mail.send" 3
    ∷ register_call "mail.send" 4
    ∷ register_call "" 5
    ∷ register_call "mail.retry" 0
    ∷ register_call "mail.drop" 6
    ∷ []

abbrev late : List (RegistryCall ℕ)
late = register_call "late.one" 9 ∷ freeze_call ∷ []

boot_answers : run_calls rules boot unfilled ≡ (
  true ∷ false ∷ false ∷ false ∷ true ∷ [],
  record { specs = ("mail.send", 3) ∷ ("mail.drop", 6) ∷ []; frozen = false },
)
unfolding run_calls register freeze find set_spec
boot_answers = refl

run_calls-view_example :
    shown_all (run_calls rules (boot ++ freeze_call ∷ late) unfilled)
    ≡ changes rules (boot ++ freeze_call ∷ late) (view unfilled)
run_calls-view_example = run_calls-view rules (boot ++ freeze_call ∷ late) unfilled

frozen_for_good_example :
    (run_calls rules (boot ++ freeze_call ∷ late) unfilled).1.specs
    ≡ (run_calls rules boot unfilled).1.specs
frozen_for_good_example = frozen_for_good rules boot late unfilled

abbrev mailing : Registry ℕ
mailing = record { specs = ("mail.send", 8) ∷ []; frozen = false }

registered_for_good_example :
    (lookup "mail.send" (run_calls rules boot mailing).1 ≡ some 8)
    × ((answer rules
          (run_calls rules boot mailing).1
          (register rules "mail.send" 9 (run_calls rules boot mailing).1)).0
        ≡ false)
unfolding find
registered_for_good_example = registered_for_good rules boot mailing "mail.send" 8 9 refl

abbrev mailer : String → EventHandler ℕ
mailer key = record { key = key; run = 1 }

abbrev no_handlers : HandlerRegistry ℕ
no_handlers = record { handlers = λ event. []; frozen = false }

abbrev wiring : List (HandlerCall ℕ)
wiring =
    handler_call "points.credited.v1" (mailer "mail")
    ∷ handler_call "points.credited.v1" (mailer "mail")
    ∷ handler_call "points.credited.v1" (mailer "audit")
    ∷ []

keeps_order :
    handlers_for "points.credited.v1" (run_handler_calls (λ key. true) wiring no_handlers)
    ≡ mailer "mail" ∷ mailer "audit" ∷ []
unfolding run_handler_calls register_handler
keeps_order = refl

run_handler_calls-DistinctHandlers_example :
    DistinctHandlers
      (handlers_for "points.credited.v1" (run_handler_calls (λ key. true) wiring no_handlers))
run_handler_calls-DistinctHandlers_example =
    run_handler_calls-DistinctHandlers (λ key. true) wiring no_handlers "points.credited.v1"
      (λ e. refl)
