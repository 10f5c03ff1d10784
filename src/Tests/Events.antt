-- ===== src/Tests/Events.antt =====
-- Witnesses for the event bus of src/events.c.
use tabla_rusa_os.Base.{
  ℕ, zero, suc, ◌≡◌, refl, ap, get_or-replicate, Text, false, [], ◌∷◌, codes, get_or, str_eq,
}
use tabla_rusa_os.System.{System, system_host}
use tabla_rusa_os.Tests.Boot.{boot}
use tabla_rusa_os.Events.Rules.{Rule, no_rule, boot_rules, events_emit}
use tabla_rusa_os.Events.Dispatch.{actions, log_all, emit-actions}

-- A handler that clears the service table.
abbrev clearing : Text → System → System
clearing source y = record y { services = [] }

pub no_sources : (i : ℕ) → (get_or boot_rules i no_rule).source ≡ false
no_sources zero = refl
no_sources (suc zero) = refl
no_sources (suc (suc zero)) = refl
no_sources (suc (suc (suc zero))) = refl
no_sources (suc (suc (suc (suc zero)))) = refl
no_sources (suc (suc (suc (suc (suc zero))))) = refl
no_sources (suc (suc (suc (suc (suc (suc i)))))) =
    ap (λ (r : Rule). r.source) (get_or-replicate 10 i no_rule)

write_actions : actions (codes "fs.write") boot_rules ≡ codes "log filesystem mutation" ∷ []
unfolding str_eq
write_actions = refl

emit-actions_example :
    events_emit system_host clearing (codes "fs.write") boot
    ≡ system_host.set_bus
        (log_all (actions (codes "fs.write") boot_rules) (system_host.bus boot))
        boot
emit-actions_example =
    emit-actions system_host clearing (codes "fs.write") boot refl (λ i h. no_sources i)
