-- ===== src/Events/Rules.antt =====
-- The rule table of src/events.c and the operations on it. The handler that is set by
-- `events_set_source_handler` is code of another part: it is a parameter, a function of the text and
-- of the state of the whole system.
use tabla_rusa_os.Base.{
  ℕ, zero, suc, ◌+◌, ◌≡◌, Text, Bool, true, false, not, Option, none, some, List, [], ◌∷◌, ◌&&◌,
  if◌then◌else◌, modify, get_or, find_index, str_eq, str_copy, codes, is_empty, Result, ok, err,
}
use tabla_rusa_os.Fs.Node.{Fs}
use tabla_rusa_os.Fs.Ops.{append_line}

-- `struct event_rule`. A rule without a name is a free slot.
pub record Rule : Type 0 where
  pub name : Text
  pub trigger : Text
  pub action : Text
  pub enabled : Bool
  pub source : Bool

-- The rule table and the file system that holds the log.
pub record Bus : Type 0 where
  pub rules : List Rule
  pub fs : Fs

abbrev pub rule_max : ℕ
rule_max = 16

abbrev pub rule_name_len : ℕ
rule_name_len = 32

abbrev pub trigger_len : ℕ
trigger_len = 64

abbrev pub action_len : ℕ
action_len = 256

abbrev pub no_rule : Rule
no_rule = record { name = []; trigger = []; action = []; enabled = false; source = false }

abbrev pub system_log : Text
system_log = codes "/var/log/system.log"

abbrev pub log : Text → Bus → Bus
log line b = record b { fs = (append_line system_log line b.fs).1 }

-- A line of the initial table.
abbrev pub built_in : Text → Text → Text → Rule
built_in name trigger action = record {
  name = name;
  trigger = trigger;
  action = action;
  enabled = true;
  source = false;
}

abbrev pub boot_rules : List Rule
boot_rules =
    built_in (codes "download-log") (codes "file.created:/home/downloads")
      (codes "log system download event")
    ∷ built_in (codes "editor-focus") (codes "process.start:editor") (codes "window editor focus")
    ∷ built_in (codes "net-audit") (codes "net.link:up") (codes "log network link up")
    ∷ built_in (codes "security-audit") (codes "security.mode:change")
        (codes "log security mode change")
    ∷ built_in (codes "service-audit") (codes "service.state:change")
        (codes "log service state change")
    ∷ built_in (codes "fs-audit") (codes "fs.write") (codes "log filesystem mutation")
    ∷ no_rule
    ∷ no_rule
    ∷ no_rule
    ∷ no_rule
    ∷ no_rule
    ∷ no_rule
    ∷ no_rule
    ∷ no_rule
    ∷ no_rule
    ∷ no_rule
    ∷ []

unfoldable pub events_init : Bus → Bus
events_init b = log (codes "events: bus online") b

abbrev pub is_rule : Text → Rule → Bool
is_rule name r = not (is_empty r.name) && str_eq r.name name

abbrev pub registered : Text → Text → Text → Rule
registered name trigger source = record {
  name = str_copy name rule_name_len;
  trigger = str_copy trigger trigger_len;
  action = str_copy source action_len;
  enabled = true;
  source = true;
}

-- The slot of the loop in `events_register_source`: a rule of that name goes before the first free
-- slot.
unfoldable pub rule_slot : Text → List Rule → Option ℕ
rule_slot name rs = elim (find_index (is_rule name) rs) [
  | some i ↦ some i
  | none ↦ find_index (λ (r : Rule). is_empty r.name) rs
]

unfoldable pub events_register_source : Text → Text → Text → Bus → Result (Unit {0}) × Bus
events_register_source name trigger source b = elim (rule_slot name b.rules) [
  | none ↦ (err 1, b)
  | some i ↦ (
    ok tt,
    log (codes "events: registered Rusa source handler")
        (record b { rules = modify (λ (r : Rule). registered name trigger source) i b.rules }),
  )
]

-- The condition of `events_emit`.
abbrev pub fires : Text → Rule → Bool
fires trigger r = not (is_empty r.name) && (r.enabled && str_eq r.trigger trigger)

-- What the bus needs of the state around it: the rule table and the file system are a part of the
-- state of the whole system, all of which a source handler may change.
pub record Host (S : Type 0) : Type 0 where
  pub bus : S → Bus
  pub set_bus : Bus → S → S
  pub bus-set_bus : (b : Bus) (s : S) → bus (set_bus b s) ≡ b
  pub set_bus_twice : (b c : Bus) (s : S) → set_bus b (set_bus c s) ≡ set_bus b s
  pub set_bus_same : (s : S) → set_bus (bus s) s ≡ s

module _ {S : Type 0} (host : Host S) (handler : Text → S → S) where
  -- One round of `events_emit`. The handler is called with the action as it is in the table after
  -- the log was written.
  unfoldable pub emit_rule : Text → ℕ → S → S
  emit_rule trigger i s =
      let r = get_or (host.bus s).rules i no_rule in
      let s' = host.set_bus (log r.action (host.bus s)) s in
      if fires trigger r then if r.source then handler r.action s' else s' else s

  -- The rounds from `i` on. Each reads the table that the rounds before left.
  unfoldable pub emit_loop : ℕ → ℕ → Text → S → S
  emit_loop zero i trigger s = s
  emit_loop (suc n) i trigger s = emit_loop n (i + 1) trigger (emit_rule trigger i s)

  unfoldable pub events_emit : Text → S → S
  unfolding emit_loop
  events_emit trigger s = emit_loop rule_max 0 trigger s

  -- `event emit NAME`. The trigger is the text at the call; the source passes a pointer to it.
  unfoldable pub event_emit : Text → S → S
  unfolding events_emit
  event_emit name s = elim (find_index (λ (r : Rule). str_eq r.name name) (host.bus s).rules) [
    | none ↦ s
    | some i ↦ events_emit (get_or (host.bus s).rules i no_rule).trigger s
  ]

-- `event enable NAME` and `event disable NAME`
unfoldable pub event_enable : Text → Bool → Bus → Bus
event_enable name enabled b = elim (find_index (λ (r : Rule). str_eq r.name name) b.rules) [
  | none ↦ b
  | some i ↦ record b { rules = modify (λ (r : Rule). record r { enabled = enabled }) i b.rules }
]
