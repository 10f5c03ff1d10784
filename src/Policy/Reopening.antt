-- ===== src/Policy/Reopening.antt =====
-- What a source handler of src/events.c can do to the switches of src/privacy.c. The handler that
-- the kernel sets runs the statements of the rule's text (src/lang.c); here it is what the two
-- statements `run privacy on` and `run privacy network on` do.
use tabla_rusa_os.Base.{Text, true}
use tabla_rusa_os.Policy.Table.{Privacy}
use tabla_rusa_os.Policy.Privacy.{privacy_set_master, privacy_set_network}
use tabla_rusa_os.System.{System}

module _ (inner : Text → System → System) where
  -- `privacy on` and `privacy network on`, whose events run the handler `inner`.
  abbrev pub reopen : Text → System → System
  reopen source y = privacy_set_network inner true (privacy_set_master inner true y)
