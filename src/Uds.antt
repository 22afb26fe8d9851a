-- ===== src/Uds.antt =====
-- gw/uds/cmdstore.go, cmdgroup.go and what the store reads of a handler (cmdhandler.go): the commands
-- of the operator's socket, in groups. A group is shared by pointer from the group map alone, so a
-- change to it is written back there.
pub mod Store
use gwf.Common.{
  String, not, Option, none, some, List, Result, ok, err, Dict, lookup, insert, ◌∷◌, ◌++◌, ◌==◌, [],
  if◌then◌else◌, ◌>>=◌, String_eq,
}

pub record CommandHandler : Type 0 where
  pub command : String
  pub group_name : String
  pub desc : String

pub record CommandGroup : Type 0 where
  pub name : String
  pub handler_map : Dict String CommandHandler
  pub display_order : List String

pub record CommandStore : Type 0 where
  pub handler_map : Dict String CommandHandler
  pub group_map : Dict String CommandGroup
  pub group_display_order : List String

pub data StoreError : Type 0 where
  conflict : String → String → String → StoreError
  missing_group : String → StoreError

abbrev pub empty_store : CommandStore
empty_store = record { handler_map = []; group_map = []; group_display_order = [] }

abbrev pub new_group : String → CommandGroup
new_group name = record { name = name; handler_map = []; display_order = [] }

-- The handler is put into its group, and the group back into the map.
keep : CommandHandler → CommandGroup → CommandStore → CommandStore
keep h grp s = record s {
  handler_map = insert h.command h s.handler_map;
  group_map =
      insert h.group_name (record grp { handler_map = insert h.command h grp.handler_map })
        s.group_map;
}

-- A command that is new: its group is made if there is none.
add_new : CommandHandler → CommandStore → CommandStore
unfolding keep
add_new h s = elim (lookup h.group_name s.group_map) [
  | some grp ↦ keep h (record grp { display_order = grp.display_order ++ h.command ∷ [] }) s
  | none ↦
      keep h (record (new_group h.group_name) { display_order = h.command ∷ [] })
        (record s { group_display_order = s.group_display_order ++ h.group_name ∷ [] })
]

pub set_command_handler : CommandHandler → CommandStore → Result StoreError CommandStore
unfolding add_new keep
set_command_handler h s = elim (lookup h.command s.handler_map) [
  | some prev ↦
      if not (h.group_name == prev.group_name)
      then err (conflict h.command prev.group_name h.group_name)
      else elim (lookup h.group_name s.group_map) [
        | some grp ↦ ok (keep h grp s)
        | none ↦ err (missing_group h.group_name)
      ]
  | none ↦ ok (add_new h s)
]

pub set_command_handlers : List CommandHandler → CommandStore → Result StoreError CommandStore
set_command_handlers [] s = ok s
set_command_handlers (h ∷ hs) s = set_command_handler h s >>= λ t. set_command_handlers hs t

pub new_command_store : List CommandHandler → Result StoreError CommandStore
new_command_store hs = set_command_handlers hs empty_store

pub get_handler : String → CommandStore → Option CommandHandler
get_handler cmd s = lookup cmd s.handler_map

-- What PrintHelp writes, line by line.
pub data HelpLine : Type 0 where
  blank : HelpLine
  heading : String → HelpLine
  entry : String → String → HelpLine

help_entries : CommandGroup → List String → List HelpLine
help_entries grp [] = []
help_entries grp (cmd ∷ cmds) = elim (lookup cmd grp.handler_map) [
  | some h ↦ entry cmd h.desc ∷ help_entries grp cmds
  | none ↦ help_entries grp cmds
]

help_groups : Dict String CommandGroup → List String → List HelpLine
unfolding help_entries
help_groups gm [] = []
help_groups gm (name ∷ names) = elim (lookup name gm) [
  | some grp ↦ heading name ∷ (help_entries grp grp.display_order ++ (blank ∷ help_groups gm names))
  | none ↦ help_groups gm names
]

pub print_help : CommandStore → List HelpLine
unfolding help_groups
print_help s = blank ∷ (help_groups s.group_map s.group_display_order ++ blank ∷ [])
