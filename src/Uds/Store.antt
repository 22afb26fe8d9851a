-- ===== src/Uds/Store.antt =====
-- What holds of a store that is built by setting handlers.
pub mod Sets
use gwf.Common.{
  String, refl, inl, inr, Option, none, some, List, arith, eq_iff, Bool-cases, contains, Distinct,
  Dict, is_some, lookup, insert, lookup-insert, subst, ◌≡◌, ◌↔◌, ◌||◌, ◌==◌, if◌then◌else◌,
  String_eq,
}
use gwf.Uds.{
  CommandHandler, CommandGroup, CommandStore, StoreError, conflict, empty_store, new_group, keep,
  add_new, set_command_handler, set_command_handlers, new_command_store,
}

-- What the group of that name keeps for a command.
abbrev pub in_group : Dict String CommandGroup → String → String → Option CommandHandler
in_group gm name cmd = elim (lookup name gm) [ some grp ↦ lookup cmd grp.handler_map | none ↦ none ]

-- A group shows each of its commands once.
abbrev pub Shows : CommandGroup → Type 0
Shows grp =
    Distinct grp.display_order
    × ((cmd : String) → contains grp.display_order cmd ≡ is_some (lookup cmd grp.handler_map))

-- The groups are shown each once, and a command is in the group that its handler names and in no other.
pub record IsValid (s : CommandStore) : Type 0 where
  pub groups_once : Distinct s.group_display_order
  pub groups_shown :
      (name : String) → contains s.group_display_order name ≡ is_some (lookup name s.group_map)
  pub shown : (name : String) (grp : CommandGroup) → lookup name s.group_map ≡ some grp → Shows grp
  pub placed :
      (cmd : String) (h : CommandHandler)
      → (lookup cmd s.handler_map ≡ some h) ↔ (in_group s.group_map h.group_name cmd ≡ some h)
  pub named :
      (cmd : String) (h : CommandHandler) → lookup cmd s.handler_map ≡ some h → h.command ≡ cmd
  pub grouped :
      (name cmd : String) (h : CommandHandler)
      → in_group s.group_map name cmd ≡ some h
      → h.group_name ≡ name

pub empty_store-IsValid : IsValid empty_store
unfolding lookup
empty_store-IsValid = record {
  groups_once = tt;
  groups_shown = λ name. refl;
  shown = λ name grp h. absurd (ground arith);
  placed = λ cmd h. (λ k. absurd (ground arith), λ k. absurd (ground arith));
  named = λ cmd h k. absurd (ground arith);
  grouped = λ name cmd h k. absurd (ground arith);
}

-- The store with a handler put into the group `grp`, which replaces the one of that name.
abbrev put : CommandHandler → CommandGroup → List String → CommandStore → CommandStore
put h grp shown_order s = record {
  handler_map = insert h.command h s.handler_map;
  group_map = insert h.group_name grp s.group_map;
  group_display_order = shown_order;
}

in_group-insert :
    (gm : Dict String CommandGroup) (a name cmd : String) (grp : CommandGroup)
    → in_group (insert a grp gm) name cmd
      ≡ (if a == name then lookup cmd grp.handler_map else in_group gm name cmd)
in_group-insert gm a name cmd grp = elim (Bool-cases (a == name)) [
  | inl here ↦ rw (in_group, lookup-insert a name grp gm, here) refl
  | inr there ↦ rw (in_group, lookup-insert a name grp gm, there) refl
]

module _ (h : CommandHandler) (grp : CommandGroup) (order : List String) (s : CommandStore)
    (v : IsValid s) (shows : Shows grp)
    (members : (cmd : String)
      → lookup cmd grp.handler_map
        ≡ (if h.command == cmd then some h else in_group s.group_map h.group_name cmd))
    (same : (prev : CommandHandler)
      → lookup h.command s.handler_map ≡ some prev
      → h.group_name ≡ prev.group_name)
    (once : Distinct order)
    (names : (name : String)
      → contains order name ≡ (h.group_name == name || is_some (lookup name s.group_map))) where
  to_group :
      (cmd : String) (j : CommandHandler)
      → lookup cmd (insert h.command h s.handler_map) ≡ some j
      → in_group (insert h.group_name grp s.group_map) j.group_name cmd ≡ some j
  to_group cmd j k = elim (Bool-cases (h.command == cmd)) [
    | inl here ↦
        (let e : h ≡ j = ground (arith, lookup-insert h.command cmd h s.handler_map) in
          subst (λ x. in_group (insert h.group_name grp s.group_map) x.group_name cmd ≡ some x) e
            (ground (
              arith,
              in_group-insert s.group_map h.group_name h.group_name cmd grp,
              members cmd,
              eq_iff h.group_name h.group_name,
            )))
    | inr there ↦
        (let old : lookup cmd s.handler_map ≡ some j =
            ground (arith, lookup-insert h.command cmd h s.handler_map) in
          let kept = (v.placed cmd j).0 old in
          ground (
            arith,
            in_group-insert s.group_map h.group_name j.group_name cmd grp,
            members cmd,
            eq_iff h.group_name j.group_name,
          ))
  ]

  from_group :
      (cmd : String) (j : CommandHandler)
      → in_group (insert h.group_name grp s.group_map) j.group_name cmd ≡ some j
      → lookup cmd (insert h.command h s.handler_map) ≡ some j
  from_group cmd j k = elim (Bool-cases (h.group_name == j.group_name)) [
    | inl here ↦
        (let e : h.group_name ≡ j.group_name = ground (arith, eq_iff h.group_name j.group_name) in
          let back = (v.placed cmd j).1 in
          let m : lookup cmd grp.handler_map ≡ some j =
            ground (arith, in_group-insert s.group_map h.group_name j.group_name cmd grp) in
          ground (arith, members cmd, lookup-insert h.command cmd h s.handler_map))
    | inr there ↦
        (let m : in_group s.group_map j.group_name cmd ≡ some j =
            ground (arith, in_group-insert s.group_map h.group_name j.group_name cmd grp) in
          let old = (v.placed cmd j).1 m in
          ground (
            arith,
            lookup-insert h.command cmd h s.handler_map,
            same j,
            eq_iff h.command cmd,
            eq_iff h.group_name j.group_name,
          ))
  ]

  put-IsValid : IsValid (put h grp order s)
  put-IsValid = record {
    groups_once = once;
    groups_shown =
        λ name. ground (arith, names name, lookup-insert h.group_name name grp s.group_map);
    shown = λ name g k. elim (Bool-cases (h.group_name == name)) [
      | inl here ↦
          (let e : grp ≡ g = ground (arith, lookup-insert h.group_name name grp s.group_map) in
            subst Shows e shows)
      | inr there ↦ v.shown name g (ground (arith, lookup-insert h.group_name name grp s.group_map))
    ];
    placed = λ cmd j. (to_group cmd j, from_group cmd j);
    named = λ cmd j k.
        ground
          (arith, lookup-insert h.command cmd h s.handler_map, v.named cmd j, eq_iff h.command cmd);
    grouped = λ name cmd j k. ground (
      arith,
      in_group-insert s.group_map h.group_name name cmd grp,
      members cmd,
      v.grouped name cmd j,
      eq_iff h.group_name name,
      v.grouped h.group_name cmd j,
    );
  }
