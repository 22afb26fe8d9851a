-- ===== src/Uds/Store/Sets.antt =====
-- Setting a handler keeps a store valid.
use gwf.Common.{
  String, refl, sym, ap, inl, inr, true, false, none, some, List, arith, eq_iff, Bool-cases,
  Option-cases, Result, ok, err, contains, contains-append, Distinct-append_one, is_some, lookup,
  insert, lookup-insert, >>=-eq-ok, subst, ◌≡◌, ◌∙◌, ◌||◌, ◌∷◌, ◌++◌, ◌==◌, [], if◌then◌else◌,
  String_eq,
}
use gwf.Uds.{
  CommandHandler, CommandGroup, CommandStore, StoreError, conflict, empty_store, new_group, keep,
  add_new, set_command_handler, set_command_handlers, new_command_store,
}
use gwf.Uds.Store.{in_group, Shows, IsValid, empty_store-IsValid, put-IsValid}

abbrev extended : CommandHandler → CommandGroup → List String → CommandGroup
extended h grp order = record grp {
  handler_map = insert h.command h grp.handler_map;
  display_order = order;
}

members_of :
    (h : CommandHandler) (grp : CommandGroup) (order : List String) (s : CommandStore)
    → lookup h.group_name s.group_map ≡ some grp
    → (cmd : String)
    → lookup cmd (extended h grp order).handler_map
      ≡ (if h.command == cmd then some h else in_group s.group_map h.group_name cmd)
members_of h grp order s found cmd =
    rw (in_group, found) (lookup-insert h.command cmd h grp.handler_map)

named_group :
    (s : CommandStore) (g name : String) (grp : CommandGroup)
    → IsValid s
    → lookup g s.group_map ≡ some grp
    → contains s.group_display_order name ≡ (g == name || is_some (lookup name s.group_map))
named_group s g name grp v found = ground (arith, v.groups_shown name, eq_iff g name)

module _ (h : CommandHandler) (s : CommandStore) (v : IsValid s) where
  reset-IsValid :
      (prev : CommandHandler) (grp : CommandGroup)
      → lookup h.command s.handler_map ≡ some prev
      → h.group_name ≡ prev.group_name
      → lookup h.group_name s.group_map ≡ some grp
      → IsValid (keep h grp s)
  unfolding keep
  reset-IsValid prev grp old e found =
      put-IsValid h (extended h grp grp.display_order) s.group_display_order s v
        (
          sh.0,
          λ cmd. ground (
            arith,
            held,
            sh.1 cmd,
            lookup-insert h.command cmd h grp.handler_map,
            eq_iff h.command cmd,
          ),
        )
        (members_of h grp grp.display_order s found)
        (λ p k. (let q : prev ≡ p = ground arith in ground arith)) v.groups_once
        (λ name. named_group s h.group_name name grp v found)
    where
      sh : Shows grp
      sh = v.shown h.group_name grp found

      held : lookup h.command grp.handler_map ≡ some prev
      held =
          let placed = (v.placed h.command prev).0 old in
          let there : in_group s.group_map h.group_name h.command ≡ some prev = rw e placed in
          subst
            (λ o. (elim o [ some g ↦ lookup h.command g.handler_map | none ↦ none ]) ≡ some prev)
            found there

  -- A new command is in no group.
  unplaced :
      (grp : CommandGroup)
      → lookup h.command s.handler_map ≡ none
      → lookup h.group_name s.group_map ≡ some grp
      → lookup h.command grp.handler_map ≡ none
  unplaced grp fresh found = elim (Option-cases (lookup h.command grp.handler_map)) [
    | inl absent ↦ absent
    | inr j ↦
        (let there : in_group s.group_map h.group_name h.command ≡ some j.0 =
            rw (in_group, found) j.1 in
          let e = v.grouped h.group_name h.command j.0 there in
          let back =
            (v.placed h.command j.0).1
              (subst (λ n. in_group s.group_map n h.command ≡ some j.0) (sym e) there) in
          absurd (ground arith))
  ]

  into_group :
      (grp : CommandGroup)
      → lookup h.command s.handler_map ≡ none
      → lookup h.group_name s.group_map ≡ some grp
      → IsValid (keep h (record grp { display_order = grp.display_order ++ h.command ∷ [] }) s)
  unfolding keep
  into_group grp fresh found =
      let sh = v.shown h.group_name grp found in
      let absent = unplaced grp fresh found in
      put-IsValid h (extended h grp (grp.display_order ++ h.command ∷ [])) s.group_display_order s v
        (
          Distinct-append_one grp.display_order h.command sh.0 (sh.1 h.command ∙ ap is_some absent),
          λ cmd. ground (
            arith,
            sh.1 cmd,
            lookup-insert h.command cmd h grp.handler_map,
            contains-append grp.display_order (h.command ∷ []) cmd,
          ),
        )
        (members_of h grp (grp.display_order ++ h.command ∷ []) s found)
        (λ p k. absurd (ground arith)) v.groups_once
        (λ name. named_group s h.group_name name grp v found)

  into_new_group :
      lookup h.command s.handler_map ≡ none
      → lookup h.group_name s.group_map ≡ none
      → IsValid (
          keep h
            (record (new_group h.group_name) { display_order = h.command ∷ [] })
            (record s { group_display_order = s.group_display_order ++ h.group_name ∷ [] }))
  unfolding keep lookup insert
  into_new_group fresh absent =
      put-IsValid h (extended h (new_group h.group_name) (h.command ∷ []))
        (s.group_display_order ++ h.group_name ∷ []) s v ((refl, tt), λ cmd. ground arith)
        (λ cmd. rw (in_group, absent) refl) (λ p k. absurd (ground arith))
        (Distinct-append_one s.group_display_order h.group_name v.groups_once
          (v.groups_shown h.group_name ∙ ap is_some absent))
        (λ name. ground (
          arith,
          v.groups_shown name,
          contains-append s.group_display_order (h.group_name ∷ []) name,
        ))

  new-IsValid : lookup h.command s.handler_map ≡ none → IsValid (add_new h s)
  unfolding add_new
  new-IsValid fresh = elim (Option-cases (lookup h.group_name s.group_map)) [
    | inl absent ↦ rw (add_new, absent) (into_new_group fresh absent)
    | inr found ↦ rw (add_new, found.1) (into_group found.0 fresh found.1)
  ]

  set_again :
      (prev : CommandHandler)
      → lookup h.command s.handler_map ≡ some prev
      → (h.group_name == prev.group_name) ≡ true
      → (grp : CommandGroup) × (lookup h.group_name s.group_map ≡ some grp)
  set_again prev old eq = elim (Option-cases (lookup h.group_name s.group_map)) [
    | inr found ↦ found
    | inl absent ↦
        (let placed = (v.placed h.command prev).0 old in
          let e : prev.group_name ≡ h.group_name =
            ground (arith, eq_iff h.group_name prev.group_name) in
          let there = subst (λ n. in_group s.group_map n h.command ≡ some prev) e placed in
          let nothing : in_group s.group_map h.group_name h.command ≡ none =
            rw (in_group, absent) refl in
          absurd (ground arith))
  ]

  -- What a set comes to: a store that is valid, or the refusal of a command of another group.
  abbrev pub Sets : Result StoreError CommandStore → Type 0
  Sets (ok t) = IsValid t
  Sets (err e) =
      (prev : CommandHandler) × (lookup h.command s.handler_map ≡ some prev)
      × ((h.group_name == prev.group_name) ≡ false)
      × (e ≡ conflict h.command prev.group_name h.group_name)

  -- Setting a handler keeps a valid store valid, and is refused only for a command that another
  -- group has: the error of a missing group never comes up.
  pub set_command_handler-Sets : Sets (set_command_handler h s)
  unfolding set_command_handler
  set_command_handler-Sets = elim (Option-cases (lookup h.command s.handler_map)) [
    | inl fresh ↦ rw (set_command_handler, fresh) (new-IsValid fresh)
    | inr old ↦ elim (Bool-cases (h.group_name == old.0.group_name)) [
      | inl eq ↦
          (let found = set_again old.0 old.1 eq in
            rw (set_command_handler, old.1, eq, found.1)
              (reset-IsValid old.0 found.0 old.1
                (ground (arith, eq_iff h.group_name old.0.group_name)) found.1))
      | inr other ↦ rw (set_command_handler, old.1, other) (old.0, old.1, other, refl)
    ]
  ]

set_command_handlers-IsValid :
    (hs : List CommandHandler) (s t : CommandStore)
    → IsValid s
    → set_command_handlers hs s ≡ ok t
    → IsValid t
unfolding set_command_handlers
set_command_handlers-IsValid [] s t v h = (let e : s ≡ t = ground arith in subst IsValid e v)
set_command_handlers-IsValid (x ∷ hs) s t v h =
    let first = >>=-eq-ok (set_command_handler x s) _ h in
    set_command_handlers-IsValid hs first.0 t
      (subst (Sets x s v) first.1 (set_command_handler-Sets x s v)) first.2

-- A store that is built from a list of handlers is valid.
pub new_command_store-IsValid :
    (hs : List CommandHandler) (t : CommandStore) → new_command_store hs ≡ ok t → IsValid t
unfolding new_command_store
new_command_store-IsValid hs t h =
    set_command_handlers-IsValid hs empty_store t empty_store-IsValid h
