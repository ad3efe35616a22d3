-- ===== src/Launch/Service/Last.antt =====
-- The last row of a registry that had neither its key nor its id.
use fork_agent.Prelude.{
  ℕ, String, Bool, true, false, none, some, List, [], ◌∷◌, ◌++◌, ◌≡◌, refl, sym, subst, arith, ok,
  ◌>>=◌, find_key, find_key-append, latest, select, select-append, any, str_eq_self, update_where,
}
use fork_agent.Launch.Entity.{
  LaunchStatus, reserved, quarantined, AgentLaunch, QuarantineReason, construct, post_init_passes,
  is_in, is_terminal, can_transition_to, status_eq,
}
use fork_agent.Launch.Registry.{
  Table, launch_key, row_to_launch, blocks_key, get_by_launch_id, find_active_by_canonical_key,
  cas_update_status, breaks_index, is_indexed, is_target, apply_cas, sqlite, CasFields, no_fields,
}
use fork_agent.Launch.Registry.Unique.{has_id}
use fork_agent.Launch.Service.{quarantine, unless_terminal, move_from}
use fork_agent.Launch.Service.Answers.{find_absent}

pub select-none :
    {A : Type 0} (p : A → Bool) (rows : List A) → any p rows ≡ false → select p rows ≡ []
select-none p [] h = refl
select-none p (r ∷ rows) h = ground (arith, select-none p rows)

pub any-append :
    {A : Type 0} (p : A → Bool) (rows : List A) (r : A)
    → any p rows ≡ false
    → any p (rows ++ r ∷ []) ≡ p r
any-append p [] r h = ground arith
any-append p (s ∷ rows) r h = ground (arith, any-append p rows r)

update_where-append :
    (t : AgentLaunch → Bool) (f : AgentLaunch → AgentLaunch) (rows : Table) (r : AgentLaunch)
    → any t rows ≡ false
    → t r ≡ true
    → update_where t f (rows ++ r ∷ []) ≡ rows ++ f r ∷ []
unfolding update_where
update_where-append t f [] r h k = ground arith
update_where-append t f (s ∷ rows) r h k = ground (arith, update_where-append t f rows r)

pub find_active_none :
    (key : String) (rows : Table)
    → any (blocks_key key) rows ≡ false
    → find_active_by_canonical_key key rows ≡ (ok none, rows)
unfolding find_active_by_canonical_key row_to_launch latest
find_active_none key rows h = rw (select-none (blocks_key key) rows h) refl

untargeted :
    (id : String) (s : LaunchStatus) (rows : Table)
    → any (has_id id) rows ≡ false
    → any (is_target id s) rows ≡ false
unfolding is_target
untargeted id s [] h = refl
untargeted id s (r ∷ rows) h = ground (arith, untargeted id s rows)

-- A launch at the end of a table that had neither its key nor its id.
module _ (l : AgentLaunch) (rows : Table) (free : any (blocks_key l.canonical_key) rows ≡ false)
    (new : any (has_id l.launch_id) rows ≡ false) (valid : post_init_passes l ≡ true)
    (held : l.status ≡ reserved) where
  read_back : row_to_launch (some l) ≡ ok (some l)
  unfolding row_to_launch construct
  read_back = ground (arith, valid)

  blocking : blocks_key l.canonical_key l ≡ true
  unfolding blocks_key is_in status_eq
  blocking = rw (str_eq_self l.canonical_key) (rw held refl)

  pub find_active_last :
      find_active_by_canonical_key l.canonical_key (rows ++ l ∷ []) ≡ (ok (some l), rows ++ l ∷ [])
  unfolding find_active_by_canonical_key latest
  find_active_last =
      rw (select-append (blocks_key l.canonical_key) rows (l ∷ []))
        (rw (select-none (blocks_key l.canonical_key) rows free) (rw blocking (rw read_back refl)))

  get_last : get_by_launch_id l.launch_id (rows ++ l ∷ []) ≡ (ok (some l), rows ++ l ∷ [])
  unfolding get_by_launch_id
  get_last = rw find_last (rw read_back refl)
    where
      find_last : find_key launch_key l.launch_id (rows ++ l ∷ []) ≡ some l
      find_last = ground (
        arith,
        find_key-append launch_key l.launch_id rows l,
        find_absent _ rows new,
        str_eq_self l.launch_id,
      )

  targeted : is_target l.launch_id reserved l ≡ true
  unfolding is_target status_eq
  targeted = rw (str_eq_self l.launch_id) (rw held refl)

  cas_last :
      (fields : CasFields) (now : ℕ)
      → cas_update_status l.launch_id reserved quarantined fields now (rows ++ l ∷ [])
        ≡ (ok true, rows ++ apply_cas quarantined fields now l ∷ [])
  unfolding cas_update_status breaks_index is_indexed is_in status_eq
  cas_last fields now =
      rw
        (any-append (is_target l.launch_id reserved) rows l
          (untargeted l.launch_id reserved rows new))
        (rw
          (update_where-append (is_target l.launch_id reserved) (apply_cas quarantined fields now)
            rows l (untargeted l.launch_id reserved rows new) targeted)
          (rw targeted refl))

  live : is_terminal l ≡ false
  unfolding is_terminal is_in status_eq
  live = rw held refl

  movable : can_transition_to l quarantined ≡ true
  unfolding can_transition_to is_in status_eq
  movable = rw held refl

  pub quarantine_last :
      (reason : QuarantineReason) (now : ℕ)
      → quarantine sqlite l.launch_id reason now (rows ++ l ∷ [])
        ≡ (ok true, rows ++ record l { status = quarantined; quarantine_reason = some reason } ∷ [])
  unfolding quarantine unless_terminal move_from apply_cas is_in status_eq ◌>>=◌
  quarantine_last reason now =
      let fields = record no_fields { quarantine_reason = some reason } in
      rw get_last (
        rw (live, movable)
          (subst
            (λ s. cas_update_status l.launch_id s quarantined fields now (rows ++ l ∷ []) ≡ (
              ok true,
              rows ++ record l { status = quarantined; quarantine_reason = some reason } ∷ [],
            ))
            (sym held) (cas_last fields now)))
