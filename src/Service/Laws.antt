-- ===== src/Service/Laws.antt =====
-- What the commands of server/main.c let a client do to users and events.
use event_ticketing_platform.Base.{
  ℕ, ◌+◌, ◌%◌, ◌<◌, ◌≡◌, ◌≢◌, refl, ap, ◌∙◌, Bool, false, Bool-cases, inl, inr, ◌⊎◌, Option, none,
  some, List, [], ◌∷◌, arith, ltb, ◌==◌, if◌then◌else◌, length,
}
use event_ticketing_platform.Types.{u32_mod}
use event_ticketing_platform.Records.{UserRecord, EventRecord, Images, user_layout, event_layout}
use event_ticketing_platform.Storage.Table.{Table}
use event_ticketing_platform.Storage.Table.Laws.{view, IsTable}
use event_ticketing_platform.Storage.Wal.{Env}
use event_ticketing_platform.Server.Stores.{find-cases, insert-cases, delete-cases}
use event_ticketing_platform.Auth.Rbac.{role_admin}
use event_ticketing_platform.Auth.Sessions.{Session}
use event_ticketing_platform.Protocol.Parser.{ParsedCommand}
use event_ticketing_platform.Events.{event_mgr_get_event, event_mgr_delete_event}
use event_ticketing_platform.Service.Accounts.{
  valid_account, new_user, find_user, add_user, auth_register,
}
use event_ticketing_platform.Service.{
  World, Calls, role_customer, role_organizer, asked_role, arg, replied, register_as,
  register_command, delete_found, delete_event_command,
}

module _ {Price : Type 0} (images : Images Price) (calls : Calls Price) where
  -- Under the id stands what stood there, or a user with the role.
  abbrev pub KeepsOrAdds : ℕ → Table UserRecord → Table UserRecord → ℕ → Type 0
  KeepsOrAdds role t t' j =
      (view (user_layout images) t' j ≡ view (user_layout images) t j)
      ⊎ ((r : UserRecord) × (view (user_layout images) t' j ≡ some r) × (r.role ≡ role))

  abbrev OnlyAdds : ℕ → Table UserRecord → Table UserRecord → Type 0
  OnlyAdds role t t' = (j : ℕ) → j < u32_mod → KeepsOrAdds role t t' j

  add_user-OnlyAdds :
      (w : World Price) (env : Env) (r : UserRecord) (found : List UserRecord)
      → r.is_deleted ≡ false
      → IsTable (user_layout images) w.server.users_table
      → w.server.users_table.next_id + 1 < u32_mod
      → OnlyAdds r.role w.server.users_table
          (replied w (add_user images r found (record w.server { env = env }))).1.server.users_table
  unfolding add_user
  add_user-OnlyAdds w env r (q ∷ more) live v room = λ j k. inl refl
  add_user-OnlyAdds w env r [] live v room =
      insert-cases (user_layout images) (λ t env'. record w.server { users_table = t; env = env' })
        w.server.users_table env r
        (λ o. OnlyAdds r.role w.server.users_table (replied w o).1.server.users_table) v room
        (λ t env' (_, m, law) j k. elim (Bool-cases (j == w.server.users_table.next_id)) [
          | inl h ↦ inr (
            record r { user_id = w.server.users_table.next_id },
            law j k
                ∙ rw h (
                    ap
                      (λ (d : Bool).
                        if d
                        then none
                        else some (record r { user_id = w.server.users_table.next_id }))
                      live),
            refl,
          )
          | inr h ↦ inl (law j k ∙ rw h refl)
        ])
        (λ e t env' (_, m, law) j k. inl (law j k))

  register-OnlyAdds :
      (w : World Price) (username password : List ℕ) (role : ℕ)
      → IsTable (user_layout images) w.server.users_table
      → w.server.users_table.next_id + 1 < u32_mod
      → OnlyAdds
          (role % 256)
          w.server.users_table
          (replied w
            (auth_register images username password role calls.now w.server)).1.server.users_table
  unfolding auth_register find_user
  register-OnlyAdds w username password role v room =
      elim (Bool-cases (valid_account username password)) [
        | inr h ↦ rw h (λ j k. inl refl)
        | inl h ↦
            rw h (add_user-OnlyAdds w _ (new_user username password role calls.now) _ refl v room)
      ]

  asked_role-known :
      (cmd : ParsedCommand) (role : ℕ)
      → asked_role cmd ≡ some role
      → (role ≡ role_customer) ⊎ (role ≡ role_organizer)
  unfolding asked_role
  asked_role-known cmd role e = ground (arith, e)

  register_command-OnlyAdds :
      (session : Session) (cmd : ParsedCommand) (w : World Price)
      → session.role ≢ role_admin
      → IsTable (user_layout images) w.server.users_table
      → w.server.users_table.next_id + 1 < u32_mod
      → OnlyAdds role_customer w.server.users_table
          (register_command images calls session cmd w).1.server.users_table
  unfolding register_command
  register_command-OnlyAdds session cmd w other v room =
      elim (Bool-cases (ltb (length cmd.args) 2)) [
        | inl h ↦ rw h (λ j k. inl refl)
        | inr h ↦ rw h (by_role (asked_role cmd) (asked_role-known cmd))
      ]
    where
      no_admin : (session.role == role_admin) ≡ false
      no_admin = ground (arith, other)

      by_role :
          (o : Option ℕ)
          → ((role : ℕ) → o ≡ some role → (role ≡ role_customer) ⊎ (role ≡ role_organizer))
          → OnlyAdds role_customer w.server.users_table
              (register_as images calls session cmd o w).1.server.users_table
      by_role none f = λ j k. inl refl
      by_role (some role) f = elim (f role refl) [
        | inl e ↦ rw e (register-OnlyAdds w (arg cmd 0) (arg cmd 1) role_customer v room)
        | inr e ↦ rw e (rw no_admin (λ j k. inl refl))
      ]

  -- REGISTER from a session that is not an administrator's, on a users table in order with an id left:
  -- under every 32-bit id stands what stood there before, or a customer.
  pub register_command-KeepsOrAdds :
      (session : Session) (cmd : ParsedCommand) (w : World Price) (j : ℕ)
      → session.role ≢ role_admin
      → IsTable (user_layout images) w.server.users_table
      → w.server.users_table.next_id + 1 < u32_mod
      → j < u32_mod
      → KeepsOrAdds role_customer w.server.users_table
          (register_command images calls session cmd w).1.server.users_table
          j
  register_command-KeepsOrAdds session cmd w j other v room small =
      register_command-OnlyAdds session cmd w other v room j small

  -- What DELETE_EVENT does to the events: nothing, or the event is gone that its organizer deletes.
  abbrev pub DeletesOwn : ℕ → ℕ → Table (EventRecord Price) → Table (EventRecord Price) → Type 0
  DeletesOwn user_id eid t t' =
      ((j : ℕ) → j < u32_mod → view (event_layout images) t' j ≡ view (event_layout images) t j)
      ⊎ ((evt : EventRecord Price) × (view (event_layout images) t eid ≡ some evt)
          × (evt.organizer_id ≡ user_id)
          × ((j : ℕ)
              → j < u32_mod
              → view (event_layout images) t' j
                ≡ (if j == eid then none else view (event_layout images) t j)))

  delete_own :
      (session : Session) (eid : ℕ) (w : World Price) (env : Env) (evt : EventRecord Price)
      → view (event_layout images) w.server.events_table eid ≡ some evt
      → evt.organizer_id ≡ session.user_id
      → IsTable (event_layout images) w.server.events_table
      → eid < u32_mod
      → DeletesOwn session.user_id eid w.server.events_table
          (replied w (
            event_mgr_delete_event images eid
              (record w.server { env = env }))).1.server.events_table
  unfolding event_mgr_delete_event
  delete_own session eid w env evt found own v small =
      delete-cases (event_layout images)
        (λ t env'. record w.server { events_table = t; env = env' }) w.server.events_table env eid
        (λ o.
          DeletesOwn session.user_id eid w.server.events_table (replied w o).1.server.events_table)
        v small (λ t env' (_, m, law). inr (evt, found, own, law)) (λ e env'. inl (λ j k. refl))

  -- DELETE_EVENT from a session that is not an administrator's, on an events table in order and for a 32-bit
  -- id: no event changes, or only the event of the id is gone, and the client is its organizer.
  pub delete_event_command-DeletesOwn :
      (session : Session) (cmd : ParsedCommand) (w : World Price)
      → session.role ≢ role_admin
      → IsTable (event_layout images) w.server.events_table
      → calls.atoi_u32 (arg cmd 0) < u32_mod
      → DeletesOwn session.user_id
          (calls.atoi_u32 (arg cmd 0))
          w.server.events_table
          (delete_event_command images calls session cmd w).1.server.events_table
  unfolding delete_event_command event_mgr_get_event
  delete_event_command-DeletesOwn session cmd w other v small =
      elim (Bool-cases (ltb (length cmd.args) 1)) [
        | inl h ↦ rw h (inl (λ j k. refl))
        | inr h ↦ rw h (
            find-cases (event_layout images)
              (λ t env. record w.server { events_table = t; env = env }) w.server.events_table
              w.server.env (calls.atoi_u32 (arg cmd 0))
              (λ o.
                DeletesOwn session.user_id (calls.atoi_u32 (arg cmd 0)) w.server.events_table
                  (delete_found images calls session (calls.atoi_u32 (arg cmd 0)) w
                    o).1.server.events_table)
              (λ evt env found. elim (Bool-cases (evt.organizer_id == session.user_id)) [
                | inl own ↦
                    rw (no_admin, own)
                      (delete_own session (calls.atoi_u32 (arg cmd 0)) w env evt found
                        (ground (arith, own)) v small)
                | inr foreign ↦ rw (no_admin, foreign) (inl (λ j k. refl))
              ])
              (λ e env. inl (λ j k. refl)))
      ]
    where
      no_admin : (session.role == role_admin) ≡ false
      no_admin = ground (arith, other)
