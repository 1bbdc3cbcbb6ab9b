-- ===== src/Notifications/Handover.antt =====
-- From a call of the maintenance requests to the notification of its event.
use towerdesk_backend.Common.{
  ◌+◌, ◌≤◌, true, false, Option, none, [], ◌∷◌, ◌++◌, ◌≡◌, ◌∙◌, ◌==◌, nat_eq, has, length, codes,
  length-take, take, trim, UniqueKeys, find_by_key, arith, Option-cases, inl, inr, some,
}
use towerdesk_backend.Store.{Uid, Time, Text, Db, Event, request_assigned, MaintenanceRequest, User}
use towerdesk_backend.Scope.{AuthenticatedUser, is_truthy}
use towerdesk_backend.Maintenance.{
  assign_request, request_id_of, for_building, to_event_request, assign_to, short_view,
  find_user_by_id,
}
use towerdesk_backend.Maintenance.Visibility.{is_ok}
use towerdesk_backend.Maintenance.Assignment.{Reaches, user_key}
use towerdesk_backend.Notifications.Listener.{notice_of, truncate_message}
use towerdesk_backend.Notifications.Audience.{is_concerned, notice_of-recipients}

-- The last event after an assignment: the request as it is then.
abbrev pub assignment_event : Db → MaintenanceRequest → Uid → Uid → Time → Event
assignment_event db r staff_user_id s now = record {
  name = request_assigned;
  payload = record {
    request = to_event_request (short_view db (assign_to staff_user_id now r));
    actor_user_id = s;
    actor_is_resident = none;
    comment = none;
  };
}

concerns_assignee :
    (db db' : Db) (r : MaintenanceRequest) (staff_user_id s : Uid) (now : Time)
    → is_truthy staff_user_id ≡ true
    → is_concerned db' (assignment_event db r staff_user_id s now) staff_user_id ≡ true
unfolding to_event_request short_view
concerns_assignee db db' r staff_user_id s now h = ground arith

module _ (db : Db) (user : Option AuthenticatedUser) (o s b id : Uid) (r : MaintenanceRequest)
    (u : UniqueKeys request_id_of db.requests) (reaches : Reaches db user o s b id r) where
  refused_for_nobody :
      (now : Time) (staff_user_id : Uid)
      → find_user_by_id staff_user_id db ≡ none
      → is_ok (assign_request now user b id staff_user_id db).0 ≡ false
  unfolding assign_request
  refused_for_nobody now staff_user_id nobody =
      ground (arith, reaches.org, reaches.sub, reaches.owned, reaches.found)

  emits_for_somebody :
      (now : Time) (staff_user_id : Uid) (x : User)
      → find_user_by_id staff_user_id db ≡ some x
      → is_ok (assign_request now user b id staff_user_id db).0 ≡ true
      → (assign_request now user b id staff_user_id db).1.events
        ≡ db.events ++ assignment_event db r staff_user_id s now ∷ []
  unfolding assign_request
  emits_for_somebody now staff_user_id x e h = ground (
    arith,
    reaches.org,
    reaches.sub,
    reaches.owned,
    reaches.found,
    user_key staff_user_id x db e,
    find_by_key request_id_of (for_building o b id) db.requests r u reaches.found,
  )

  assignment_emits :
      (now : Time) (staff_user_id : Uid)
      → is_ok (assign_request now user b id staff_user_id db).0 ≡ true
      → (assign_request now user b id staff_user_id db).1.events
        ≡ db.events ++ assignment_event db r staff_user_id s now ∷ []
  assignment_emits now staff_user_id h = elim (Option-cases (find_user_by_id staff_user_id db)) [
    | inl nobody ↦ ground (arith, refused_for_nobody now staff_user_id nobody)
    | inr (x, e) ↦ emits_for_somebody now staff_user_id x e h
  ]

  -- Keys being unique, and the request being one that the caller reaches: if the caller assigns it
  -- to somebody else, the event that this emits is one of which the assignee is told.
  pub assign_request_tells_assignee :
      (now : Time) (staff_user_id : Uid)
      → is_truthy staff_user_id ≡ true
      → staff_user_id == s ≡ false
      → is_ok (assign_request now user b id staff_user_id db).0 ≡ true
      → let db' = (assign_request now user b id staff_user_id db).1 in
        (event : Event) × (db'.events ≡ db.events ++ event ∷ [])
        × (has (notice_of db' event).user_ids staff_user_id ≡ true)
  assign_request_tells_assignee now staff_user_id t other h =
      let db' = (assign_request now user b id staff_user_id db).1 in
      let event = assignment_event db r staff_user_id s now in
      (
        event,
        assignment_emits now staff_user_id h,
        (notice_of-recipients db' event).0 staff_user_id other
            ∙ concerns_assignee db db' r staff_user_id s now t,
      )

length-append : (s t : Text) → length (s ++ t) ≡ length s + length t
length-append [] t = omega arith
length-append (c ∷ s) t = omega (arith, length-append s t)

-- The text of a comment in a notification has 80 code units at most.
pub truncate_message_bound : (message : Text) → length (truncate_message message) ≤ 80
unfolding truncate_message
truncate_message_bound message =
    ground
      (arith, length-append (take 77 (trim message)) (codes "..."), length-take 77 (trim message))
