-- ===== src/Notifications/Delivery.antt =====
-- What a handled event leaves in the tables and in the sockets.
use mathlib.Core.List.{append-nil, append_assoc}
use towerdesk_backend.Common.{
  ℕ, suc, Bool, true, false, List, [], ◌∷◌, ◌++◌, map, ◌≡◌, refl, sym, ap, ◌==◌, nat_eq, any, every,
  arith, if◌then◌else◌,
}
use towerdesk_backend.Store.{Uid, User, Db, Event, ok}
use towerdesk_backend.Store.Notices.{Notification, Message, notification_new}
use towerdesk_backend.Store.Estate.{Org}
use towerdesk_backend.Notifications.Repo.{
  NotificationInput, NoticeDraws, notification_row, notification_dangles, create_many_and_return,
}
use towerdesk_backend.Notifications.Service.{
  NoticeInput, notification_input, to_notification_response, publish_new, unique_users,
  create_for_users, create_for_unique,
}
use towerdesk_backend.Notifications.Listener.{notice_of, handle_event}

-- The rows that the database makes of the inputs, from the `i`th draw on.
abbrev pub stamped : NoticeDraws → ℕ → List NotificationInput → List Notification
stamped draws i [] = []
stamped draws i (n ∷ ns) =
    notification_row (draws.id i) (draws.created_at i) n ∷ stamped draws (suc i) ns

-- One message for each row, in the room of its recipient.
abbrev pub messages : Uid → List Notification → List Message
messages org_id [] = []
messages org_id (n ∷ ns) =
    record {
      org_id = org_id;
      user_id = n.recipient_user_id;
      event = notification_new (to_notification_response n);
    }
    ∷ messages org_id ns

abbrev pub with_notifications : List Notification → Db → Db
with_notifications rows db = record db { notifications = db.notifications ++ rows }

abbrev pub with_published : List Message → Db → Db
with_published ms db = record db {
  published = if db.has_server then db.published ++ ms else db.published;
}

create_many_lem :
    (draws : NoticeDraws) (i : ℕ) (ns : List NotificationInput) (db : Db)
    → any (notification_dangles db) ns ≡ false
    → create_many_and_return draws i ns db
      ≡ (ok (stamped draws i ns), with_notifications (stamped draws i ns) db)
unfolding create_many_and_return any
create_many_lem draws i [] db h =
    ap (λ l. (ok [], record db { notifications = l })) (sym (append-nil db.notifications))
create_many_lem draws i (n ∷ ns) db h =
    let row = notification_row (draws.id i) (draws.created_at i) n in
    ground (
      arith,
      create_many_lem draws (suc i) ns (with_notifications (row ∷ []) db),
      append_assoc db.notifications (row ∷ []) (stamped draws (suc i) ns),
    )

publish_new_lem :
    (org_id : Uid) (ns : List Notification) (db : Db)
    → publish_new org_id ns db ≡ (ok tt, with_published (messages org_id ns) db)
unfolding publish_new
publish_new_lem org_id [] db = ground (arith, append-nil db.published)
publish_new_lem org_id (n ∷ ns) db =
    let ms = messages org_id (n ∷ []) in
    ground (
      arith,
      publish_new_lem org_id ns (with_published ms db),
      append_assoc db.published ms (messages org_id ns),
    )

abbrev pub is_user : Db → Uid → Bool
is_user db id = any (λ (x : User). x.id == id) db.users

none_dangles :
    (db : Db) (input : NoticeInput) (ids : List Uid)
    → any (λ (o : Org). o.id == input.org_id) db.orgs ≡ true
    → every (is_user db) ids ≡ true
    → any (notification_dangles db) (map (notification_input input) ids) ≡ false
unfolding any every
none_dangles db input [] h k = refl
none_dangles db input (u ∷ ids) h k = ground (arith, none_dangles db input ids)

create_for_unique_lem :
    (draws : NoticeDraws) (input : NoticeInput) (ids : List Uid) (db : Db)
    → any (λ (o : Org). o.id == input.org_id) db.orgs ≡ true
    → every (is_user db) ids ≡ true
    → let rows = stamped draws 0 (map (notification_input input) ids) in
      create_for_unique draws input ids db ≡ (
        ok (map to_notification_response rows),
        with_published (messages input.org_id rows) (with_notifications rows db),
      )
unfolding create_for_unique
create_for_unique_lem draws input [] db h k =
    ground (arith, append-nil db.notifications, append-nil db.published)
create_for_unique_lem draws input (u ∷ us) db h k =
    let ns = map (notification_input input) (u ∷ us) in
    let rows = stamped draws 0 ns in
    ground (
      arith,
      create_many_lem draws 0 ns db (none_dangles db input (u ∷ us) h k),
      publish_new_lem input.org_id rows (with_notifications rows db),
    )

-- If the organisation of a request and the users to be told exist, then a handled event leaves
-- one unread notification for each of them, in their order, behind those that were there, tells it
-- to the sockets of each, and changes nothing else.
pub handle_event_lem :
    (draws : NoticeDraws) (event : Event) (db : Db)
    → any (λ (o : Org). o.id == event.payload.request.org_id) db.orgs ≡ true
    → every (is_user db) (unique_users (notice_of db event).user_ids) ≡ true
    → let input = notice_of db event in
      let rows = stamped draws 0 (map (notification_input input) (unique_users input.user_ids)) in
      handle_event draws event db ≡ (
        ok (map to_notification_response rows),
        with_published (messages event.payload.request.org_id rows) (with_notifications rows db),
      )
unfolding handle_event create_for_users
handle_event_lem draws event db h k =
    let o : (notice_of db event).org_id ≡ event.payload.request.org_id = ground arith in
    ground (
      arith,
      create_for_unique_lem draws (notice_of db event) (unique_users (notice_of db event).user_ids)
          db,
    )
