-- ===== src/Tests/Notices.antt =====
-- The theorems on notifications, with a small encoding of cursors: base64 changes nothing, a date
-- is a `T` and a run of zeros, an id is a run of ones.
use towerdesk_backend.Common.{
  ℕ, zero, suc, ◌+◌, ◌<◌, true, false, Option, none, some, [], ◌∷◌, ◌≡◌, refl, ap, ◌++◌, map, ◌==◌,
  nat_eq, length, has, UniqueKeys, All, Lacks, any, find, every, select, take, last, new_set,
  delete, add, includes, sort_by, insert_by, arith,
}
use towerdesk_backend.Store.{Uid, Time, Text, Db, Event, EventName, open_, ok}
use towerdesk_backend.Store.Notices.{Notification, NotificationType}
use towerdesk_backend.Scope.{is_truthy, get_building_assignment_type}
use towerdesk_backend.Store.Estate.{Org}
use towerdesk_backend.Maintenance.Visibility.{is_ok}
use towerdesk_backend.Maintenance.{assign_request}
use towerdesk_backend.Notifications.{
  Codec, ListQuery, Page, NoticeDraws, list_for_user, find_page, encode_cursor, decode_cursor,
  find_by_id_for_user, notice_of, handle_event, unique_users, to_notification_response,
  notification_input,
}
use towerdesk_backend.Notifications.Cursor.{CodecLaws, cursor_of, decode_cursor-encode_cursor}
use towerdesk_backend.Notifications.Paging.{notification_id_of, follow, listing, follow_lem}
use towerdesk_backend.Notifications.Inbox.{InboxCall, use_inbox, Kept, use_inbox-Kept}
use towerdesk_backend.Notifications.Audience.{is_concerned, notice_of-recipients}
use towerdesk_backend.Notifications.Delivery.{
  handle_event_lem, is_user, stamped, with_published, messages, with_notifications,
}
use towerdesk_backend.Notifications.Handover.{assign_request_tells_assignee}
use towerdesk_backend.Tests.Requests.{unique_requests, manager-Reaches}
use towerdesk_backend.Tests.Sample.{db, request_row, manager_user}
use towerdesk_backend.Tests.Tokens.{platform}

abbrev run_of : ℕ → ℕ → Text
run_of c zero = []
run_of c (suc n) = c ∷ run_of c n

abbrev read_date : Text → Option Time
read_date [] = none
read_date (c ∷ cs) = some (length cs)

abbrev pub codec : Codec
codec = record {
  to_base64 = λ t. t;
  from_base64 = λ t. t;
  to_iso = λ t. 84 ∷ run_of 48 t;
  parse_date = read_date;
  text_of_id = run_of 49;
  id_of_text = length;
}

length-run_of : (c n : ℕ) → length (run_of c n) ≡ n
length-run_of c zero = refl
length-run_of c (suc n) = ap suc (length-run_of c n)

zeros_Lacks : (n : ℕ) → Lacks 124 (run_of 48 n)
unfolding any
zeros_Lacks zero = refl
zeros_Lacks (suc n) = zeros_Lacks n

ones_Lacks : (n : ℕ) → Lacks 124 (run_of 49 n)
unfolding any
ones_Lacks zero = refl
ones_Lacks (suc n) = ones_Lacks n

codec-CodecLaws : CodecLaws codec
unfolding any
codec-CodecLaws = record {
  base64 = λ t. refl;
  base64_empty = refl;
  date = λ t. ap some (length-run_of 48 t);
  date_empty = refl;
  date_Lacks = zeros_Lacks;
  id = length-run_of 49;
  id_empty = refl;
  id_Lacks = ones_Lacks;
}

abbrev notice : Uid → Time → Notification
notice id created_at = record {
  id = id;
  org_id = 9;
  recipient_user_id = 2;
  type = NotificationType.request_created;
  title = "New request";
  body = none;
  payload = record {
    request_id = 20;
    building_id = 5;
    unit_id = none;
    actor_user_id = 3;
    status = none;
    comment_id = none;
  };
  read_at = none;
  dismissed_at = none;
  created_at = created_at;
}

-- Three notifications of the user 2, two of them of the same time.
abbrev inbox : Db
inbox = record platform { notifications = notice 1 5 ∷ notice 2 5 ∷ notice 3 4 ∷ [] }

unique_notices : UniqueKeys notification_id_of inbox.notifications
unfolding any
unique_notices = ground arith

ids_truthy : All (λ n. is_truthy n.id ≡ true) inbox.notifications
ids_truthy = (refl, (refl, (refl, tt)))

abbrev pairs : ListQuery
pairs = record { unread_only = true; include_dismissed = false; limit = some 1; cursor = none }

three_listed : length (listing 2 9 true false inbox) ≡ 3
unfolding select sort_by insert_by
three_listed = refl

enough : length (listing 2 9 true false inbox) < 4
enough = ground (arith, three_listed)

follow_lem_example : follow codec 4 2 9 pairs inbox ≡ (ok (listing 2 9 true false inbox), inbox)
follow_lem_example =
    follow_lem codec codec-CodecLaws 2 9 inbox unique_notices ids_truthy 4 pairs refl enough

abbrev first_page : Page
first_page = record {
  items = notice 2 5 ∷ [];
  next_cursor = some (encode_cursor codec (notice 2 5));
}

paged : (list_for_user codec 2 9 pairs inbox).0 ≡ ok first_page
unfolding list_for_user find_page select sort_by insert_by take last
paged = refl

decode_cursor-encode_cursor_example :
    decode_cursor codec (encode_cursor codec (notice 3 4)) inbox
    ≡ (ok (cursor_of (notice 3 4)), inbox)
decode_cursor-encode_cursor_example =
    decode_cursor-encode_cursor codec codec-CodecLaws (notice 3 4) inbox refl

use_inbox-Kept_example :
    Kept 2 9 inbox.notifications (use_inbox 7 2 9 (InboxCall.hide 2) inbox).1.notifications
use_inbox-Kept_example = use_inbox-Kept 7 2 9 (InboxCall.hide 2) inbox

own_notice : find_by_id_for_user 2 2 9 inbox ≡ some (notice 2 5)
unfolding find_by_id_for_user find
own_notice = refl

-- The resident 3 has made the request 20, which nobody has taken yet.
abbrev made : Event
made = record {
  name = EventName.request_created;
  payload = record {
    request = record {
      id = 20;
      org_id = 9;
      building_id = 5;
      unit_id = none;
      title = [];
      status = some open_;
      created_by_user_id = 3;
      assigned_to_user_id = none;
      unit = none;
    };
    actor_user_id = 3;
    actor_is_resident = some true;
    comment = none;
  };
}

notice_of-recipients_example :
    let recipients = (notice_of inbox made).user_ids in
    ((u : Uid) → u == 3 ≡ false → has recipients u ≡ is_concerned inbox made u)
    × ((v : Uid) → v == 3 ≡ false → is_concerned inbox made v ≡ true → has recipients 3 ≡ false)
    × (((v : Uid) → v == 3 ≡ false → is_concerned inbox made v ≡ false) → recipients ≡ 3 ∷ [])
notice_of-recipients_example = notice_of-recipients inbox made

abbrev draws : NoticeDraws
draws = record { id = λ i. i + 30; created_at = λ i. i + 8 }

org_there : any (λ (o : Org). o.id == 9) inbox.orgs ≡ true
unfolding any
org_there = refl

all_users : every (is_user inbox) (unique_users (notice_of inbox made).user_ids) ≡ true
unfolding every any notice_of select new_set delete find add includes
all_users = refl

handle_event_lem_example :
    let input = notice_of inbox made in
    let rows = stamped draws 0 (map (notification_input input) (unique_users input.user_ids)) in
    handle_event draws made inbox ≡ (
      ok (map to_notification_response rows),
      with_published (messages 9 rows) (with_notifications rows inbox),
    )
handle_event_lem_example = handle_event_lem draws made inbox org_there all_users

assigns : is_ok (assign_request 50 manager_user 5 20 2 db).0 ≡ true
unfolding assign_request get_building_assignment_type find select any
assigns = refl

assign_request_tells_assignee_example :
    let db' = (assign_request 50 manager_user 5 20 2 db).1 in
    (event : Event) × (db'.events ≡ db.events ++ event ∷ [])
    × (has (notice_of db' event).user_ids 2 ≡ true)
assign_request_tells_assignee_example =
    assign_request_tells_assignee db manager_user 9 1 5 20 (request_row 20 open_ none)
      unique_requests manager-Reaches 50 2 refl refl assigns
