-- ===== src/Notifications/Service.antt =====
-- notifications.service.ts and notifications-realtime.service.ts.
use towerdesk_backend.Common.{
  ℕ, suc, Bool, String, Option, none, some, List, [], ◌∷◌, ◌++◌, map, nat_eq, not, ltb, select,
  take, last, length, min, max, new_set, is_empty, is_some, or_default, split_on, if◌then◌else◌,
}
use towerdesk_backend.Store.{
  Uid, Time, Text, Action, ◌>>=◌, ◌>>◌, pure, gets, modify, or_throw, bad_request, not_found,
}
use towerdesk_backend.Store.Notices.{
  NotificationType, NotificationData, Notification, NotificationResponse, RealtimeEvent,
  notification_new, notification_read, notifications_read_all, notification_dismiss,
  notification_undismiss,
}
use towerdesk_backend.Scope.{is_truthy}
use towerdesk_backend.Notifications.Repo.{
  NotificationInput, CursorInfo, NoticeDraws, create_many_and_return, find_by_id_for_user,
  find_page, mark_row_read, mark_rows_read, mark_dismissed, clear_dismissed, is_unread,
}

-- `publishToUser`
unfoldable pub publish_to_user : Uid → Uid → RealtimeEvent → Action (Unit {0})
publish_to_user org_id user_id event = modify (λ db. record db {
  published =
      if db.has_server
      then db.published ++ record { org_id = org_id; user_id = user_id; event = event } ∷ []
      else db.published;
})

-- `toNotificationResponse`
unfoldable pub to_notification_response : Notification → NotificationResponse
to_notification_response n = record {
  id = n.id;
  type = n.type;
  title = n.title;
  body = n.body;
  payload = n.payload;
  read_at = n.read_at;
  dismissed_at = n.dismissed_at;
  created_at = n.created_at;
}

-- What the code calls: base64 both ways, `toISOString` and `new Date` (`none` for an invalid
-- date), and the text that a UUID stands for.
pub record Codec : Type 0 where
  pub to_base64 : Text → Text
  pub from_base64 : Text → Text
  pub to_iso : Time → Text
  pub parse_date : Text → Option Time
  pub text_of_id : Uid → Text
  pub id_of_text : Text → Uid

-- The options of `listForUser`; absent flags read as `false`.
pub record ListQuery : Type 0 where
  pub unread_only : Bool
  pub include_dismissed : Bool
  pub cursor : Option Text
  pub limit : Option ℕ

pub record Page : Type 0 where
  pub items : List Notification
  pub next_cursor : Option Text

-- The code unit of `|`
abbrev pub bar : ℕ
bar = 124

-- `Math.min(Math.max(options.limit ?? DEFAULT_LIMIT, 1), MAX_LIMIT)`
unfoldable pub page_limit : Option ℕ → ℕ
page_limit limit = min (max (or_default limit 20) 1) 100

-- `sliced` and `hasMore`, and the cursor of the last item; there is one, since a limit is 1 at least
unfoldable pub cut_page : (Notification → Text) → ℕ → List Notification → Page
cut_page encode limit items =
    let has_more = ltb limit (length items) in
    let sliced = if has_more then take limit items else items in
    record {
      items = sliced;
      next_cursor =
          if has_more then elim (last sliced) [ none ↦ none | some n ↦ some (encode n) ] else none;
    }

module _ (codec : Codec) where
  -- `encodeCursor`
  unfoldable pub encode_cursor : Notification → Text
  encode_cursor n = codec.to_base64 (codec.to_iso n.created_at ++ bar ∷ codec.text_of_id n.id)

  -- The parts of a cursor.
  unfoldable pub read_parts : List Text → Option CursorInfo
  read_parts (created_at_raw ∷ id ∷ []) =
      if is_empty created_at_raw
      then none
      else if is_empty id
      then none
      else elim (codec.parse_date created_at_raw) [
        | none ↦ none
        | some created_at ↦ some (record { id = codec.id_of_text id; created_at = created_at })
      ]
  read_parts other = none

  -- `decodeCursor`: whatever is wrong with a cursor, the answer is the same. `Buffer.from` does
  -- not throw.
  unfoldable pub decode_cursor : Text → Action CursorInfo
  unfolding read_parts
  decode_cursor cursor =
      or_throw (read_parts (split_on bar (codec.from_base64 cursor))) (bad_request "Invalid cursor")

  -- `options.cursor ? this.decodeCursor(options.cursor) : undefined`
  unfoldable pub cursor_info : Option Text → Action (Option CursorInfo)
  unfolding decode_cursor
  cursor_info none = pure none
  cursor_info (some cursor) =
      if is_empty cursor then pure none else do c ← decode_cursor cursor; pure (some c)

  -- The page behind a cursor that was read.
  unfoldable pub page_behind : Uid → Uid → ListQuery → Option CursorInfo → Action Page
  unfolding page_limit cut_page
  page_behind user_id org_id options cursor = do
    let limit = page_limit options.limit
    items ← gets (
        find_page user_id org_id (record {
          unread_only = options.unread_only;
          include_dismissed = options.include_dismissed;
          rows = suc limit;
          cursor = cursor;
        }))
    pure (cut_page encode_cursor limit items)

  -- `listForUser`
  unfoldable pub list_for_user : Uid → Uid → ListQuery → Action Page
  unfolding cursor_info page_behind
  list_for_user user_id org_id options = do
    cursor ← cursor_info options.cursor
    page_behind user_id org_id options cursor

-- The input of `createForUsers`
pub record NoticeInput : Type 0 where
  pub org_id : Uid
  pub user_ids : List Uid
  pub type : NotificationType
  pub title : String
  pub body : Option Text
  pub payload : NotificationData

abbrev pub notification_input : NoticeInput → Uid → NotificationInput
notification_input input user_id = record {
  org_id = input.org_id;
  recipient_user_id = user_id;
  type = input.type;
  title = input.title;
  body = input.body;
  payload = input.payload;
}

-- `created.forEach`
unfoldable pub publish_new : Uid → List Notification → Action (Unit {0})
unfolding publish_to_user
publish_new org_id [] = pure tt
publish_new org_id (n ∷ ns) = do
  publish_to_user org_id n.recipient_user_id (notification_new (to_notification_response n))
  publish_new org_id ns

-- `Array.from(new Set(input.userIds)).filter(Boolean)`
abbrev pub unique_users : List Uid → List Uid
unique_users user_ids = select is_truthy (new_set user_ids)

-- `createForUsers`, once the users are known
unfoldable pub create_for_unique :
    NoticeDraws → NoticeInput → List Uid → Action (List NotificationResponse)
create_for_unique draws input [] = pure []
create_for_unique draws input (u ∷ us) = do
  created ← create_many_and_return draws 0 (map (notification_input input) (u ∷ us))
  publish_new input.org_id created
  pure (map to_notification_response created)

-- `createForUsers`
unfoldable pub create_for_users : NoticeDraws → NoticeInput → Action (List NotificationResponse)
unfolding create_for_unique
create_for_users draws input = create_for_unique draws input (unique_users input.user_ids)

-- `markRead`
unfoldable pub mark_read : Time → Uid → Uid → Uid → Action (Unit {0})
unfolding find_by_id_for_user mark_row_read publish_to_user
mark_read now notification_id user_id org_id = do
  existing ←
      or_throw (← gets (find_by_id_for_user notification_id user_id org_id))
        (not_found "Notification not found")
  if is_unread existing
      then (mark_row_read notification_id user_id org_id now
          >> publish_to_user org_id user_id (notification_read notification_id now))
      else pure tt

-- `markAllRead`
unfoldable pub mark_all_read : Time → Uid → Uid → Action (Unit {0})
unfolding mark_rows_read publish_to_user
mark_all_read now user_id org_id = do
  updated ← mark_rows_read user_id org_id now
  if ltb 0 updated then publish_to_user org_id user_id (notifications_read_all now) else pure tt

-- `dismiss`
unfoldable pub dismiss : Time → Uid → Uid → Uid → Action (Unit {0})
unfolding find_by_id_for_user mark_dismissed publish_to_user
dismiss now notification_id user_id org_id = do
  existing ←
      or_throw (← gets (find_by_id_for_user notification_id user_id org_id))
        (not_found "Notification not found")
  if not (is_some existing.dismissed_at)
      then (mark_dismissed notification_id user_id org_id now
          >> publish_to_user org_id user_id (notification_dismiss notification_id now))
      else pure tt

-- `undismiss`
unfoldable pub undismiss : Uid → Uid → Uid → Action (Unit {0})
unfolding find_by_id_for_user clear_dismissed publish_to_user
undismiss notification_id user_id org_id = do
  existing ←
      or_throw (← gets (find_by_id_for_user notification_id user_id org_id))
        (not_found "Notification not found")
  if is_some existing.dismissed_at
      then (clear_dismissed notification_id user_id org_id
          >> publish_to_user org_id user_id (notification_undismiss notification_id))
      else pure tt
