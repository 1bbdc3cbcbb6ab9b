-- ===== src/Notifications/Repo.antt =====
-- notifications.repo.ts. Ids and creation times are drawn by the database, one pair for each row.
use towerdesk_backend.Common.{
  ℕ, suc, Bool, true, String, Option, none, some, List, [], ◌∷◌, ◌++◌, map, ◌==◌, nat_eq, not, ◌&&◌,
  ◌||◌, ltb, any, find, select, sort_by, take, length, is_some, if◌then◌else◌,
}
use towerdesk_backend.Store.{
  Uid, Time, Text, User, Db, Action, ◌>>=◌, ◌>>◌, pure, gets, modify, throw_if,
  foreign_key_violation,
}
use towerdesk_backend.Store.Notices.{NotificationType, NotificationData, Notification}
use towerdesk_backend.Store.Estate.{Org}

-- `NotificationInput`
pub record NotificationInput : Type 0 where
  pub org_id : Uid
  pub recipient_user_id : Uid
  pub type : NotificationType
  pub title : String
  pub body : Option Text
  pub payload : NotificationData

-- `CursorInfo`
pub record CursorInfo : Type 0 where
  pub id : Uid
  pub created_at : Time

pub record ListOptions : Type 0 where
  pub unread_only : Bool
  pub include_dismissed : Bool
  pub rows : ℕ
  pub cursor : Option CursorInfo

-- What the database draws for the rows of a call.
pub record NoticeDraws : Type 0 where
  pub id : ℕ → Uid
  pub created_at : ℕ → Time

abbrev pub notification_row : Uid → Time → NotificationInput → Notification
notification_row id now n = record {
  id = id;
  org_id = n.org_id;
  recipient_user_id = n.recipient_user_id;
  type = n.type;
  title = n.title;
  body = n.body;
  payload = n.payload;
  read_at = none;
  dismissed_at = none;
  created_at = now;
}

-- A row refers to an organisation and to a user.
abbrev pub notification_dangles : Db → NotificationInput → Bool
notification_dangles db n = not (
    any (λ (o : Org). o.id == n.org_id) db.orgs
    && any (λ (u : User). u.id == n.recipient_user_id) db.users)

-- The loop of `createManyAndReturn`, from the `i`th draw on
unfoldable pub create_many_and_return :
    NoticeDraws → ℕ → List NotificationInput → Action (List Notification)
create_many_and_return draws i [] = pure []
create_many_and_return draws i (n ∷ ns) = do
  throw_if (← gets (λ db. notification_dangles db n)) foreign_key_violation
  let row = notification_row (draws.id i) (draws.created_at i) n
  modify (λ db. record db { notifications = db.notifications ++ row ∷ [] })
  rows ← create_many_and_return draws (suc i) ns
  pure (row ∷ rows)

abbrev pub for_user : Uid → Uid → Notification → Bool
for_user user_id org_id n = n.recipient_user_id == user_id && n.org_id == org_id

-- `findByIdForUser`
unfoldable pub find_by_id_for_user : Uid → Uid → Uid → Db → Option Notification
find_by_id_for_user notification_id user_id org_id db =
    find (λ n. n.id == notification_id && for_user user_id org_id n) db.notifications

-- `orderBy: [{ createdAt: 'desc' }, { id: 'desc' }]`
abbrev pub later : Notification → Notification → Bool
later a b = ltb b.created_at a.created_at || (a.created_at == b.created_at && not (ltb a.id b.id))

-- The condition `where.OR`
abbrev pub is_past : Option CursorInfo → Notification → Bool
is_past none n = true
is_past (some c) n =
    ltb n.created_at c.created_at || (n.created_at == c.created_at && ltb n.id c.id)

abbrev pub is_listed : Uid → Uid → Bool → Bool → Notification → Bool
is_listed user_id org_id unread_only include_dismissed n =
    for_user user_id org_id n
    && (not (unread_only && is_some n.read_at)
        && not (not include_dismissed && is_some n.dismissed_at))

-- `listForUser`
unfoldable pub find_page : Uid → Uid → ListOptions → Db → List Notification
find_page user_id org_id options db = take options.rows (
    sort_by later (
      select
        (λ n.
          is_listed user_id org_id options.unread_only options.include_dismissed n
          && is_past options.cursor n)
        db.notifications))

-- `updateMany`
unfoldable pub update_many : (Notification → Bool) → (Notification → Notification) → Action ℕ
update_many p patch = do
  count ← gets (λ db. length (select p db.notifications))
  modify
      (λ db. record db { notifications = map (λ n. if p n then patch n else n) db.notifications })
  pure count

abbrev pub is_unread : Notification → Bool
is_unread n = not (is_some n.read_at) && not (is_some n.dismissed_at)

-- `markRead`
unfoldable pub mark_row_read : Uid → Uid → Uid → Time → Action ℕ
unfolding update_many
mark_row_read notification_id user_id org_id read_at =
    update_many (λ n. n.id == notification_id && (for_user user_id org_id n && is_unread n))
      (λ n. record n { read_at = some read_at })

-- `markAllRead`
unfoldable pub mark_rows_read : Uid → Uid → Time → Action ℕ
unfolding update_many
mark_rows_read user_id org_id read_at =
    update_many (λ n. for_user user_id org_id n && is_unread n)
      (λ n. record n { read_at = some read_at })

-- `markDismissed`
unfoldable pub mark_dismissed : Uid → Uid → Uid → Time → Action ℕ
unfolding update_many
mark_dismissed notification_id user_id org_id dismissed_at =
    update_many
      (λ n. n.id == notification_id && (for_user user_id org_id n && not (is_some n.dismissed_at)))
      (λ n. record n { dismissed_at = some dismissed_at })

-- `clearDismissed`
unfoldable pub clear_dismissed : Uid → Uid → Uid → Action ℕ
unfolding update_many
clear_dismissed notification_id user_id org_id =
    update_many
      (λ n. n.id == notification_id && (for_user user_id org_id n && is_some n.dismissed_at))
      (λ n. record n { dismissed_at = none })

-- `countUnread`
unfoldable pub count_unread : Uid → Uid → Db → ℕ
count_unread user_id org_id db =
    length (select (λ n. for_user user_id org_id n && is_unread n) db.notifications)
