-- ===== src/Notifications/Inbox.antt =====
-- What a user does with notifications.
use towerdesk_backend.Common.{
  ◌+◌, Bool, true, false, not, ◌&&◌, none, some, List, [], ◌∷◌, map, ◌≡◌, refl, inl, inr, ◌==◌,
  nat_eq, length, select, find, any, is_some, UniqueKeys, has_key, arith, Bool-cases, if◌then◌else◌,
  ◌⊎◌,
}
use towerdesk_backend.Store.{Uid, Time, Db, Action}
use towerdesk_backend.Store.Notices.{Notification}
use towerdesk_backend.Notifications.Repo.{for_user, is_unread, count_unread, find_by_id_for_user}
use towerdesk_backend.Notifications.Service.{mark_read, mark_all_read, dismiss, undismiss}
use towerdesk_backend.Notifications.Paging.{notification_id_of}

pub data InboxCall : Type 0 where
  read_one : Uid → InboxCall
  read_all : InboxCall
  hide : Uid → InboxCall
  unhide : Uid → InboxCall

-- The routes of a signed-in user.
unfoldable pub use_inbox : Time → Uid → Uid → InboxCall → Action (Unit {0})
use_inbox now user_id org_id (read_one id) = mark_read now id user_id org_id
use_inbox now user_id org_id read_all = mark_all_read now user_id org_id
use_inbox now user_id org_id (hide id) = dismiss now id user_id org_id
use_inbox now user_id org_id (unhide id) = undismiss id user_id org_id

-- Row by row: the same, or one of the user's in which only the two times may differ.
abbrev pub Kept : Uid → Uid → List Notification → List Notification → Type 0
Kept user_id org_id [] [] = Unit
Kept user_id org_id [] (m ∷ ms) = ⊥
Kept user_id org_id (n ∷ ns) [] = ⊥
Kept user_id org_id (n ∷ ns) (m ∷ ms) =
    ((for_user user_id org_id n ≡ false) → m ≡ n)
    × (m ≡ record n { read_at = m.read_at; dismissed_at = m.dismissed_at })
    × Kept user_id org_id ns ms

Kept-refl : (user_id org_id : Uid) (ns : List Notification) → Kept user_id org_id ns ns
Kept-refl user_id org_id [] = tt
Kept-refl user_id org_id (n ∷ ns) = (λ _. refl, refl, Kept-refl user_id org_id ns)

module _ (user_id org_id : Uid) (p : Notification → Bool) (patch : Notification → Notification)
    (own : (n : Notification) → p n ≡ true → for_user user_id org_id n ≡ true)
    (times : (n : Notification)
      → patch n
        ≡ record n { read_at = (patch n).read_at; dismissed_at = (patch n).dismissed_at }) where
  Kept-map :
      (ns : List Notification) → Kept user_id org_id ns (map (λ n. if p n then patch n else n) ns)
  Kept-map [] = tt
  Kept-map (n ∷ ns) = elim (Bool-cases (p n)) [
    | inl e ↦ rw e (λ h. ground (arith, own n e), times n, Kept-map ns)
    | inr e ↦ rw e (λ _. refl, refl, Kept-map ns)
  ]

  -- The call has left the rows alone, or has patched them.
  Kept-either :
      (ns ms : List Notification)
      → (ms ≡ ns) ⊎ (ms ≡ map (λ n. if p n then patch n else n) ns)
      → Kept user_id org_id ns ms
  Kept-either ns ms (inl e) = rw e (Kept-refl user_id org_id ns)
  Kept-either ns ms (inr e) = rw e (Kept-map ns)

-- Whatever a user does with notifications, no row is added, lost or moved, nobody else's row is
-- changed, and of the user's rows only the times of reading and dismissal are.
pub use_inbox-Kept :
    (now : Time) (user_id org_id : Uid) (call : InboxCall) (db : Db)
    → Kept user_id org_id db.notifications (use_inbox now user_id org_id call db).1.notifications
unfolding use_inbox mark_read mark_all_read dismiss undismiss
use_inbox-Kept now user_id org_id (read_one id) db =
    Kept-either user_id org_id (λ n. n.id == id && (for_user user_id org_id n && is_unread n))
      (λ n. record n { read_at = some now }) (λ n h. ground arith) (λ n. refl) db.notifications _
      (ground arith)
use_inbox-Kept now user_id org_id read_all db =
    Kept-either user_id org_id (λ n. for_user user_id org_id n && is_unread n)
      (λ n. record n { read_at = some now }) (λ n h. ground arith) (λ n. refl) db.notifications _
      (ground arith)
use_inbox-Kept now user_id org_id (hide id) db =
    Kept-either user_id org_id
      (λ n. n.id == id && (for_user user_id org_id n && not (is_some n.dismissed_at)))
      (λ n. record n { dismissed_at = some now }) (λ n h. ground arith) (λ n. refl) db.notifications
      _ (ground arith)
use_inbox-Kept now user_id org_id (unhide id) db =
    Kept-either user_id org_id
      (λ n. n.id == id && (for_user user_id org_id n && is_some n.dismissed_at))
      (λ n. record n { dismissed_at = none }) (λ n h. ground arith) (λ n. refl) db.notifications _
      (ground arith)

unread_cleared :
    (user_id org_id : Uid) (now : Time) (ns : List Notification)
    → length (
        select
          (λ n. for_user user_id org_id n && is_unread n)
          (map
            (λ n.
              if for_user user_id org_id n && is_unread n
              then record n { read_at = some now }
              else n)
            ns))
      ≡ 0
unfolding select
unread_cleared user_id org_id now [] = refl
unread_cleared user_id org_id now (n ∷ ns) = ground (arith, unread_cleared user_id org_id now ns)

-- After a user has marked all as read, the count of what is unread is 0.
pub count_unread-mark_all_read :
    (now : Time) (user_id org_id : Uid) (db : Db)
    → count_unread user_id org_id (mark_all_read now user_id org_id db).1 ≡ 0
unfolding count_unread mark_all_read
count_unread-mark_all_read now user_id org_id db =
    ground (arith, unread_cleared user_id org_id now db.notifications)

-- The rows after the dismissal of one and its return.
abbrev hidden : Uid → Uid → Uid → Time → List Notification → List Notification
hidden id user_id org_id now = map (λ n.
    if n.id == id && (for_user user_id org_id n && not (is_some n.dismissed_at))
    then record n { dismissed_at = some now }
    else n)

abbrev unhidden : Uid → Uid → Uid → List Notification → List Notification
unhidden id user_id org_id = map (λ n.
    if n.id == id && (for_user user_id org_id n && is_some n.dismissed_at)
    then record n { dismissed_at = none }
    else n)

-- No row of the user's with the id is dismissed.
abbrev AllShown : Uid → Uid → Uid → List Notification → Type 0
AllShown id user_id org_id ns =
    any (λ n. n.id == id && (for_user user_id org_id n && is_some n.dismissed_at)) ns ≡ false

unhidden-hidden :
    (id user_id org_id : Uid) (now : Time) (ns : List Notification)
    → AllShown id user_id org_id ns
    → unhidden id user_id org_id (hidden id user_id org_id now ns) ≡ ns
unfolding any
unhidden-hidden id user_id org_id now [] h = refl
unhidden-hidden id user_id org_id now (n ∷ ns) h =
    ground (arith, unhidden-hidden id user_id org_id now ns)

found_hidden :
    (id user_id org_id : Uid) (now : Time) (ns : List Notification) (n : Notification)
    → find (λ n. n.id == id && for_user user_id org_id n) ns ≡ some n
    → n.dismissed_at ≡ none
    → find (λ n. n.id == id && for_user user_id org_id n) (hidden id user_id org_id now ns)
      ≡ some (record n { dismissed_at = some now })
unfolding find
found_hidden id user_id org_id now [] n f e = cc
found_hidden id user_id org_id now (m ∷ ns) n f e =
    ground (arith, found_hidden id user_id org_id now ns n)

absent-AllShown :
    (id user_id org_id : Uid) (ns : List Notification)
    → has_key notification_id_of id ns ≡ false
    → AllShown id user_id org_id ns
unfolding any
absent-AllShown id user_id org_id [] h = refl
absent-AllShown id user_id org_id (n ∷ ns) h = ground (arith, absent-AllShown id user_id org_id ns)

AllShown-found :
    (id user_id org_id : Uid) (ns : List Notification) (n : Notification)
    → UniqueKeys notification_id_of ns
    → find (λ n. n.id == id && for_user user_id org_id n) ns ≡ some n
    → n.dismissed_at ≡ none
    → AllShown id user_id org_id ns
unfolding find any
AllShown-found id user_id org_id [] n u f e = refl
AllShown-found id user_id org_id (m ∷ ns) n u f e =
    ground (arith, absent-AllShown id user_id org_id ns, AllShown-found id user_id org_id ns n u.1)

-- Ids being unique: a notification of the user's that is not dismissed, dismissed and brought
-- back, is as it was, and so is every other one.
pub undismiss-dismiss :
    (now : Time) (id user_id org_id : Uid) (db : Db) (n : Notification)
    → UniqueKeys notification_id_of db.notifications
    → find_by_id_for_user id user_id org_id db ≡ some n
    → n.dismissed_at ≡ none
    → (undismiss id user_id org_id (dismiss now id user_id org_id db).1).1.notifications
      ≡ db.notifications
unfolding undismiss dismiss find_by_id_for_user
undismiss-dismiss now id user_id org_id db n u f e = ground (
  arith,
  found_hidden id user_id org_id now db.notifications n f e,
  unhidden-hidden id user_id org_id now db.notifications
      (AllShown-found id user_id org_id db.notifications n u f e),
)

read_absent :
    (id user_id org_id : Uid) (now : Time) (ns : List Notification)
    → has_key notification_id_of id ns ≡ false
    → map
        (λ n.
          if n.id == id && (for_user user_id org_id n && is_unread n)
          then record n { read_at = some now }
          else n)
        ns
      ≡ ns
unfolding any
read_absent id user_id org_id now [] h = refl
read_absent id user_id org_id now (n ∷ ns) h = ground (arith, read_absent id user_id org_id now ns)

read_once :
    (id user_id org_id : Uid) (now : Time) (ns : List Notification)
    → UniqueKeys notification_id_of ns
    → (n : Notification) → find (λ n. n.id == id && for_user user_id org_id n) ns ≡ some n
    → length (
          select
            (λ n. for_user user_id org_id n && is_unread n)
            (map
              (λ n.
                if n.id == id && (for_user user_id org_id n && is_unread n)
                then record n { read_at = some now }
                else n)
              ns))
        + (if is_unread n then 1 else 0)
      ≡ length (select (λ n. for_user user_id org_id n && is_unread n) ns)
unfolding select find
read_once id user_id org_id now [] u n f = cc
read_once id user_id org_id now (m ∷ ns) u n f =
    ground (arith, read_once id user_id org_id now ns u.1 n, read_absent id user_id org_id now ns)

-- Ids being unique: when a user marks a notification as read, the count of what is unread goes
-- down by one if that one was unread, and else stays.
pub count_unread-mark_read :
    (now : Time) (id user_id org_id : Uid) (db : Db) (n : Notification)
    → UniqueKeys notification_id_of db.notifications
    → find_by_id_for_user id user_id org_id db ≡ some n
    → count_unread user_id org_id (mark_read now id user_id org_id db).1
        + (if is_unread n then 1 else 0)
      ≡ count_unread user_id org_id db
unfolding count_unread mark_read find_by_id_for_user
count_unread-mark_read now id user_id org_id db n u f =
    ground (arith, read_once id user_id org_id now db.notifications u n f)
