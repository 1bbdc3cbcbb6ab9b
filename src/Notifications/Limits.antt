-- ===== src/Notifications/Limits.antt =====
-- How long a page is.
use towerdesk_backend.Common.{
  ℕ, suc, ◌≤◌, min, max, true, Option, List, ◌≡◌, nat_eq, is_some, length, length-take, arith,
  or_default,
}
use towerdesk_backend.Store.{Uid, Text, Db, Result, ok, err}
use towerdesk_backend.Store.Notices.{Notification}
use towerdesk_backend.Notifications.Repo.{CursorInfo, find_page}
use towerdesk_backend.Notifications.Service.{
  Codec, ListQuery, Page, page_limit, cut_page, cursor_info, encode_cursor, list_for_user,
  page_behind,
}

cut_page_bounds :
    (encode : Notification → Text) (limit : ℕ) (items : List Notification)
    → (length (cut_page encode limit items).items ≤ limit)
      × (is_some (cut_page encode limit items).next_cursor ≡ true
          → length (cut_page encode limit items).items ≡ limit)
unfolding cut_page
cut_page_bounds encode limit items = ground (arith, length-take limit items)

-- A page has at most as many items as were asked for, 20 if nothing was asked; it has 100 at most;
-- and where it has a cursor to go on with, it is as full as that allows.
pub list_for_user_bounds :
    (codec : Codec) (user_id org_id : Uid) (query : ListQuery) (db : Db) (page : Page)
    → (list_for_user codec user_id org_id query db).0 ≡ ok page
    → (length page.items ≤ max (or_default query.limit 20) 1)
      × (length page.items ≤ 100)
      × (is_some page.next_cursor ≡ true
          → length page.items ≡ min (max (or_default query.limit 20) 1) 100)
unfolding list_for_user page_behind page_limit
list_for_user_bounds codec user_id org_id query db page h = go (cursor_info codec query.cursor db) h
  where
    go :
        (r : Result (Option CursorInfo) × Db)
        → (elim r.0 as (λ _. Result Page × Db) [
          | ok c ↦ page_behind codec user_id org_id query c r.1
          | err e ↦ (err e, r.1)
        ]).0
          ≡ ok page
        → (length page.items ≤ max (or_default query.limit 20) 1)
          × (length page.items ≤ 100)
          × (is_some page.next_cursor ≡ true
              → length page.items ≡ min (max (or_default query.limit 20) 1) 100)
    go (err e, db') k = cc
    go (ok c, db') k =
        let b = cut_page_bounds (encode_cursor codec) (page_limit query.limit) (
          find_page user_id org_id
            (record {
              unread_only = query.unread_only;
              include_dismissed = query.include_dismissed;
              rows = suc (page_limit query.limit);
              cursor = c;
            })
            db') in
        ground arith
