-- ===== src/Notifications/Paging.antt =====
-- Following the cursors of the listing of notifications.
use towerdesk_backend.Common.{
  select_and, select_ext, select-true, select-UniqueKeys, ℕ, zero, suc, ◌≤◌, ◌<◌, Bool, true, not,
  Option, none, some, List, [], ◌∷◌, ◌++◌, ◌≡◌, refl, sym, ap, ◌∙◌, subst, inl, inr, nat_eq, ltb,
  length, select, All, sort_by, take, drop, last, take-drop, length-take, length-drop, take-take,
  take_all, last-take, UniqueKeys, Order, Strict, Strict-sort_by, select-sort_by, select_behind,
  arith, Bool-cases, ◌-◌, All-sort_by, All-kept,
}
use mathlib.Core.List.{append_assoc}
use towerdesk_backend.Store.{Uid, Text, Db, Action, ok, ◌>>=◌, pure, bind_ok}
use towerdesk_backend.Store.Notices.{Notification}
use towerdesk_backend.Scope.{is_truthy}
use towerdesk_backend.Notifications.Repo.{
  CursorInfo, ListOptions, later, is_past, is_listed, find_page,
}
use towerdesk_backend.Notifications.Service.{
  Codec, ListQuery, Page, page_limit, cut_page, cursor_info, encode_cursor, list_for_user,
  page_behind,
}
use towerdesk_backend.Notifications.Cursor.{CodecLaws, cursor_of, cursor_info-encode_cursor}

abbrev pub notification_id_of : Notification → ℕ
notification_id_of n = n.id

later-Order : Order later notification_id_of
later-Order = record {
  trans = λ a b c h k. ground arith;
  total = λ a b h. ground arith;
  tie = λ a b h k. ground arith;
}

abbrev pub listing : Uid → Uid → Bool → Bool → Db → List Notification
listing user_id org_id unread_only include_dismissed db =
    sort_by later (select (is_listed user_id org_id unread_only include_dismissed) db.notifications)

-- A page is cut from what comes behind the cursor.
find_page_lem :
    (user_id org_id : Uid) (options : ListOptions) (db : Db)
    → UniqueKeys notification_id_of db.notifications
    → find_page user_id org_id options db
      ≡ take options.rows (
          select
            (is_past options.cursor)
            (listing user_id org_id options.unread_only options.include_dismissed db))
unfolding find_page
find_page_lem user_id org_id options db u =
    ap (λ l. take options.rows (sort_by later l))
      (select_and (is_listed user_id org_id options.unread_only options.include_dismissed)
        (is_past options.cursor) db.notifications)
    ∙ ap (take options.rows) (
        sym (
          select-sort_by later notification_id_of later-Order (is_past options.cursor) _
            (select-UniqueKeys notification_id_of _ db.notifications u)))

-- Behind the cursor of a row of a listing comes the rest of the listing.
select-is_past :
    (n : Notification) (front rest : List Notification)
    → Strict later (front ++ n ∷ rest)
    → select (is_past (some (cursor_of n))) (front ++ n ∷ rest) ≡ rest
select-is_past n front rest h =
    select_ext _ (λ x. not (later x n)) (front ++ n ∷ rest) (λ x. ground arith)
    ∙ select_behind later notification_id_of later-Order n front rest h

page_limit-pos : (limit : Option ℕ) → (l : ℕ) × (page_limit limit ≡ suc l)
unfolding page_limit
page_limit-pos limit = (page_limit limit - 1, omega arith)

cut_whole :
    (encode : Notification → Text) (limit : ℕ) (rest : List Notification)
    → length rest ≤ limit
    → cut_page encode limit (take (suc limit) rest) ≡ record { items = rest; next_cursor = none }
unfolding cut_page
cut_whole encode limit rest h = rw (take_all (suc limit) rest (omega (arith, h))) (ground arith)

cut_part :
    (encode : Notification → Text) (l : ℕ) (rest : List Notification) (n : Notification)
    → suc l < length rest
    → last (take (suc l) rest) ≡ some n
    → cut_page encode (suc l) (take (suc (suc l)) rest)
      ≡ record { items = take (suc l) rest; next_cursor = some (encode n) }
unfolding cut_page
cut_part encode l rest n h e =
    ground (arith, length-take (suc (suc l)) rest, take-take (suc l) rest, e)

-- The items of a page, and what the next call brings.
unfoldable pub join_next : (Text → Action (List Notification)) → Page → Action (List Notification)
join_next next page = elim page.next_cursor [
  | none ↦ pure page.items
  | some cursor ↦ next cursor >>= λ rest. pure (page.items ++ rest)
]

-- A client that asks for page after page, at most as many as the fuel says.
unfoldable pub follow : Codec → ℕ → Uid → Uid → ListQuery → Action (List Notification)
unfolding join_next
follow codec zero user_id org_id query = pure []
follow codec (suc fuel) user_id org_id query =
    list_for_user codec user_id org_id query
    >>= join_next
        (λ cursor. follow codec fuel user_id org_id (record query { cursor = some cursor }))

module _ (codec : Codec) (laws : CodecLaws codec) (user_id org_id : Uid) (db : Db)
    (u : UniqueKeys notification_id_of db.notifications)
    (truthy : All (λ n. is_truthy n.id ≡ true) db.notifications) where
  -- One page, given what stands behind its cursor.
  page_lem :
      (query : ListQuery) (c : Option CursorInfo) (rest : List Notification)
      → cursor_info codec query.cursor db ≡ (ok c, db)
      → select (is_past c) (listing user_id org_id query.unread_only query.include_dismissed db)
        ≡ rest
      → list_for_user codec user_id org_id query db ≡ (
        ok (
            cut_page
              (encode_cursor codec)
              (page_limit query.limit)
              (take (suc (page_limit query.limit)) rest)),
        db,
      )
  unfolding list_for_user page_behind
  page_lem query c rest e s =
      bind_ok (cursor_info codec query.cursor) (page_behind codec user_id org_id query) db c db e
      ∙ ap (λ items. (ok (cut_page (encode_cursor codec) (page_limit query.limit) items), db))
          (find_page_lem user_id org_id
              (record {
                unread_only = query.unread_only;
                include_dismissed = query.include_dismissed;
                rows = suc (page_limit query.limit);
                cursor = c;
              })
              db u
            ∙ ap (take (suc (page_limit query.limit))) s)

  in_listing :
      (unread_only include_dismissed : Bool) (front rest : List Notification) (n : Notification)
      → listing user_id org_id unread_only include_dismissed db ≡ front ++ n ∷ rest
      → is_truthy n.id ≡ true
  in_listing unread_only include_dismissed front rest n e = at front (
      subst (All (λ n. is_truthy n.id ≡ true)) e
        (All-sort_by later _ _ (All-kept _ _ db.notifications truthy)))
    where
      at :
          (front : List Notification)
          → All (λ n. is_truthy n.id ≡ true) (front ++ n ∷ rest)
          → is_truthy n.id ≡ true
      at [] h = h.0
      at (x ∷ front) h = at front h.1

  Strict-listing :
      (unread_only include_dismissed : Bool)
      → Strict later (listing user_id org_id unread_only include_dismissed db)
  Strict-listing unread_only include_dismissed =
      Strict-sort_by later notification_id_of later-Order _
        (select-UniqueKeys notification_id_of _ db.notifications u)

  follow_rest :
      (fuel : ℕ) (query : ListQuery) (c : Option CursorInfo) (front rest : List Notification)
      → cursor_info codec query.cursor db ≡ (ok c, db)
      → listing user_id org_id query.unread_only query.include_dismissed db ≡ front ++ rest
      → select (is_past c) (listing user_id org_id query.unread_only query.include_dismissed db)
        ≡ rest
      → length rest < fuel
      → follow codec fuel user_id org_id query db ≡ (ok rest, db)
  unfolding follow join_next
  follow_rest zero query c front rest e k s h = absurd (omega arith)
  follow_rest (suc fuel) query c front rest e k s h =
      let (l, lim) = page_limit-pos query.limit in
      let page =
        page_lem query c rest e s
        ∙ ap (λ x. (ok (cut_page (encode_cursor codec) x (take (suc x) rest)), db)) lim in
      let next : Text → Action (List Notification) =
        λ cursor. follow codec fuel user_id org_id (record query { cursor = some cursor }) in
      elim (Bool-cases (ltb (suc l) (length rest))) [
        | inr short ↦ bind_ok (list_for_user codec user_id org_id query) (join_next next) db _ db (
            page
            ∙ ap (λ p. (ok p, db)) (cut_whole (encode_cursor codec) (suc l) rest (ground arith)))
        | inl long ↦
            let big : suc l < length rest = ground arith in
            let (before, n, at, split) = last-take l rest big in
            let query' : ListQuery = record query { cursor = some (encode_cursor codec n) } in
            let k' : listing user_id org_id query.unread_only query.include_dismissed db
                ≡ (front ++ before) ++ n ∷ drop (suc l) rest =
              k ∙ ap (λ x. front ++ x) split ∙ sym (append_assoc front before _) in
            let tail : follow codec fuel user_id org_id query' db ≡ (ok (drop (suc l) rest), db) =
              follow_rest fuel query' (some (cursor_of n)) (front ++ take (suc l) rest)
                (drop (suc l) rest)
                (cursor_info-encode_cursor codec laws n db
                  (in_listing query.unread_only query.include_dismissed (front ++ before) _ n k'))
                (k
                  ∙ ap (λ x. front ++ x) (sym (take-drop (suc l) rest))
                  ∙ sym (append_assoc front _ _))
                (ap (select _) k'
                  ∙ select-is_past n (front ++ before) (drop (suc l) rest) (
                      subst (Strict later) k'
                        (Strict-listing query.unread_only query.include_dismissed)))
                (omega (arith, length-drop (suc l) rest, big)) in
            bind_ok (list_for_user codec user_id org_id query) (join_next next) db _ db
              (page ∙ ap (λ p. (ok p, db)) (cut_part (encode_cursor codec) l rest n big at))
            ∙ bind_ok (follow codec fuel user_id org_id query') (λ x. pure (take (suc l) rest ++ x))
                db _ db tail
            ∙ ap (λ x. (ok x, db)) (take-drop (suc l) rest)
      ]

  -- Ids being unique and not empty, and given the laws of the encodings: a client that starts
  -- without a cursor and follows the cursors, with one call to spare for each row of its listing,
  -- sees the whole listing, in its order, each row once; and nothing is written.
  pub follow_lem :
      (fuel : ℕ) (query : ListQuery)
      → query.cursor ≡ none
      → length (listing user_id org_id query.unread_only query.include_dismissed db) < fuel
      → follow codec fuel user_id org_id query db
        ≡ (ok (listing user_id org_id query.unread_only query.include_dismissed db), db)
  unfolding cursor_info
  follow_lem fuel query e h =
      follow_rest fuel query none [] _ (ap (λ x. cursor_info codec x db) e) refl (select-true _) h
