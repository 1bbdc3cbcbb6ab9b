-- ===== src/Notifications/Cursor.antt =====
-- Writing a cursor and reading it.
use towerdesk_backend.Common.{
  ℕ, true, false, none, some, [], ◌∷◌, ◌++◌, ◌≡◌, refl, sym, ap, ◌∙◌, is_empty, Lacks,
  split_on_joined, arith,
}
use towerdesk_backend.Store.{Uid, Time, Text, Db, ok}
use towerdesk_backend.Store.Notices.{Notification}
use towerdesk_backend.Scope.{is_truthy}
use towerdesk_backend.Notifications.Repo.{CursorInfo}
use towerdesk_backend.Notifications.Service.{
  Codec, bar, encode_cursor, decode_cursor, read_parts, cursor_info,
}

-- What is known of base64 and of ISO dates. The text of an id has no bar, as a UUID has none.
pub record CodecLaws (codec : Codec) : Type 0 where
  pub base64 : (t : Text) → codec.from_base64 (codec.to_base64 t) ≡ t
  pub base64_empty : codec.from_base64 [] ≡ []
  pub date : (t : Time) → codec.parse_date (codec.to_iso t) ≡ some t
  pub date_empty : codec.parse_date [] ≡ none
  pub date_Lacks : (t : Time) → Lacks bar (codec.to_iso t)
  pub id : (i : Uid) → codec.id_of_text (codec.text_of_id i) ≡ i
  pub id_empty : codec.id_of_text [] ≡ 0
  pub id_Lacks : (i : Uid) → Lacks bar (codec.text_of_id i)

abbrev pub cursor_of : Notification → CursorInfo
cursor_of n = record { id = n.id; created_at = n.created_at }

module _ (codec : Codec) (laws : CodecLaws codec) where
  date_full : (t : Time) (s : Text) → codec.to_iso t ≡ s → is_empty s ≡ false
  date_full t [] e = ground (arith, laws.date t, laws.date_empty, ap codec.parse_date e)
  date_full t (c ∷ s) e = refl

  id_full : (i : Uid) (s : Text) → is_truthy i ≡ true → codec.text_of_id i ≡ s → is_empty s ≡ false
  id_full i [] h e = ground (arith, laws.id i, laws.id_empty, ap codec.id_of_text e)
  id_full i (c ∷ s) h e = refl

  -- Given the laws of the encodings, the cursor of a row with an id is read back as the row's id
  -- and time of creation.
  pub decode_cursor-encode_cursor :
      (n : Notification) (db : Db)
      → is_truthy n.id ≡ true
      → decode_cursor codec (encode_cursor codec n) db ≡ (ok (cursor_of n), db)
  unfolding decode_cursor encode_cursor read_parts
  decode_cursor-encode_cursor n db h =
      let parts =
        split_on_joined bar (codec.to_iso n.created_at) (codec.text_of_id n.id)
          (laws.date_Lacks n.created_at) (laws.id_Lacks n.id) in
      rw
        (
          laws.base64,
          parts,
          date_full n.created_at (codec.to_iso n.created_at) refl,
          id_full n.id (codec.text_of_id n.id) h refl,
          laws.date,
          laws.id,
        )
        refl

  encode_full : (n : Notification) (s : Text) → encode_cursor codec n ≡ s → is_empty s ≡ false
  unfolding encode_cursor
  encode_full n [] e =
      absurd_empty (codec.to_iso n.created_at) (codec.text_of_id n.id)
        (sym (laws.base64 _) ∙ ap codec.from_base64 e ∙ laws.base64_empty)
    where
      absurd_empty : (s t : Text) → s ++ bar ∷ t ≡ [] → is_empty {A = ℕ} [] ≡ false
      absurd_empty [] t h = cc
      absurd_empty (c ∷ s) t h = cc
  encode_full n (c ∷ s) e = refl

  pub cursor_info-encode_cursor :
      (n : Notification) (db : Db)
      → is_truthy n.id ≡ true
      → cursor_info codec (some (encode_cursor codec n)) db ≡ (ok (some (cursor_of n)), db)
  unfolding cursor_info
  cursor_info-encode_cursor n db h =
      ground (arith, encode_full n (encode_cursor codec n) refl, decode_cursor-encode_cursor n db h)
