-- ===== src/Notifications/Connections.antt =====
-- What `connectedCount` counts, and which sockets stay open.
use towerdesk_backend.Common.{
  ℕ, ◌+◌, ◌≤◌, Bool, true, false, Option, none, some, List, [], ◌∷◌, ◌≡◌, refl, ◌&&◌, ◌||◌, ◌==◌,
  nat_eq, not, every, find, is_empty, if◌then◌else◌, arith, Bool-cases, Option-cases, inl, inr, All,
}
use towerdesk_backend.Store.{Uid, Text, User, Db, Result, ok, err}
use towerdesk_backend.Scope.{is_truthy, truthy, AuthenticatedUser}
use towerdesk_backend.Org.{find_user}
use towerdesk_backend.Auth.{Crypto, verify_access_token, validate_payload}
use towerdesk_backend.Notifications.Gateway.{
  Handshake, Phase, authenticating, counting, settled, Socket, Counted, is_counted,
  handle_disconnect, disconnect, opened, connect, resume, greet, GatewayEvent, connects, resumes,
  greets, closes, Gateway, settle, admit, authenticate, at_socket, step, run_gateway, with_sockets,
  extract_token, wait_for, extract_org_id,
}

abbrev weight : Socket → ℕ
weight s = if is_counted s then 1 else 0

-- How many sockets have a user and an organisation in their data.
unfoldable pub counted_sockets : List Socket → ℕ
counted_sockets [] = 0
counted_sockets (s ∷ ss) = weight s + counted_sockets ss

-- The room is that of the user and the organisation in the data.
abbrev pub is_room_of : Socket → Uid × Uid → Bool
is_room_of s (org_id, user_id) = elim s.user_id [
  | none ↦ false
  | some u ↦ elim s.org_id [ none ↦ false | some o ↦ u == user_id && o == org_id ]
]

-- A socket that is not past its authentication has no user and is in no room; one that is past
-- it, if it is still connected, has a user and an organisation, and is in no room but theirs.
abbrev pub is_sound : Socket → Bool
is_sound s = elim s.phase [
  | authenticating _ _ ↦ not (is_counted s) && (not s.connected || is_empty s.rooms)
  | counting _ _ ↦ not s.connected || (is_counted s && every (is_room_of s) s.rooms)
  | settled ↦ not s.connected || (is_counted s && every (is_room_of s) s.rooms)
]

-- The ids of the stored users are not empty.
abbrev pub HasIds : Db → Type 0
HasIds db = every (λ (u : User). is_truthy u.id) db.users ≡ true

-- A step of a socket keeps it sound, and the count counts it before and after.
abbrev Counts : (Counted → Counted) → Type 0
Counts f =
    (s : Socket) (count : ℕ)
    → is_sound s ≡ true
    → weight s ≤ count
    → (is_sound (f (s, count)).0 ≡ true)
      × ((f (s, count)).1 + weight s ≡ count + weight (f (s, count)).0)

disconnect-Counts : Counts disconnect
unfolding disconnect handle_disconnect every
disconnect-Counts s count h w = (ground arith, ground arith)

greet-Counts : (db : Db) → Counts (greet db)
unfolding greet every
greet-Counts db s count h w = (ground arith, ground arith)

find-every :
    {A : Type 0} (p q : A → Bool) (l : List A) (a : A)
    → every p l ≡ true
    → find q l ≡ some a
    → p a ≡ true
unfolding find every
find-every p q [] a h f = cc
find-every p q (x ∷ l) a h f = ground (arith, find-every p q l a)

-- Whom a token is accepted for has an id.
accepted-HasIds :
    (crypto : Crypto) (token : Text) (override : Option Uid) (db : Db) (a : AuthenticatedUser)
    → HasIds db
    → (authenticate crypto token override db).0 ≡ ok a
    → is_truthy a.sub ≡ true
unfolding verify_access_token validate_payload find_user
accepted-HasIds crypto token override db a h v = elim (Option-cases (crypto.verify_access token)) [
  | inl e ↦ ground (arith, e)
  | inr (payload, e) ↦ elim (Option-cases (find_user payload.sub db)) [
    | inl n ↦ ground (arith, e, n)
    | inr (x, f) ↦ ground (
      arith,
      e,
      f,
      find-every (λ (u : User). is_truthy u.id) (λ u. u.id == payload.sub) db.users x h f,
    )
  ]
]

admit-Counts :
    (r : Result AuthenticatedUser) (s : Socket) (count : ℕ)
    → ((a : AuthenticatedUser) → r ≡ ok a → is_truthy a.sub ≡ true)
    → s.phase ≡ settled
    → is_counted s ≡ false
    → (not s.connected || is_empty s.rooms) ≡ true
    → (is_sound (admit r (s, count)).0 ≡ true)
      × ((admit r (s, count)).1 + weight s ≡ count + weight (admit r (s, count)).0)
unfolding admit disconnect handle_disconnect every
admit-Counts (err e) s count t p c r = (ground arith, ground arith)
admit-Counts (ok a) s count t p c r = elim (Option-cases (truthy a.org_id)) [
  | inl n ↦ (ground arith, ground arith)
  | inr (o, e) ↦ (ground (arith, t a refl), ground (arith, t a refl))
]

resume_in :
    (crypto : Crypto) (db : Db) (ids : HasIds db) (p : Phase) (s : Socket) (count : ℕ)
    → s.phase ≡ p
    → is_sound s ≡ true
    → weight s ≤ count
    → (is_sound (resume crypto db (s, count)).0 ≡ true)
      × ((resume crypto db (s, count)).1 + weight s
          ≡ count + weight (resume crypto db (s, count)).0)
unfolding resume
resume_in crypto db ids (authenticating token override) s count p h w =
    let (a, b) =
      admit-Counts (authenticate crypto token override db).0 (settle s) count
        (λ a. accepted-HasIds crypto token override db a ids) refl (ground arith) (ground arith) in
    rw p (a, b)
resume_in crypto db ids (counting u o) s count p h w = (ground arith, ground arith)
resume_in crypto db ids settled s count p h w = (ground arith, ground arith)

resume-Counts : (crypto : Crypto) (db : Db) → HasIds db → Counts (resume crypto db)
resume-Counts crypto db ids s count = resume_in crypto db ids s.phase s count refl

wait_for-Counts :
    (id_of_text : Text → Uid) (token : Text) (o : Result (Option Text)) (id : Uid) (count : ℕ)
    → let r = wait_for id_of_text token o (opened id, count) in
      (is_sound r.0 ≡ true) × (r.1 ≡ count + weight r.0)
unfolding wait_for disconnect handle_disconnect
wait_for-Counts id_of_text token (err _) id count = (refl, ground arith)
wait_for-Counts id_of_text token (ok none) id count = (refl, ground arith)
wait_for-Counts id_of_text token (ok (some text)) id count = (refl, ground arith)

connect-Counts :
    (id_of_text : Text → Uid) (db : Db) (h : Handshake) (id : Uid) (count : ℕ)
    → let r = connect id_of_text db h (opened id, count) in
      (is_sound r.0 ≡ true) × (r.1 ≡ count + weight r.0)
unfolding connect disconnect handle_disconnect
connect-Counts id_of_text db h id count = elim (Option-cases (extract_token h)) [
  | inl n ↦ rw (n, connect) (refl, ground arith)
  | inr (token, e) ↦ elim (Bool-cases (is_empty token)) [
    | inl b ↦ rw (e, b, connect) (refl, ground arith)
    | inr b ↦ rw (e, b, connect) (wait_for-Counts id_of_text token (extract_org_id h db).0 id count)
  ]
]

at_socket-Counts :
    (id : Uid) (f : Counted → Counted) (c : Counts f) (ss : List Socket) (count : ℕ)
    → every is_sound ss ≡ true
    → counted_sockets ss ≤ count
    → let r = at_socket id f ss count in
      (every is_sound r.0 ≡ true) × (r.1 + counted_sockets ss ≡ count + counted_sockets r.0)
unfolding at_socket every counted_sockets
at_socket-Counts id f c [] count h w = (refl, refl)
at_socket-Counts id f c (s ∷ ss) count h w =
    let (sound, kept) = c s count (ground arith) (ground arith) in
    let (sounds, keeps) = at_socket-Counts id f c ss count (ground arith) (ground arith) in
    (ground arith, ground arith)

-- The database of the event, if it reads one, has users with ids.
abbrev pub ReadsIds : GatewayEvent → Type 0
ReadsIds (connects db _ _) = HasIds db
ReadsIds (resumes db _) = HasIds db
ReadsIds (greets db _) = HasIds db
ReadsIds (closes _) = Unit

-- The count is that of the sockets with a user and an organisation, and each socket is sound.
abbrev pub IsCounted : Gateway → Type 0
IsCounted g = (every is_sound g.sockets ≡ true) × (g.connected_count ≡ counted_sockets g.sockets)

moved-IsCounted :
    (id : Uid) (f : Counted → Counted) (c : Counts f) (g : Gateway)
    → IsCounted g
    → IsCounted (with_sockets (at_socket id f g.sockets g.connected_count))
moved-IsCounted id f c g (h, w) =
    let (sounds, keeps) = at_socket-Counts id f c g.sockets g.connected_count h (ground arith) in
    (sounds, ground arith)

step-IsCounted :
    (crypto : Crypto) (id_of_text : Text → Uid) (event : GatewayEvent) (g : Gateway)
    → ReadsIds event
    → IsCounted g
    → IsCounted (step crypto id_of_text event g)
unfolding step every counted_sockets
step-IsCounted crypto id_of_text (connects db id h) g ids (sounds, w) =
    let (sound, kept) = connect-Counts id_of_text db h id g.connected_count in
    (ground arith, ground arith)
step-IsCounted crypto id_of_text (resumes db id) g ids i =
    moved-IsCounted id (resume crypto db) (resume-Counts crypto db ids) g i
step-IsCounted crypto id_of_text (greets db id) g ids i =
    moved-IsCounted id (greet db) (greet-Counts db) g i
step-IsCounted crypto id_of_text (closes id) g ids i =
    moved-IsCounted id disconnect disconnect-Counts g i

-- However the connections of a gateway interleave, as long as the stored users have ids, these two
-- go on to hold: `connectedCount` is the number of sockets with a user and an organisation in
-- their data; and a socket that is past its authentication and still connected has both, and is in
-- no room but theirs.
pub run_gateway-IsCounted :
    (crypto : Crypto) (id_of_text : Text → Uid) (events : List GatewayEvent) (g : Gateway)
    → All ReadsIds events
    → IsCounted g
    → IsCounted (run_gateway crypto id_of_text events g)
unfolding run_gateway
run_gateway-IsCounted crypto id_of_text [] g r i = i
run_gateway-IsCounted crypto id_of_text (event ∷ events) g (r, rs) i =
    run_gateway-IsCounted crypto id_of_text events (step crypto id_of_text event g) rs
      (step-IsCounted crypto id_of_text event g r i)
