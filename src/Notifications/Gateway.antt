-- ===== src/Notifications/Gateway.antt =====
-- notifications.gateway.ts. `handleConnection` waits for the authentication and for the count of
-- the unread notifications, so it runs in three steps, between which other sockets, and the end of
-- the same connection, may come. A lost database connection is left out.
use towerdesk_backend.Common.{
  ℕ, suc, ◌-◌, Bool, true, false, Option, none, some, List, [], ◌∷◌, ◌&&◌, ◌==◌, nat_eq, is_empty,
  is_some, split_on, trim, if◌then◌else◌,
}
use towerdesk_backend.Store.{Uid, Text, Db, Action, Result, ok, err, ◌>>=◌}
use towerdesk_backend.Scope.{AuthenticatedUser, truthy}
use towerdesk_backend.Auth.{
  Crypto, RawValue, absent, text_value, other_value, array_value, bearer, parse_org_id_override,
  verify_access_token, validate_payload,
}
use towerdesk_backend.Notifications.Repo.{count_unread}

-- What the gateway reads of `client.handshake`.
pub record Handshake : Type 0 where
  pub authorization : RawValue
  pub auth_token : RawValue
  pub query_token : RawValue
  pub auth_org_id : RawValue
  pub query_org_id : RawValue

-- The text without the space around it, if any is left.
abbrev pub trimmed : Text → Option Text
trimmed raw = if is_empty (trim raw) then none else some (trim raw)

abbrev pub header_token : RawValue → Option Text
header_token (text_value raw) = elim (bearer (split_on 32 raw)) [
  | none ↦ none
  | some token ↦ some (trim token)
]
header_token _ = none

abbrev pub auth_token_of : RawValue → Option Text
auth_token_of (text_value raw) = trimmed raw
auth_token_of _ = none

abbrev pub query_token_of : RawValue → Option Text
query_token_of (text_value raw) = trimmed raw
query_token_of (array_value (some raw)) = trimmed raw
query_token_of _ = none

-- `extractToken`
unfoldable pub extract_token : Handshake → Option Text
extract_token h = elim (header_token h.authorization) [
  | some token ↦ some token
  | none ↦ elim (auth_token_of h.auth_token) [
    | some token ↦ some token
    | none ↦ query_token_of h.query_token
  ]
]

-- `extractOrgId`: what the handshake's `auth` holds goes before the query.
unfoldable pub extract_org_id : Handshake → Action (Option Text)
unfolding parse_org_id_override
extract_org_id h = elim h.auth_org_id [
  | absent ↦ parse_org_id_override h.query_org_id
  | text_value raw ↦ parse_org_id_override (text_value raw)
  | other_value ↦ parse_org_id_override other_value
  | array_value first ↦ parse_org_id_override (array_value first)
]

-- What `handleConnection` waits for: the authentication, the count, or nothing more.
pub data Phase : Type 0 where
  authenticating : Text → Option Uid → Phase
  counting : Uid → Uid → Phase
  settled : Phase

-- A socket: `client.data`, its rooms, and what was emitted as `notifications:hello`. A room is
-- named by an organisation and a user.
pub record Socket : Type 0 where
  pub id : Uid
  pub user_id : Option Uid
  pub org_id : Option Uid
  pub rooms : List (Uid × Uid)
  pub connected : Bool
  pub phase : Phase
  pub hello : Option ℕ

-- A socket, and `connectedCount`.
abbrev pub Counted : Type 0
Counted = Socket × ℕ

-- `client.data?.userId && client.data?.orgId`
abbrev pub is_counted : Socket → Bool
is_counted s = is_some (truthy s.user_id) && is_some (truthy s.org_id)

-- `handleDisconnect`
unfoldable pub handle_disconnect : Counted → Counted
handle_disconnect (s, count) =
    (record s { user_id = none; org_id = none }, if is_counted s then count - 1 else count)

-- `client.disconnect()`, and the end of the connection: the socket leaves its rooms, and the
-- gateway is told once.
unfoldable pub disconnect : Counted → Counted
unfolding handle_disconnect
disconnect (s, count) =
    if s.connected
    then handle_disconnect (record s { connected = false; rooms = [] }, count)
    else (s, count)

abbrev pub settle : Socket → Socket
settle s = record s { phase = settled }

abbrev pub opened : Uid → Socket
opened id = record {
  id = id;
  user_id = none;
  org_id = none;
  rooms = [];
  connected = true;
  phase = settled;
  hello = none;
}

-- What follows the reading of the organisation; `id_of_text` reads the id that a text is.
unfoldable pub wait_for : (Text → Uid) → Text → Result (Option Text) → Counted → Counted
unfolding disconnect
wait_for id_of_text token (err _) (s, count) = disconnect (s, count)
wait_for id_of_text token (ok none) (s, count) =
    (record s { phase = authenticating token none }, count)
wait_for id_of_text token (ok (some text)) (s, count) =
    (record s { phase = authenticating token (some (id_of_text text)) }, count)

-- `handleConnection`, up to the authentication
unfoldable pub connect : (Text → Uid) → Db → Handshake → Counted → Counted
unfolding disconnect wait_for
connect id_of_text db h (s, count) = elim (extract_token h) [
  | none ↦ disconnect (s, count)
  | some token ↦
      if is_empty token
      then disconnect (s, count)
      else wait_for id_of_text token (extract_org_id h db).0 (s, count)
]

-- What follows the authentication.
unfoldable pub admit : Result AuthenticatedUser → Counted → Counted
unfolding disconnect
admit (err _) (s, count) = disconnect (s, count)
admit (ok user) (s, count) = elim (truthy user.org_id) [
  | none ↦ disconnect (s, count)
  | some org_id ↦ (
    record s {
      user_id = some user.sub;
      org_id = some org_id;
      rooms = (org_id, user.sub) ∷ s.rooms;
      phase = counting user.sub org_id;
    },
    suc count,
  )
]

abbrev pub authenticate : Crypto → Text → Option Uid → Action AuthenticatedUser
authenticate crypto token override =
    verify_access_token crypto token >>= λ payload. validate_payload payload override

-- From the authentication up to the count.
unfoldable pub resume : Crypto → Db → Counted → Counted
unfolding verify_access_token validate_payload admit
resume crypto db (s, count) = elim s.phase [
  | authenticating token override ↦
      admit (authenticate crypto token override db).0 (settle s, count)
  | counting _ _ ↦ (s, count)
  | settled ↦ (s, count)
]

-- From the count on; an emission to a closed socket is lost.
unfoldable pub greet : Db → Counted → Counted
unfolding count_unread
greet db (s, count) = elim s.phase [
  | counting user_id org_id ↦ (
    record s {
      phase = settled;
      hello = if s.connected then some (count_unread user_id org_id db) else s.hello;
    },
    count,
  )
  | authenticating _ _ ↦ (s, count)
  | settled ↦ (s, count)
]

-- What happens to the gateway, each time with the database of that moment.
pub data GatewayEvent : Type 0 where
  connects : Db → Uid → Handshake → GatewayEvent
  resumes : Db → Uid → GatewayEvent
  greets : Db → Uid → GatewayEvent
  closes : Uid → GatewayEvent

pub record Gateway : Type 0 where
  pub connected_count : ℕ
  pub sockets : List Socket

-- A step of the socket with the id.
unfoldable pub at_socket : Uid → (Counted → Counted) → List Socket → ℕ → List Socket × ℕ
at_socket id f [] count = ([], count)
at_socket id f (s ∷ ss) count =
    let rest = at_socket id f ss count in
    let (s', count') = f (s, count) in
    if s.id == id then (s' ∷ ss, count') else (s ∷ rest.0, rest.1)

abbrev pub with_sockets : List Socket × ℕ → Gateway
with_sockets (sockets, count) = record { connected_count = count; sockets = sockets }

module _ (crypto : Crypto) (id_of_text : Text → Uid) where
  unfoldable pub step : GatewayEvent → Gateway → Gateway
  unfolding connect resume greet disconnect at_socket
  step (connects db id h) g =
      let (s, count) = connect id_of_text db h (opened id, g.connected_count) in
      record { connected_count = count; sockets = s ∷ g.sockets }
  step (resumes db id) g =
      with_sockets (at_socket id (resume crypto db) g.sockets g.connected_count)
  step (greets db id) g = with_sockets (at_socket id (greet db) g.sockets g.connected_count)
  step (closes id) g = with_sockets (at_socket id disconnect g.sockets g.connected_count)

  unfoldable pub run_gateway : List GatewayEvent → Gateway → Gateway
  unfolding step
  run_gateway [] g = g
  run_gateway (event ∷ events) g = run_gateway events (step event g)

abbrev pub new_gateway : Gateway
new_gateway = record { connected_count = 0; sockets = [] }
