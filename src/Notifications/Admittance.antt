-- ===== src/Notifications/Admittance.antt =====
-- Which sockets the gateway lets into a room.
use towerdesk_backend.Common.{
  ℕ, true, false, Option, some, ◌≡◌, refl, arith, Option-cases, inl, inr,
}
use towerdesk_backend.Store.{Uid, Text, User, Db, ok, err, Result, bind-ok}
use towerdesk_backend.Scope.{AuthenticatedUser, truthy}
use towerdesk_backend.Org.{find_user}
use towerdesk_backend.Auth.{Crypto, JwtPayload, verify_access_token, validate_payload}
use towerdesk_backend.Auth.Identity.{MayAct, validate_payload-MayAct}
use towerdesk_backend.Notifications.Gateway.{
  authenticating, Socket, is_counted, settle, resume, admit, authenticate, disconnect,
  handle_disconnect,
}

verify-ok :
    (crypto : Crypto) (token : Text) (db : Db) (payload : JwtPayload)
    → (verify_access_token crypto token db).0 ≡ ok payload
    → (crypto.verify_access token ≡ some payload) × ((verify_access_token crypto token db).1 ≡ db)
unfolding verify_access_token
verify-ok crypto token db payload h = (ground arith, ground arith)

-- A socket that is let in was accepted, for a user with an organisation.
admit-ok :
    (r : Result AuthenticatedUser) (s : Socket) (count : ℕ)
    → is_counted s ≡ false
    → is_counted (admit r (s, count)).0 ≡ true
    → (a : AuthenticatedUser) × (org_id : Uid) × (r ≡ ok a)
      × (a.org_id ≡ some org_id)
      × ((admit r (s, count)).0.user_id ≡ some a.sub)
      × ((admit r (s, count)).0.org_id ≡ some org_id)
unfolding admit disconnect handle_disconnect
admit-ok (err e) s count n c = ground arith
admit-ok (ok a) s count n c = elim (Option-cases (truthy a.org_id)) [
  | inl e ↦ ground arith
  | inr (org_id, e) ↦ (a, org_id, refl, ground arith, ground arith, ground arith)
]

-- A socket that waits for its authentication, and whose data the next step fills in, holds a token
-- of a stored user who is active, and its data name that user and an organisation in which the
-- user may act.
pub resume-MayAct :
    (crypto : Crypto) (db : Db) (s : Socket) (count : ℕ) (token : Text) (override : Option Uid)
    → s.phase ≡ authenticating token override
    → is_counted s ≡ false
    → is_counted (resume crypto db (s, count)).0 ≡ true
    → (payload : JwtPayload) × (x : User) × (org_id : Uid) × (crypto.verify_access token
        ≡ some payload)
      × (find_user payload.sub db ≡ some x)
      × (x.is_active ≡ true)
      × ((resume crypto db (s, count)).0.user_id ≡ some x.id)
      × ((resume crypto db (s, count)).0.org_id ≡ some org_id)
      × MayAct db x override (some org_id)
unfolding resume
resume-MayAct crypto db s count token override p n c =
    let r = authenticate crypto token override db in
    let c' : is_counted (admit r.0 (settle s, count)).0 ≡ true = ground arith in
    let (a, org_id, v, o, u, g) = admit-ok r.0 (settle s) count n c' in
    let (payload, k, w) =
      bind-ok (verify_access_token crypto token) (λ p. validate_payload p override) db a v in
    let (t, same) = verify-ok crypto token db payload k in
    let w' : (validate_payload payload override db).0 ≡ ok a = ground arith in
    let (x, e, active, i, may) = validate_payload-MayAct payload override db a w' in
    (payload, x, org_id, t, e, active, ground arith, ground arith, rw (← o) may)
