-- ===== src/Notifications/Leak.antt =====
-- A connection that ends before the gateway has checked its token.
use towerdesk_backend.Common.{ℕ, suc, true, false, Option, some, ◌≡◌, arith}
use towerdesk_backend.Store.{Uid, Text, Db, ok}
use towerdesk_backend.Scope.{AuthenticatedUser, truthy}
use towerdesk_backend.Auth.{Crypto}
use towerdesk_backend.Notifications.Gateway.{
  authenticating, Socket, is_counted, resume, admit, authenticate, disconnect, handle_disconnect,
}

-- A socket that closes while its token is being checked, not counted so far, and whose token is
-- then accepted for a user with an organisation, raises `connectedCount` by one although it is
-- closed, and closing it again does not take it off.
pub late_resume :
    (crypto : Crypto) (db : Db) (s : Socket) (count : ℕ) (token : Text) (override : Option Uid)
    (a : AuthenticatedUser) (org_id : Uid)
    → s.phase ≡ authenticating token override
    → s.connected ≡ true
    → is_counted s ≡ false
    → (authenticate crypto token override db).0 ≡ ok a
    → truthy a.org_id ≡ some org_id
    → ((resume crypto db (disconnect (s, count))).1 ≡ suc count)
      × ((resume crypto db (disconnect (s, count))).0.connected ≡ false)
      × (disconnect (resume crypto db (disconnect (s, count)))
          ≡ resume crypto db (disconnect (s, count)))
unfolding resume admit disconnect handle_disconnect
late_resume crypto db s count token override a org_id p c n v o =
    (ground arith, ground arith, ground arith)
