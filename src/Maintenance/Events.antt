-- ===== src/Maintenance/Events.antt =====
-- What each call of the service announces to the listeners.
mod Quiet
pub mod Loud
use towerdesk_backend.Common.{
  Bool, true, false, Option, none, some, List, [], ◌∷◌, ◌++◌, ◌≡◌, refl, if◌then◌else◌,
}
use towerdesk_backend.Store.{
  Db, Uid, Time, Text, Status, EventName, Event, request_created, request_assigned,
  request_status_changed, request_commented, request_canceled,
}
use towerdesk_backend.Maintenance.Calls.{Call}
use towerdesk_backend.Maintenance.Visibility.{is_ok}
use Loud.{names}
use Loud
use Quiet

-- The event of a call that succeeds.
abbrev pub announced : Call → Option EventName
announced (Call.create_resident _ _ _) = some request_created
announced (Call.cancel_resident _ _) = some request_canceled
announced (Call.comment_resident _ _ _ _) = some request_commented
announced (Call.assign _ _ _ _) = some request_assigned
announced (Call.set_status _ _ _ _) = some request_status_changed
announced (Call.cancel_building _ _ _) = some request_canceled
announced (Call.comment_building _ _ _ _ _) = some request_commented
announced _ = none
