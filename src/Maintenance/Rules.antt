-- ===== src/Maintenance/Rules.antt =====
-- maintenance-requests.constants.ts, and the private normalisers of the service.
use towerdesk_backend.Common.{
  Bool, String, Option, none, some, List, [], ◌∷◌, ◌==◌, string_eq, includes, if◌then◌else◌, ◌||◌,
}
use towerdesk_backend.Store.{
  Status, open_, assigned, in_progress, completed, canceled, status_eq, Priority, low, normal, high,
  RequestType, cleaning, electrical, maintenance, plumbing_ac_heating, other,
}

-- `MAINTENANCE_STATUS_TRANSITIONS`
unfoldable pub status_transitions : Status → List Status
status_transitions open_ = assigned ∷ []
status_transitions assigned = in_progress ∷ []
status_transitions in_progress = completed ∷ []
status_transitions completed = []
status_transitions canceled = []

-- `MAINTENANCE_STATUS_TRANSITIONS[current]?.includes(next)`
unfoldable pub may_become : Status → Status → Bool
unfolding status_transitions includes
may_become current next = includes (status_transitions current) next

-- `status === COMPLETED || status === CANCELED`
abbrev pub is_closed : Status → Bool
is_closed status = status == completed || status == canceled

-- `normalizePriority`; the empty string falls through to `undefined` too
unfoldable pub normalize_priority : Option String → Option Priority
normalize_priority none = none
normalize_priority (some value) =
    if value == "LOW"
    then some low
    else if value == "MEDIUM"
    then some normal
    else if value == "HIGH"
    then some high
    else none

-- `normalizeType`
unfoldable pub normalize_type : Option String → Option RequestType
normalize_type none = none
normalize_type (some value) =
    if value == "CLEANING"
    then some cleaning
    else if value == "ELECTRICAL"
    then some electrical
    else if value == "MAINTENANCE"
    then some maintenance
    else if value == "PLUMBING_AC_HEATING"
    then some plumbing_ac_heating
    else if value == "OTHER"
    then some other
    else none
