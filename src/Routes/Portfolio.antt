-- ===== src/Routes/Portfolio.antt =====
-- src/modules/buildings/buildings.controller.ts.
use towerdesk_backend.Common.{false, Option, [], ◌∷◌}
use towerdesk_backend.Store.{Uid, Time, Action}
use towerdesk_backend.Scope.{AuthenticatedUser, read, Request}
use towerdesk_backend.Estate.{
  CreateBuildingDto, create_building, list_buildings, list_assigned, get_building,
}
use towerdesk_backend.Maintenance.{done}
use towerdesk_backend.Routes.Pipeline.{
  jwt_auth, org_scope, permissions, Route, guarded_by, plain_route, plain_request, decorated,
  building_route, at_building, serve,
}

pub data PortfolioCall : Type 0 where
  create : Uid → Time → CreateBuildingDto → PortfolioCall
  list assigned : PortfolioCall
  get_by_id : Uid → PortfolioCall

-- The guards of the class and of the method: those of `getById` are the same as below a building.
unfoldable pub portfolio_route : PortfolioCall → Route
portfolio_route (create _ _ _) =
    plain_route (guarded_by (jwt_auth ∷ org_scope ∷ permissions ∷ []) ("buildings.write" ∷ []))
portfolio_route list =
    plain_route (guarded_by (jwt_auth ∷ org_scope ∷ permissions ∷ []) ("buildings.read" ∷ []))
portfolio_route assigned = plain_route (guarded_by (jwt_auth ∷ org_scope ∷ []) [])
portfolio_route (get_by_id _) = building_route (decorated read false "buildings.read")

unfoldable pub portfolio_handler : Option AuthenticatedUser → PortfolioCall → Action (Unit {0})
portfolio_handler user (create id now dto) = done (create_building id now user dto)
portfolio_handler user list = done (list_buildings user)
portfolio_handler user assigned = done (list_assigned user)
portfolio_handler user (get_by_id building_id) = done (get_building user building_id)

unfoldable pub portfolio_request : Option AuthenticatedUser → PortfolioCall → Request
portfolio_request user (get_by_id building_id) = at_building user building_id
portfolio_request user _ = plain_request user

-- A call of one of these routes, as the application answers it.
unfoldable pub answer_portfolio : Option AuthenticatedUser → PortfolioCall → Action (Unit {0})
unfolding serve portfolio_route portfolio_request portfolio_handler
answer_portfolio user call =
    serve (portfolio_route call) (portfolio_request user call) (λ user. portfolio_handler user call)
