-- ===== src/Tests/Sockets.antt =====
-- The theorems on the gateway of notifications and on the metrics.
use towerdesk_backend.Common.{
  true, false, none, some, List, [], ◌∷◌, ◌≡◌, refl, find, every, nat_eq,
}
use towerdesk_backend.Store.{Uid, Text, User}
use towerdesk_backend.Org.{find_user}
use towerdesk_backend.Auth.{JwtPayload, absent, text_value, verify_access_token, validate_payload}
use towerdesk_backend.Auth.Identity.{MayAct}
use towerdesk_backend.Notifications.{
  Handshake, authenticating, Socket, opened, GatewayEvent, connects, resumes, greets, closes,
  resume, disconnect, new_gateway, run_gateway,
}
use towerdesk_backend.Notifications.Connections.{IsCounted, run_gateway-IsCounted, counted_sockets}
use towerdesk_backend.Notifications.Admittance.{resume-MayAct}
use towerdesk_backend.Notifications.Leak.{late_resume}
use towerdesk_backend.Metrics.{Numbers, bucket_of}
use towerdesk_backend.Metrics.Window.{
  Op, records, flushes, perform_all, specify_all, durations_of, newest, bucket_of-perform_all,
}
use towerdesk_backend.Tests.Sample.{db}
use towerdesk_backend.Tests.Tokens.{crypto}

abbrev id_of_text : Text → Uid
id_of_text [] = 0
id_of_text (c ∷ _) = c

-- A socket with a token for the manager.
abbrev waiting : Socket
waiting = record (opened 70) { phase = authenticating (0 ∷ 1 ∷ 0 ∷ 0 ∷ []) none }

abbrev handshake : Handshake
handshake = record {
  authorization = absent;
  auth_token = text_value (0 ∷ 1 ∷ 0 ∷ 0 ∷ []);
  query_token = absent;
  auth_org_id = absent;
  query_org_id = absent;
}

abbrev connection : List GatewayEvent
connection = connects db 70 handshake ∷ closes 70 ∷ resumes db 70 ∷ greets db 70 ∷ []

run_gateway-IsCounted_example : IsCounted (run_gateway crypto id_of_text connection new_gateway)
unfolding every counted_sockets
run_gateway-IsCounted_example =
    run_gateway-IsCounted crypto id_of_text connection new_gateway (refl, (tt, (refl, (refl, tt))))
      (refl, refl)

resume-MayAct_example :
    (payload : JwtPayload) × (x : User) × (org_id : Uid) × (crypto.verify_access
        (0 ∷ 1 ∷ 0 ∷ 0 ∷ [])
      ≡ some payload)
    × (find_user payload.sub db ≡ some x)
    × (x.is_active ≡ true)
    × ((resume crypto db (waiting, 0)).0.user_id ≡ some x.id)
    × ((resume crypto db (waiting, 0)).0.org_id ≡ some org_id)
    × MayAct db x none (some org_id)
unfolding resume find
resume-MayAct_example = resume-MayAct crypto db waiting 0 (0 ∷ 1 ∷ 0 ∷ 0 ∷ []) none refl refl refl

late_resume_example :
    ((resume crypto db (disconnect (waiting, 4))).1 ≡ 5)
    × ((resume crypto db (disconnect (waiting, 4))).0.connected ≡ false)
    × (disconnect (resume crypto db (disconnect (waiting, 4)))
        ≡ resume crypto db (disconnect (waiting, 4)))
unfolding verify_access_token validate_payload find_user find
late_resume_example =
    late_resume crypto db waiting 4 (0 ∷ 1 ∷ 0 ∷ 0 ∷ []) none (record { sub = 1; org_id = some 9 })
      9 refl refl refl refl refl

abbrev numbers : Numbers
numbers = record { ceil_product = λ quantile n. n; round = λ duration. duration }

abbrev traffic : List Op
traffic = records "GET /health" 7 ∷ flushes ∷ records "GET /health" 5 ∷ records "GET /health" 3 ∷ []

bucket_of-perform_all_example :
    bucket_of "GET /health" (perform_all numbers 1 traffic [])
    ≡ newest 1 (durations_of "GET /health" (specify_all traffic []))
bucket_of-perform_all_example = bucket_of-perform_all numbers 1 traffic "GET /health"
