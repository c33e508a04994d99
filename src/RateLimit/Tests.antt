-- ===== src/RateLimit/Tests.antt =====
-- The theorems about the cooldown at concrete times.
use renaissance_api.Common.{◌<◌, ◌↔◌, none, [], arith}
use renaissance_api.RateLimit.{LimitDb, stake, check_and_enforce, record_interaction, next_allowed}
use renaissance_api.RateLimit.Cooldown.{Refused, check_after_record}

abbrev limits : LimitDb
limits = record { cooldown = none; last = []; violations = [] }

check_after_record_example :
    Refused (check_and_enforce 4000 7 stake (record_interaction 1000 7 limits).1)
    ↔ (4000 < next_allowed 1000 5)
check_after_record_example = check_after_record 1000 4000 7 stake limits (omega arith) (omega arith)
