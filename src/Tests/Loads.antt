-- ===== src/Tests/Loads.antt =====
-- The report of the load generator after a short run.
use pruet_web_dev.Base.{◌*◌, ◌/◌, ◌<◌, ◌≡◌, ◌↔◌, none, some, List, [], ◌∷◌, All, length, count, ltb}
use pruet_web_dev.Text.{text}
use pruet_web_dev.Traffic.{p99_limit, Call, put, get, no_stats, record_calls, report}
use pruet_web_dev.Traffic.Verdict.{IsAnswered, IsFastEnough, report-IsPassed}

abbrev two_calls : List Call
two_calls =
    record { method = get; status = some 200; latency = 4000; problem = none }
    ∷ record {
      method = put;
      status = some 200;
      latency = 9000;
      problem = some (text "missing field(s) ['role']");
    }
    ∷ []

report-IsPassed_example : (report (record_calls two_calls no_stats) 90000 20 ≡ 0) ↔ (
    All IsAnswered two_calls
    × ((0 < length two_calls
          → length two_calls * 99 / 100 < count (λ c. ltb c.latency p99_limit) two_calls)
        × IsFastEnough (length two_calls) 90000 20))
report-IsPassed_example = report-IsPassed two_calls 90000 20
