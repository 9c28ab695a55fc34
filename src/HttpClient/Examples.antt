-- ===== src/HttpClient/Examples.antt =====
-- Runs of GET and of its waits.
use quant_indonesia_scraping.Prelude.{ℕ, ◌+◌, ◌≡◌, refl, false, [], codes, ◌==◌, if◌then◌else◌}
use quant_indonesia_scraping.HttpClient.{
  Client, new_client, Reply, failed, answered, Round, got, client_error, get, get_loop,
  attempt_once, judge, judge_reply,
}
use quant_indonesia_scraping.HttpClient.Retry.{Outcome, get-Outcome}

abbrev client : Client
client = new_client (record { timeout = 0; max_retries = 0; rate_limit_rps = 0; user_agent = [] })

abbrev round : Reply → Round
round r = record { cancelled = false; limiter_fails = false; request_fails = false; reply = r }

-- An answer 503, then a connection that fails, then the page.
abbrev recovers : ℕ → Round
recovers n =
    if n == 0
    then round (answered 503 [])
    else if n == 1
    then round failed
    else round (answered 200 (codes "<rss/>"))

abbrev missing : ℕ → Round
missing n = round (answered 404 [])

recovers_third : get client recovers ≡ (got (codes "<rss/>") 200, 3)
unfolding get get_loop new_client attempt_once judge judge_reply
recovers_third = refl

missing_once : get client missing ≡ (client_error 404, 1)
unfolding get get_loop new_client attempt_once judge judge_reply
missing_once = refl

get-Outcome_example : Outcome recovers (client.max_retries + 1) (get client recovers)
get-Outcome_example = get-Outcome client recovers
