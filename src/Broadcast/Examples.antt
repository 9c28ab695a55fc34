-- ===== src/Broadcast/Examples.antt =====
-- Two listeners, one of which has left.
use quant_indonesia_scraping.Prelude.{◌≡◌, refl, true, false, some, [], ◌∷◌, codes}
use quant_indonesia_scraping.Float.Decimal.{Decimal}
use quant_indonesia_scraping.Broadcast.{
  IngestionEvent, event, Broadcaster, new_broadcaster, subscribe, broadcast, send, send_progress,
  send_critical, stamp, is_critical, offer, receive,
}
use quant_indonesia_scraping.Broadcast.Listeners.{IsValid, listens}
use quant_indonesia_scraping.Broadcast.Reach.{
  joins, sends, Reach, start, next, Reach-IsValid, buffer_of, queue_if, broadcast-delivers,
}

abbrev begin : IngestionEvent Decimal
begin = event (codes "start") (codes "SCRAPING") 0 2 []

-- Two listeners have subscribed.
abbrev two : Broadcaster Decimal
two = (subscribe (subscribe (new_broadcaster Decimal)).1).1

two-Reach : Reach two
two-Reach = next (next start joins) joins

-- The second has the first event in its buffer.
abbrev told : Broadcaster Decimal
told = broadcast (codes "12:00:00") (λ n. false) begin two

told-Reach : Reach told
told-Reach = next two-Reach (sends (codes "12:00:00") (λ n. false) begin)

told_stamped : buffer_of 1 told.clients ≡ some (record begin { timestamp = codes "12:00:00" } ∷ [])
unfolding broadcast subscribe new_broadcaster send send_progress send_critical stamp is_critical
    offer
told_stamped = refl

taken : buffer_of 1 (receive 1 told.clients) ≡ some []
unfolding broadcast subscribe new_broadcaster send send_progress send_critical stamp is_critical
    offer receive
taken = refl

Reach-IsValid_example : IsValid told
Reach-IsValid_example = Reach-IsValid told-Reach

two_listens : listens 0 two.clients ≡ true
unfolding listens subscribe new_broadcaster
two_listens = refl

broadcast-delivers_example :
    buffer_of 0 (broadcast (codes "12:00:01") (λ n. true) begin told).clients
    ≡ queue_if true (stamp (codes "12:00:01") begin) (buffer_of 0 told.clients)
broadcast-delivers_example =
    broadcast-delivers (codes "12:00:01") (λ n. true) begin told 0 told-Reach
