-- ===== src/Events/Server/Tests.antt =====
-- Requests to the event collector.
use recsys_pipeline.Common.{◌≡◌, refl, List, [], ◌∷◌, ◌++◌, ok, err}
use recsys_pipeline.Common.Int.{pos}
use recsys_pipeline.Common.Text.{Text, text, same}
use recsys_pipeline.Events.{EventRequest, Redpanda}
use recsys_pipeline.Events.Server.{
  Request, settings, new_redpanda, serve_all, records_of_all, serve_all-produced,
}

defaults :
    (settings [] (text "clicks")
      ≡ record { brokers = text "localhost:9092" ∷ []; topic = text "clicks" })
    × ((settings (text "a:1,b:2") []).brokers ≡ text "a:1" ∷ text "b:2" ∷ [])
    × (new_redpanda (λ s. err (text "no brokers")) (settings [] [])
        ≡ err (text "creating kafka client: no brokers"))
unfolding settings new_redpanda same
defaults = (refl, refl, refl)

abbrev view : EventRequest
view = record {
  event_type = text "view";
  user_id = text "u_1";
  item_id = text "i_1";
  category_id = [];
  session_id = [];
  metadata = record { query = []; position = pos 3; price = pos 0; source = [] };
}

abbrev post : Text → Request
post path = record { path = path; method = text "POST"; body = ok view; id = text "e"; now = 7 }

abbrev empty : Redpanda
empty = record { produced = []; produce_errs = 0 }

abbrev two_posts : List Request
two_posts = post (text "/api/v1/events") ∷ post (text "/health") ∷ []

serve_all-produced_example :
    (serve_all (λ e. e.item_id) two_posts empty).produced
    ≡ [] ++ records_of_all (λ e. e.item_id) two_posts
serve_all-produced_example = serve_all-produced (λ e. e.item_id) two_posts empty (tt, (tt, tt))
