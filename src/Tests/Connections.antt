-- ===== src/Tests/Connections.antt =====
-- Connections of one call.
use go_reverse_rpc.Base.{bytes_eq, ℕ_eq, ℕ_discrete, ◌≡◌, refl, true, List, [], ◌∷◌, ℕ, lit}
use go_reverse_rpc.Mqttpb.Conn.{Conn, new_conn, receive, close, read_all}
use go_reverse_rpc.Topics.{join}
use go_reverse_rpc.Mqttpb.Client.{request_topic}
use go_reverse_rpc.Mqttpb.Conn.Laws.{close-receive}

abbrev sizes : List ℕ
sizes = 512 ∷ 2 ∷ 7 ∷ 9 ∷ []

fresh : Conn
unfolding new_conn
fresh = new_conn (lit "q") (lit "r") 0

close-receive_example : (close (read_all sizes (receive (lit "abc") fresh)).1).panicked ≡ true
unfolding fresh new_conn
close-receive_example = close-receive (lit "abc") sizes fresh refl refl

-- The topic of a call under a prefix that is not clean.
request_topic_clean : request_topic (lit "a//b/") (lit "dev") (lit "7") ≡ lit "a/b/dev/request/7"
unfolding request_topic join bytes_eq ℕ_eq ℕ_discrete
request_topic_clean = refl
