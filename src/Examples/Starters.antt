-- ===== src/Examples/Starters.antt =====
-- A watcher that is given a port for UDP only, on a machine whose free ports count from 4000.
use gorigin.Prelude.{◌+◌, [], ◌∷◌, none, some, true, All}
use gorigin.Client.Config.{WatcherConfig, new_client}
use gorigin.Starts.{new_watcher}
use gorigin.Starts.Ports.{NoUdp, new_watcher-NoUdp}

abbrev udp_only : WatcherConfig
udp_only = record { host = 104 ∷ []; tcp_port = 0; udp_port = 9000; http_port = 0 }

new_watcher-NoUdp_example :
    All NoUdp
      (new_watcher none
        (new_client (λ c. true) (λ c. true) (λ c. true) (λ i. some (4000 + i)) true)
        true
        (λ a. true)
        udp_only).0
new_watcher-NoUdp_example =
    new_watcher-NoUdp (λ c. true) (λ c. true) (λ c. true) (λ i. some (4000 + i)) true udp_only none
      true (λ a. true)
