-- ===== src/Tests/Brokers.antt =====
-- The choice of the master broker.
use undermoon_operator_old.Tests.Samples.{steady, fresh}
use undermoon_operator_old.BrokerClient as Client
use undermoon_operator_old.BrokerClient.Replies.{
  IsRefusal, Refused, scale_nodes-migration_running, scale_request,
}
use undermoon_operator_old.BrokerController.{get_current_master, max_epoch_broker}
use undermoon_operator_old.BrokerController.Choice.{IsChoice}
use undermoon_operator_old.BrokerController.Master.{
  asked, get_current_master-Picks, max_epoch_broker-IsChoice,
}
use undermoon_operator_old.Common.{String, [], contains, true, ◌↔◌, ◌∷◌, ◌≡◌, ◌≢◌, ◌⊎◌}
use undermoon_operator_old.Common.Int.{pos, ℤ}
use undermoon_operator_old.Go.{err, migration_running, ok}

abbrev a : String
a = "a"

not_empty : a ≢ ""
not_empty h = cc

max_epoch_broker-IsChoice_example :
    (d : String × ℤ) × ((max_epoch_broker steady "" (pos 0) ("a" ∷ []) fresh).0 ≡ ok d.0)
    × IsChoice (asked steady ("a" ∷ []) fresh) d
max_epoch_broker-IsChoice_example =
    max_epoch_broker-IsChoice steady ("a" ∷ []) fresh (not_empty, tt)

get_current_master-Picks_example :
    (m : String) × ((get_current_master steady ("a" ∷ "b" ∷ []) fresh).0 ≡ ok m)
    × ((m ≡ "") ⊎ (contains m ("a" ∷ "b" ∷ []) ≡ true))
get_current_master-Picks_example = get_current_master-Picks steady "a" ("b" ∷ []) fresh

scale_nodes-migration_running_example :
    ((Client.scale_nodes steady "b" "c" 1 fresh).0 ≡ err migration_running)
    ↔ Refused steady "b" "c" 1 fresh
        (IsRefusal steady "b" "c" 1 fresh)
        "MIGRATION_RUNNING"
        (scale_request steady "b" "c" 1 fresh)
scale_nodes-migration_running_example = scale_nodes-migration_running steady "b" "c" 1 fresh
