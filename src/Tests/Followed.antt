-- ===== src/Tests/Followed.antt =====
-- A click on an issue of the dashboard.
use mathlib.Core.List.{Memᴰ}
use card_scope.Base.{◌≢◌, refl, All, map, none, arith, eq_iff}
use card_scope.Base.Sets.{IsDistinct}
use card_scope.Types.{Gpu, Node}
use card_scope.Shell
use card_scope.Status
use card_scope.Summary.{Issue, summarize, node_loop, gpu_loop, gpu_step, node_step, gpu_state}
use card_scope.View.Page.{issue_clicked, page_events}
use card_scope.View.Followed.{IsReached, issue_lem}
use card_scope.Tests.Data.{by_length, same_case, cluster, second_node}

abbrev offline : Issue
offline = record { key = "n22"; title = "节点离线"; detail = "n22"; node = second_node; gpu = none }

offline_test : Memᴰ offline (summarize by_length cluster).issues
unfolding summarize node_loop gpu_loop gpu_step node_step gpu_state Status.idle Status.bad
offline_test = Memᴰ.tail (Memᴰ.head refl)

ids_test : IsDistinct (map (λ (m : Node). m.id) cluster)
ids_test = (refl, (refl, tt))

uuids_test : All (λ (m : Node). IsDistinct (map (λ (c : Gpu). c.uuid) m.snapshot.gpus)) cluster
uuids_test = ((refl, (refl, (refl, tt))), ((refl, tt), tt))

id_test : second_node.id ≢ ""
id_test e = ground (arith, eq_iff "n22" "")

issue_lem_example :
    IsReached same_case refl by_length cluster second_node none
      (Shell.run Shell.at_first (page_events (issue_clicked offline)))
issue_lem_example =
    issue_lem same_case refl by_length cluster offline Shell.at_first ids_test uuids_test id_test
      offline_test
