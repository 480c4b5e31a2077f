-- ===== src/Examples/Batches.antt =====
-- The groups of example/ex.c in the small world.
use libpssh.Prelude.{ℕ, ◌≡◌, refl, false, List, [], ◌∷◌, map, All, length, Outcome, ok, arith}
use libpssh.Session as S
use libpssh.Session.{Entry, Session}
use libpssh.Session.Api.{pssh_server_add}
use libpssh.Task.{TaskStat, exec, State}
use libpssh.Task.Api.{pssh_task_stat}
use libpssh.Client.{name_of_stat}
use libpssh.Client.Files.{members, server_name}
use libpssh.Client.Batch.{add_servers, make_list, has_name}
use libpssh.Client.Batch.Copies.{IsBound, name_of, make_list_lem}
use libpssh.Client.Batch.Plan.{www, row_of, plan}
use libpssh.Examples.Sim.{Sim, sim, server, session, task, command}

-- "www21.mlan"
name_test : server_name 2 1 ≡ (119 ∷ 119 ∷ 119 ∷ 50 ∷ 49 ∷ 46 ∷ 109 ∷ 108 ∷ 97 ∷ 110 ∷ [])
unfolding server_name
name_test = refl

-- The second group of servers, and their names.
abbrev names_of : Outcome (Session Sim) → List (List ℕ)
names_of (ok sess) = map name_of sess.entries
names_of _ = []

servers_test : names_of (add_servers sim (session []) 2 members) ≡ map (server_name 2) members
unfolding add_servers pssh_server_add server_name
servers_test = refl

-- A task that is done has no name in the table.
has_name_test : has_name (task TaskStat.done (exec command)) ≡ false
unfolding has_name name_of_stat pssh_task_stat
has_name_test = refl

abbrev named : ℕ → Entry
named i = record (server S.connected) { hostaddr_str = www 2 i }

abbrev group : Session Sim
group = session (map named members)

make_list_lem_example :
    (s : State Sim) × (make_list sim group 2 ≡ ok s)
    × (s.session ≡ group)
    × (map row_of s.tasks ≡ plan 2)
    × All (IsBound group.entries) s.tasks
make_list_lem_example = make_list_lem sim group 2 (omega arith) refl

plan_test : length (plan 2) ≡ 30
unfolding plan
plan_test = refl
