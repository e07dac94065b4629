-- ===== src/Scenarios/Start/Tests.antt =====
-- src/scenarios.rs: the start of a run with two clients.
use tak_bench.Prelude.{◌≡◌, map, length}
use tak_bench.Prelude.Float.{micros}
use tak_bench.Safety.Errors.{default_options}
use tak_bench.Scenarios.Start.{participants}
use tak_bench.Scenarios.Start.Sample.{turn, length-turn, two_clients, tasks, two_started}
use tak_bench.Scenarios.Start.Everyone.{started-everyone}

started-everyone_example :
    (map (λ task. task.0) tasks ≡ participants micros turn two_clients)
    × (length tasks ≡ two_clients.run.clients)
started-everyone_example =
    started-everyone micros turn two_clients default_options tasks length-turn two_started
