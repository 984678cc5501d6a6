-- ===== src/Hub/Threads/Examples.antt =====
-- A hub on which an agent waits, a client is brokered to it while the agent registers again.
use netso.Common.{◌≡◌, refl, true, some, List, [], ◌∷◌, get_elem?, All, ◌<◌, arith}
use netso.Common.Bytes.{Bytes, codes, str_eq}
use netso.Map.{get, put, delete}
use netso.Registry
use netso.Registry.{Record}
use netso.Audit
use netso.Hub.Threads.{Pc, Action, start, agent_arrives, client_arrives, advance, step, run}
use netso.Hub.Threads.Roles.{serving}
use netso.Hub.Threads.Steps.{IsTimed}
use netso.Hub.Threads.Exclusive.{IsExclusive, threads-IsExclusive, active-serving}
use netso.Hub.Threads.Accounted.{IsAccounted}
use netso.Hub.Threads.NoLeak.{accounted-run}

abbrev office : Bytes
office = codes "office"

abbrev dev : Bytes
dev = codes "dev"

-- Up to the relay, whose agent has registered again between the `Take` and the `Start`.
abbrev meeting : List Action
meeting =
    Action.agent office dev (codes "key") true
    ∷ Action.goes 0 1
    ∷ Action.client office dev true
    ∷ Action.agent office dev (codes "key") true
    ∷ Action.goes 1 2
    ∷ Action.goes 2 3
    ∷ Action.goes 1 4
    ∷ []

meeting-IsTimed : All IsTimed meeting
meeting-IsTimed = (
  tt,
  (
    (λ e. ground arith),
    (tt, (tt, ((λ e. ground arith), ((λ e. ground arith), ((λ e. ground arith), tt))))),
  ),
)

threads-IsExclusive_example : IsExclusive (run meeting start)
threads-IsExclusive_example = threads-IsExclusive meeting meeting-IsTimed

active-serving_example :
    Audit.active (run meeting start).audit ≡ serving (run meeting start).threads
active-serving_example = active-serving meeting meeting-IsTimed

relaying : get_elem? (run meeting start).threads 1 ≡ some (Pc.relaying office dev 1 0 0)
unfolding run step start agent_arrives client_arrives advance get put delete str_eq Registry.new
    Registry.add Registry.take Audit.new_log Audit.start
relaying = refl

three_upgraded : 1 < (run meeting start).next
unfolding run step start agent_arrives client_arrives advance get put delete str_eq Registry.new
    Registry.add Registry.take Audit.new_log Audit.start
three_upgraded = omega arith

accounted-run_example : IsAccounted (run meeting start) 1
accounted-run_example = accounted-run meeting 1 meeting-IsTimed three_upgraded
