-- ===== src/Server/UdpBudget/Tests.antt =====
-- Runs of the budget, and its theorems at concrete inputs.
use chitanda.Base.{List, [], ◌∷◌}
use chitanda.Server.UdpBudget.{System, Call, reserve, release_at, zero_budget, calls}
use chitanda.Server.UdpBudget.Laws.{Accounted, calls-Accounted, zero_budget-Accounted}

abbrev start : System
start = record { budget = zero_budget; leases = [] }

abbrev some_calls : List Call
some_calls = reserve (1 ∷ []) ∷ reserve (2 ∷ []) ∷ release_at 0 ∷ release_at 0 ∷ []

calls-Accounted_example : Accounted (calls start some_calls)
calls-Accounted_example = calls-Accounted start some_calls zero_budget-Accounted
