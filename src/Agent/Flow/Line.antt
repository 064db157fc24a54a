-- ===== src/Agent/Flow/Line.antt =====
-- The line of requests that wait for the `inflight` mutex, along a history.
use sentinel_cosmic.Agent.Flow.{AgentState, here, AuthCall, acquires, next, begins, Reach}
use sentinel_cosmic.Common.{[], ◌∷◌, ◌++◌, List}

-- The requests that came to hold the mutex, and those that were made, oldest first.
abbrev pub acquired : {s u : AgentState} → Reach s u → List AuthCall
acquired here = []
acquired (next r (acquires c rest i w e)) = acquired r ++ (c ∷ [])
acquired (next r st) = acquired r

abbrev pub begun : {s u : AgentState} → Reach s u → List AuthCall
begun here = []
begun (next r (begins c e)) = begun r ++ (c ∷ [])
begun (next r st) = begun r

abbrev waiting_of : AgentState → List AuthCall
waiting_of s = s.waiting
