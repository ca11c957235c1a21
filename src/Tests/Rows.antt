-- ===== src/Tests/Rows.antt =====
-- Runs of the model of the response.
use lampd.Prelude.{ℕ, ◌≡◌, refl, Bool, true, some, List, [], ◌∷◌, take, arith, ltb}
use lampd.Request.{Request, new_fields}
use lampd.Response.{no_rows, gather_rows, local_rows}
use lampd.Response.Page.{outcome, gather_rows-outcome}
use lampd.Response.Window.{IsWithin, none_left, next_peer, local_rows-window}
use lampd.Result.{Result, ok}
use lampd.Tests.Data.{integers}

-- Rows are numbers, and those above 2 match.
abbrev above : ℕ → Bool
above row = ltb 2 row

abbrev matches : ℕ → Result Bool
matches row = ok (above row)

gather_rows-outcome_example :
    outcome (gather_rows matches 1 true (3 ∷ 1 ∷ 4 ∷ 5 ∷ []) no_rows)
    ≡ ok (take 1 (3 ∷ 4 ∷ 5 ∷ []), 2)
gather_rows-outcome_example =
    gather_rows-outcome matches above (λ row. refl) 1 true (3 ∷ 1 ∷ 4 ∷ 5 ∷ []) no_rows
      (λ e. omega arith)

-- LIMIT 2, OFFSET 1
abbrev page : Request
page = record new_fields { limit = some 2; offset = 1 }

abbrev two_peers : List (ℕ × List ℕ)
two_peers = (4, 3 ∷ 1 ∷ 4 ∷ 5 ∷ []) ∷ (2, 0 ∷ 6 ∷ []) ∷ []

two_peers-IsWithin : IsWithin two_peers
two_peers-IsWithin =
    next_peer 4 (3 ∷ 1 ∷ 4 ∷ 5 ∷ []) ((2, 0 ∷ 6 ∷ []) ∷ []) (omega arith)
      (next_peer 2 (0 ∷ 6 ∷ []) [] (omega arith) none_left)

local_rows-window_example : local_rows matches (λ rows. rows) page two_peers ≡ ok (4 ∷ 5 ∷ [])
local_rows-window_example =
    local_rows-window matches above (λ row. refl) (λ rows. rows) page refl refl two_peers
      two_peers-IsWithin
