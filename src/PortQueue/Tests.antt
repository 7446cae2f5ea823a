-- ===== src/PortQueue/Tests.antt =====
-- Runs of the port operations, and the theorems applied to a port of two requests and a full one.
use rsim.Prelude.{ℕ, ◌≡◌, refl, ◌≢◌, true, false, none, some, [], ◌∷◌, arith}
use rsim.Prelude.Result.{ok}
use rsim.PortQueue.{Port, check_q, peek_q, rm_q, insert_by, placed}
use rsim.PortQueue.Fifo.{contents, IsValid, rm_q-Fifo}

-- all requests have one priority
abbrev same_prio : ℕ → ℕ
same_prio r = 0

abbrev full_port : Port ℕ
full_port = record { queue = 5 ∷ 6 ∷ []; ov_req = none; q_size = 2; q_sz_tot = 2; sleeps = false }

abbrev over_port : Port ℕ
over_port = record { queue = 5 ∷ 6 ∷ []; ov_req = some 7; q_size = 2; q_sz_tot = 2; sleeps = true }

full_port-IsValid : IsValid full_port
full_port-IsValid = record { counted = refl; bounded = omega arith; over = λ k. refl }

over_port-IsValid : IsValid over_port
over_port-IsValid = record { counted = refl; bounded = omega arith; over = λ k. refl }

full_port-has_room : check_q full_port ≢ none
unfolding check_q
full_port-has_room e = cc

-- A request of higher priority goes before the others, and a full port shows no room.
by_priority : placed (λ r. r) 6 (7 ∷ 5 ∷ []) ≡ ok (7 ∷ 6 ∷ 5 ∷ [])
unfolding placed insert_by
by_priority = refl

over_port_full : check_q over_port ≡ none
unfolding check_q
over_port_full = refl

rm_q-Fifo_example :
    ((rm_q over_port).0 ≡ some 5)
    × ((rm_q over_port).0 ≡ peek_q over_port)
    × (contents (rm_q over_port).2 ≡ 6 ∷ 7 ∷ [])
    × IsValid (rm_q over_port).2
rm_q-Fifo_example = rm_q-Fifo over_port over_port-IsValid
