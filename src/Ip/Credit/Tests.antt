-- ===== src/Ip/Credit/Tests.antt =====
-- A witness of the flow control.
use veripy.Base.{◌+◌, ◌≤◌, ◌≡◌, true, false, [], ◌∷◌, arith}
use veripy.Ip.Credit.{CreditFlowControl, Valid, run, sent, received, run-conserves}

abbrev full_credit : CreditFlowControl
full_credit = record { credits = 2; cnt = 2 }

abbrev send : Valid
send = record { send_valid = true; recv_valid = false }

run-conserves_example :
    ((run full_credit (send ∷ send ∷ send ∷ [])).cnt + sent full_credit (send ∷ send ∷ send ∷ [])
      ≡ 2 + received full_credit (send ∷ send ∷ send ∷ []))
    × ((run full_credit (send ∷ send ∷ send ∷ [])).cnt ≤ 2)
run-conserves_example = run-conserves full_credit (send ∷ send ∷ send ∷ []) (omega arith)
