-- ===== src/S2/Mpan/Tests.antt =====
-- The theorems about the multicast state at concrete inputs.
use zwaved.Base.{[], ◌∷◌, replicate}
use zwaved.S2.NonceSync.Scan.{Object}
use zwaved.S2.Mpan.Table.{Table, used}

-- A SPAN object that announces a successor.
abbrev announcing : Object
announcing = record { flags = 0xc1; body = replicate 16 5 }

abbrev one_group : Table
one_group =
    ((2, 4), record { owner = 2; group_id = 4; generator = replicate 16 1; entry_state = used })
    ∷ []
