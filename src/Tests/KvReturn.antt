-- ===== src/Tests/KvReturn.antt =====
-- Whether a resumed capture may be merged.
use pd_bridge.Prelude.{◌≡◌, refl, some, false, true}
use pd_bridge.KvReturn.{usable_prefix}

-- a capture whose parent is another one than the capture that was kept
declines :
    usable_prefix true
      (record { resume_from = 6; parent_stamp = some 4; has_gaps = false; T = 9 })
      (some (record { stamp = 3; T = 8 }))
    ≡ 0
unfolding usable_prefix
declines = refl
