-- ===== src/Tests/Assembly.antt =====
-- A prompt of ten tokens with two full blocks, and a capture that misses its second boundary.
use pd_bridge.Prelude.{ℕ, ◌*◌, ◌/◌, ◌≡◌, refl, ◌==◌, if◌then◌else◌, some, none, arith}
use pd_bridge.Hook.Boundaries.{boundaries}
use pd_bridge.Front.{Settings}
use pd_bridge.Front.Manifests.{complete, pull_verdict}
use pd_bridge.Assembly.{
  Step, key_missing, block_stored, BlockFile, is_good, is_missing, assemble_and_write, assemble_kv,
}
use pd_bridge.Assembly.Complete.{pull_verdict-complete}

abbrev settings : Settings
settings = record { grace = 45; stamp_timeout = 300; tok_rate = 7; min_coverage = 5000; block = 4 }

abbrev rounded : ℕ → ℕ → ℕ
rounded B T = B * 10000 / T

pull_verdict-complete_example :
    pull_verdict settings 10 complete
      (assemble_and_write rounded 10 (λ _. block_stored) 2 (boundaries 4 0 10))
    ≡ some complete
pull_verdict-complete_example =
    pull_verdict-complete rounded settings (omega arith) 10 (λ _. block_stored) 2 (λ b le. refl)
      (omega arith) (omega arith) (omega arith)

abbrev second_missing : ℕ → Step
second_missing b = if b == 8 then key_missing else block_stored

-- the first block alone is too little
declines :
    pull_verdict settings 10 complete
      (assemble_and_write rounded 10 second_missing 1 (boundaries 4 0 10))
    ≡ none
unfolding pull_verdict assemble_and_write boundaries
declines = refl

abbrev file : ℕ → BlockFile
file i = if i == 1 then is_missing else is_good

loads : assemble_kv rounded 10 4 3 file 1 ≡ record { paths = 1; B = 4; coverage = 4000 }
unfolding assemble_kv
loads = refl
