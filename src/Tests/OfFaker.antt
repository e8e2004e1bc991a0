-- ===== src/Tests/OfFaker.antt =====
-- A chain that the generator makes.
use history_chain.Base.{ℕ, suc, add_u64, ◌<◌, ◌-◌, ◌+◌, ◌≡◌, ok, arith, length}
use history_chain.Block.{zero_hash, zero_uuid}
use history_chain.Chain.{ChainLimit}
use history_chain.Executor.{ChainExecutor}
use history_chain.Executor.Keeps.{IsSoundKeeper}
use history_chain.Faker.{World, faker_executor}
use history_chain.Faker.Builds.{InTime}
use history_chain.Faker.Grows.{faker_executor-Filled}
use history_chain.Tests.Fixtures.{sha}

-- The clock goes on by one in each round.
abbrev world : World
world = record { now = λ i. 10 + i; random_hash = λ i. zero_hash; uuid_new = λ i. zero_uuid }

abbrev limits : ChainLimit
limits = record { max_len = 3; time_gap = 60 }

in_gap : (i j : ℕ) → j < 3 - 1 → InTime 10 60 (10 + suc j)
unfolding add_u64
in_gap i j below = (omega arith, omega arith)

at_once : (j : ℕ) → j < 2 - 1 → InTime 20 60 20
unfolding add_u64
at_once j below = (omega arith, omega arith)

faker_executor-Filled_example :
    (executor : ChainExecutor) × (faker_executor sha (λ i. world) (λ i. 20) 20 20 2 limits
      ≡ ok executor)
    × (length executor.keeper.main.chain.blocks ≡ 2)
    × (length executor.keeper.sides ≡ 2 - 1)
    × IsSoundKeeper sha executor.keeper
faker_executor-Filled_example =
    faker_executor-Filled sha (λ i. world) (λ i. 20) limits (omega arith) (omega arith) in_gap 2 20
      20 (omega arith) (omega arith) at_once
