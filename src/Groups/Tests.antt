-- ===== src/Groups/Tests.antt =====
-- The theorems of the consumer groups on concrete inputs.
use event_stream_broker.Prelude.{ℕ, ◌+◌, ◌≡◌, List, [], ◌∷◌}
use event_stream_broker.Log.Partition.{Partition}
use event_stream_broker.Groups.ConsumerGroup.{ConsumerGroup, position}
use event_stream_broker.Groups.ConsumerGroup.Commits.{run, advances, skips_of, run-Accounts}

abbrev partition : ℕ → Partition
partition high = record {
  number = 3;
  log = record { segments = []; rolls = 0 };
  high_watermark = high;
}

abbrev group : ConsumerGroup
group = record {
  name = "g";
  contract = "at-least-once";
  committed = (3, 4) ∷ [];
  skips_logged = [];
}

-- The second commit goes back and is refused.
abbrev calls : List (Partition × ℕ)
calls = (partition 9, 7) ∷ (partition 9, 5) ∷ (partition 12, 8) ∷ []

run-Accounts_example :
    position 3 (run calls group) + 0
    ≡ position 3 group + skips_of 3 (run calls group).skips_logged + advances 3 calls group
run-Accounts_example = run-Accounts 3 calls group
