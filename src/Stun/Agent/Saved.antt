-- ===== src/Stun/Agent/Saved.antt =====
-- stun/stunagent.c: the transaction that `stun_agent_finish_message` saves.
use libxice.Base.{ℕ, ◌+◌, ◌≡◌, ◌⊎◌}
use libxice.Base.{Option, none, some, List, set}
use libxice.Base.{◌<◌}
use libxice.Stun.Agent.Ended.{size_needed, Ended}
use libxice.Stun.Agent.Grown.{Grown}
use libxice.Stun.Types.{SavedId, StunAgent, StunMessage}
use libxice.Stun.Message.{stun_message_length, stun_message_id, stun_message_get_method}
use libxice.Stun.Agent.Finish.{free_id}
use libxice.Stun.Agent.Finish.{Finished}
use libxice.Stun.Agent.Transactions.{Waits}

-- The table is full, or what is to be appended does not fit.
abbrev pub CannotFinish : StunAgent → StunMessage → ℕ → Type 0
CannotFinish agent msg n =
    (free_id agent.sent_ids 0 ≡ none) ⊎ ((0 < n) × (msg.buffer_len < stun_message_length msg + n))

-- Either the result is 0 and the agent as it was, or the message waits for its response at the first
-- free place of the table, with the key, and the result is its new length.
abbrev pub IsFinished : StunAgent → StunMessage → Option (List ℕ) → Finished → Type 0
IsFinished agent msg key (agent', msg', len) =
    (CannotFinish agent msg (size_needed agent msg key) × (agent' ≡ agent) × (len ≡ 0))
    ⊎ ((¬ CannotFinish agent msg (size_needed agent msg key))
        × ((i : ℕ) × (s : SavedId) × (free_id agent.sent_ids 0 ≡ some i)
            × (agent' ≡ record agent { sent_ids = set agent.sent_ids i s })
            × Waits agent'.sent_ids (stun_message_get_method msg) (stun_message_id msg) i s
            × (s.key ≡ key)
            × (len ≡ stun_message_length msg + size_needed agent msg key)
            × (stun_message_length msg' ≡ len)))
