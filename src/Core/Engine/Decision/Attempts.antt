-- ===== src/Core/Engine/Decision/Attempts.antt =====
-- What a decision rests on: an accepted reply, or the attempts that failed.
use wagmi_bench.Prelude.{
  ℕ, ◌≡◌, ◌≢◌, refl, ◌⊎◌, inl, inr, arith, false, ◌==◌, Bool-cases, none, some,
}
use wagmi_bench.Core.Engine.State.{
  ParsedAction, Reason, timeout, agent_error, TurnDecision, parsed, rejected,
}
use wagmi_bench.Core.Engine.Decision.{
  ActionParseResult, accepted, refused, AgentReply, AgentOutcome, replied, timed_out, failed,
  is_client_error, interpret, second_attempt, first_attempt, request_decision,
}

outcome-cases :
    (r : ActionParseResult)
    → ((action : ParsedAction) × (r ≡ accepted action)) ⊎ ((reason : Reason) × (r ≡ refused reason))
outcome-cases (accepted action) = inl (action, refl)
outcome-cases (refused reason) = inr (reason, refl)

module _ {Body : Type 0} (parse : Body → ℕ → ActionParseResult) where
  -- The outcome of the attempt is a reply without a client error, and it parses to the action.
  abbrev pub Accepts : AgentOutcome Body → ℕ → ParsedAction → Type 0
  Accepts timed_out attempt action = ⊥
  Accepts failed attempt action = ⊥
  Accepts (replied reply) attempt action =
      (is_client_error reply.http_status ≡ false) × (parse reply.body attempt ≡ accepted action)

  -- The outcome of the attempt is a reply that is refused for the reason.
  abbrev pub Refuses : AgentOutcome Body → ℕ → Reason → Type 0
  Refuses timed_out attempt reason = ⊥
  Refuses failed attempt reason = ⊥
  Refuses (replied reply) attempt reason = interpret parse reply attempt ≡ refused reason

  -- The outcome of the attempt is no reply, and the reason says why.
  abbrev pub Misses : AgentOutcome Body → Reason → Type 0
  Misses timed_out reason = reason ≡ timeout
  Misses failed reason = reason ≡ agent_error
  Misses (replied reply) reason = ⊥

  -- The second attempt is made: a retry is allowed, and the first reply is refused for the reason.
  abbrev pub Retries : ℕ → AgentOutcome Body → Reason → Type 0
  Retries retries first reason = (retries ≢ 0) × Refuses first 1 reason

  -- The first and the second outcome give the decision.
  abbrev pub IsDecided : ℕ → AgentOutcome Body → AgentOutcome Body → TurnDecision → Type 0
  IsDecided retries first again (parsed action) =
      Accepts first 1 action
      ⊎ (reason : Reason) × Retries retries first reason × Accepts again 2 action
  IsDecided retries first again (rejected x) =
      (x.attempts ≡ 1)
        × (x.validator_error ≡ none)
        × (Misses first x.reason ⊎ (retries ≡ 0) × Refuses first 1 x.reason)
      ⊎ (reason : Reason) × (x.attempts ≡ 2)
        × (x.validator_error ≡ some reason)
        × Retries retries first reason
        × (Misses again x.reason ⊎ Refuses again 2 x.reason)

  interpret-Accepts :
      (reply : AgentReply Body) (attempt : ℕ) (action : ParsedAction)
      → interpret parse reply attempt ≡ accepted action
      → Accepts (replied reply) attempt action
  unfolding interpret
  interpret-Accepts reply attempt action e = ground arith

  again-IsDecided :
      (retries : ℕ) (reply : AgentReply Body) (again : AgentOutcome Body) (reason : Reason)
      → retries ≢ 0
      → interpret parse reply 1 ≡ refused reason
      → IsDecided retries (replied reply) again (second_attempt parse reason again)
  unfolding second_attempt
  again-IsDecided retries reply timed_out reason r e = inr (reason, refl, refl, (r, e), inl refl)
  again-IsDecided retries reply failed reason r e = inr (reason, refl, refl, (r, e), inl refl)
  again-IsDecided retries reply (replied next) reason r e =
      elim (outcome-cases (interpret parse next 2)) [
        | inl (action, h) ↦
            rw (h, IsDecided, second_attempt)
              (inr (reason, (r, e), interpret-Accepts next 2 action h))
        | inr (second, h) ↦
            rw (h, IsDecided, second_attempt) (inr (reason, refl, refl, (r, e), inr h))
      ]

  first-IsDecided :
      (retries : ℕ) (first again : AgentOutcome Body)
      → IsDecided retries first again (first_attempt parse retries first again)
  unfolding first_attempt
  first-IsDecided retries timed_out again = inl (refl, refl, inl refl)
  first-IsDecided retries failed again = inl (refl, refl, inl refl)
  first-IsDecided retries (replied reply) again = elim (outcome-cases (interpret parse reply 1)) [
    | inl (action, h) ↦ rw (h, IsDecided, first_attempt) (inl (interpret-Accepts reply 1 action h))
    | inr (reason, h) ↦ elim (Bool-cases (retries == 0)) [
      | inl none_left ↦
          rw (h, none_left, IsDecided, first_attempt) (inl (refl, refl, inr (ground arith, h)))
      | inr some_left ↦
          rw (h, some_left, IsDecided, first_attempt)
            (again-IsDecided retries reply again reason (ground arith) h)
    ]
  ]

  -- The decision of a turn is an action that one of the two replies parses to, from a reply without
  -- a client error; or a rejection that says how many attempts were made and why each failed. The
  -- second attempt counts only after a first reply that is refused, with a retry left.
  pub request_decision-IsDecided :
      (retries : ℕ) (decide : ℕ → AgentOutcome Body)
      → IsDecided retries (decide 1) (decide 2) (request_decision parse retries decide)
  unfolding request_decision
  request_decision-IsDecided retries decide = first-IsDecided retries (decide 1) (decide 2)
