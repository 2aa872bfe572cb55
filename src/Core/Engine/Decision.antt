-- ===== src/Core/Engine/Decision.antt =====
-- core/engine.py, `_request_decision`: at most two calls of the agent, the second only after a reply
-- that does not parse. Requests, details and raw bodies are evidence and are left out.
pub mod Attempts
use wagmi_bench.Prelude.{
  ℕ, ◌+◌, Bool, true, false, ◌&&◌, leb, ◌==◌, Option, none, some, if◌then◌else◌,
}
use wagmi_bench.Core.Engine.State.{
  ParsedAction, Reason, schema_invalid, timeout, agent_error, Rejection, TurnDecision, parsed,
  rejected,
}

-- `ActionParseResult`: an action or a reason, never both.
pub data ActionParseResult : Type 0 where
  accepted : ParsedAction → ActionParseResult
  refused : Reason → ActionParseResult

-- `AgentReply`; the body's type is the agent's affair, the parser reads it.
pub record AgentReply (Body : Type 0) : Type 0 where
  pub body : Body
  pub http_status : Option ℕ

-- One call of `agent.decide`: a reply, `DecisionTimeout`, or another exception.
pub data AgentOutcome (Body : Type 0) : Type 0 where
  replied : AgentReply Body → AgentOutcome Body
  timed_out : AgentOutcome Body
  failed : AgentOutcome Body

unfoldable pub is_client_error : Option ℕ → Bool
is_client_error none = false
is_client_error (some status) = leb 400 status && leb status 499

abbrev rejection : Reason → Option Reason → ℕ → TurnDecision
rejection reason prior attempts =
    rejected (record { reason = reason; validator_error = prior; attempts = attempts })

-- `parse` is `parse_action` of core/action.py on the declared markets: the body and the attempt.
module _ {Body : Type 0} (parse : Body → ℕ → ActionParseResult) where
  -- Any HTTP 4xx is malformed, whatever its body.
  unfoldable pub interpret : AgentReply Body → ℕ → ActionParseResult
  unfolding is_client_error
  interpret reply attempt =
      if is_client_error reply.http_status then refused schema_invalid else parse reply.body attempt

  -- The second attempt, after the first reply was refused for `first`.
  unfoldable pub second_attempt : Reason → AgentOutcome Body → TurnDecision
  unfolding interpret
  second_attempt first timed_out = rejection timeout (some first) 2
  second_attempt first failed = rejection agent_error (some first) 2
  second_attempt first (replied reply) = elim (interpret reply 2) [
    | accepted action ↦ parsed action
    | refused reason ↦ rejection reason (some first) 2
  ]

  unfoldable pub first_attempt : ℕ → AgentOutcome Body → AgentOutcome Body → TurnDecision
  unfolding interpret second_attempt
  first_attempt retries timed_out again = rejection timeout none 1
  first_attempt retries failed again = rejection agent_error none 1
  first_attempt retries (replied reply) again = elim (interpret reply 1) [
    | accepted action ↦ parsed action
    | refused reason ↦ if retries == 0 then rejection reason none 1 else second_attempt reason again
  ]

  -- `_request_decision`, with the agent as the outcome of each attempt.
  unfoldable pub request_decision : ℕ → (ℕ → AgentOutcome Body) → TurnDecision
  unfolding first_attempt
  request_decision retries decide = first_attempt retries (decide 1) (decide 2)
