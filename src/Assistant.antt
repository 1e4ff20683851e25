-- ===== src/Assistant.antt =====
-- `runToolCallingLoop` and `dispatchTool` of
-- backend/src/modules/ai/application/conversation-orchestrator.service.ts. The language model and
-- the tool executor are interfaces; texts are numbers.
pub mod ToolLoop
use kapis_receptionist.Prelude.{
  ℕ, zero, suc, Bool, true, false, Option, none, some, List, [], ◌∷◌, ◌++◌, if◌then◌else◌,
}
use kapis_receptionist.Prelude.Action.{◌>>=◌, catch, Action, pure, ◌>>◌}

pub data ToolName : Type 0 where
  check_availability book_appointment reschedule_appointment cancel_appointment_tool : ToolName
  recommend_service answer_faq escalate_to_human unknown_tool : ToolName

pub record LlmToolCall : Type 0 where
  pub id : ℕ
  pub name : ToolName
  pub arguments : ℕ

pub data LlmRole : Type 0 where
  user_role assistant_role tool_role : LlmRole

-- What a tool call comes to, which is sent back to the model as JSON.
pub data ToolOutcome : Type 0 where
  simulated no_conversation unknown_tool_outcome : ToolOutcome
  tool_result tool_execution_failed : ℕ → ToolOutcome

pub data LlmContent : Type 0 where
  text_content : ℕ → LlmContent
  outcome_content : ToolOutcome → LlmContent
  no_content : LlmContent

pub record LlmMessage : Type 0 where
  pub role : LlmRole
  pub content : LlmContent
  pub tool_call_id : Option ℕ

pub record LlmCompletion : Type 0 where
  pub content : Option ℕ
  pub tool_calls : List LlmToolCall

pub record ExecutedCall : Type 0 where
  pub tool : ToolName
  pub result : ToolOutcome

-- The last reply of an exhausted loop is a fixed text.
pub data LoopContent : Type 0 where
  model_content : Option ℕ → LoopContent
  exhausted_content : LoopContent

pub record ToolCallingLoopResult : Type 0 where
  pub content : LoopContent
  pub tool_calls_executed : List ExecutedCall

-- `S` is what the tools read and write. An error of a tool has a message.
pub record Collaborators (S : Type 0) : Type 0 where
  pub complete : List LlmMessage → Action S ℕ LlmCompletion
  pub execute : ℕ → LlmToolCall → Action S ℕ ℕ

abbrev pub is_known_tool : ToolName → Bool
is_known_tool unknown_tool = false
is_known_tool name = true

abbrev pub assistant_message : Option ℕ → LlmMessage
assistant_message none = record { role = assistant_role; content = no_content; tool_call_id = none }
assistant_message (some text) = record {
  role = assistant_role;
  content = text_content text;
  tool_call_id = none;
}

abbrev pub tool_message : LlmToolCall → ToolOutcome → LlmMessage
tool_message call outcome = record {
  role = tool_role;
  content = outcome_content outcome;
  tool_call_id = some call.id;
}

abbrev pub max_tool_rounds : ℕ
max_tool_rounds = 3

module _ {S : Type 0} (c : Collaborators S) where
  -- The `switch`, and the `catch` around it.
  abbrev pub run_tool : ℕ → LlmToolCall → Action S ℕ ToolOutcome
  run_tool conversation call =
      if is_known_tool call.name
      then catch (c.execute conversation call >>= λ v. pure (tool_result v))
          (λ e. pure (tool_execution_failed e))
      else pure unknown_tool_outcome

  abbrev pub dispatch_in : Option ℕ → LlmToolCall → Action S ℕ ToolOutcome
  dispatch_in none call = pure no_conversation
  dispatch_in (some conversation) call = run_tool conversation call

  unfoldable pub dispatch_tool : Bool → Option ℕ → LlmToolCall → Action S ℕ ToolOutcome
  unfolding ◌>>=◌ catch
  dispatch_tool persist conversation call =
      if persist then dispatch_in conversation call else pure simulated

  -- The calls of one round: the messages and the executed calls that they add.
  unfoldable pub dispatch_all :
      Bool → Option ℕ → List LlmToolCall → Action S ℕ (List LlmMessage × List ExecutedCall)
  unfolding ◌>>=◌ dispatch_tool
  dispatch_all persist conversation [] = pure ([], [])
  dispatch_all persist conversation (call ∷ calls) = do
    outcome ← dispatch_tool persist conversation call
    rest ← dispatch_all persist conversation calls
    pure
        (tool_message call outcome ∷ rest.0, record { tool = call.name; result = outcome } ∷ rest.1)

  -- What follows a round: the answer of the model where it calls no tool, or the next round.
  abbrev pub after_round :
      Bool
      → Option ℕ
      → List LlmMessage
      → List ExecutedCall
      → LlmCompletion
      → List LlmToolCall
      → (List LlmMessage → List ExecutedCall → Action S ℕ ToolCallingLoopResult)
      → Action S ℕ ToolCallingLoopResult
  after_round persist conversation messages executed completion [] next =
      pure (record { content = model_content completion.content; tool_calls_executed = executed })
  after_round persist conversation messages executed completion (call ∷ calls) next = do
    added ← dispatch_all persist conversation (call ∷ calls)
    next (messages ++ assistant_message completion.content ∷ added.0) (executed ++ added.1)

  -- The loop, with the number of rounds that are left.
  unfoldable pub tool_rounds :
      ℕ → Bool → Option ℕ → List LlmMessage → List ExecutedCall → Action S ℕ ToolCallingLoopResult
  unfolding ◌>>=◌ dispatch_all
  tool_rounds zero persist conversation messages executed =
      pure (record { content = exhausted_content; tool_calls_executed = executed })
  tool_rounds (suc n) persist conversation messages executed = do
    completion ← c.complete messages
    after_round persist conversation messages executed completion completion.tool_calls
        (λ ms es. tool_rounds n persist conversation ms es)

  unfoldable pub run_tool_calling_loop :
      Option ℕ → List LlmMessage → Bool → Action S ℕ ToolCallingLoopResult
  unfolding tool_rounds
  run_tool_calling_loop conversation messages persist =
      tool_rounds max_tool_rounds persist conversation messages []
