-- ===== src/Assistant/ToolLoop.antt =====
-- The calls that a turn of the assistant makes:
-- backend/src/modules/ai/application/conversation-orchestrator.service.ts.
use kapis_receptionist.Prelude.Action.{
  Keeps, Keeps-pure, Action, keeps_rules, Keeps-bind, continue, ok, err, ◌>>=◌, pure, Result,
  Keeps-catch,
}
use kapis_receptionist.Prelude.{
  ℕ, false, Option, List, [], ◌∷◌, zero, suc, ◌+◌, ◌≤◌, subst, Bool, none, some, arith, true,
}
use kapis_receptionist.Assistant.{
  dispatch_all, after_round, tool_rounds, LlmToolCall, LlmMessage, ExecutedCall,
  ToolCallingLoopResult, Collaborators, LlmCompletion, dispatch_tool, max_tool_rounds,
  run_tool_calling_loop, dispatch_in,
}

module _ {S : Type 0} (c : Collaborators S) (P : S → Type 0) where
  dispatch_all-preview :
      (conversation : Option ℕ) (calls : List LlmToolCall)
      → Keeps P (dispatch_all c false conversation calls)
  unfolding dispatch_all dispatch_tool
  dispatch_all-preview conversation [] = Keeps-pure _
  dispatch_all-preview conversation (call ∷ calls) =
      search (keeps_rules, dispatch_all-preview conversation calls) depth 12

  after_round-preview :
      (conversation : Option ℕ) (ms : List LlmMessage) (es : List ExecutedCall)
      (completion : LlmCompletion) (calls : List LlmToolCall)
      (next : List LlmMessage → List ExecutedCall → Action S ℕ ToolCallingLoopResult)
      → ((ms' : List LlmMessage) (es' : List ExecutedCall) → Keeps P (next ms' es'))
      → Keeps P (after_round c false conversation ms es completion calls next)
  after_round-preview conversation ms es completion [] next kept = Keeps-pure _
  after_round-preview conversation ms es completion (call ∷ calls) next kept =
      search (keeps_rules, dispatch_all-preview, kept) depth 12

  tool_rounds-preview :
      (n : ℕ) (conversation : Option ℕ) (ms : List LlmMessage) (es : List ExecutedCall)
      → ((messages : List LlmMessage) → Keeps P (c.complete messages))
      → Keeps P (tool_rounds c n false conversation ms es)
  unfolding tool_rounds
  tool_rounds-preview zero conversation ms es kept = Keeps-pure _
  tool_rounds-preview (suc n) conversation ms es kept =
      Keeps-bind (c.complete ms) _ (kept ms) (λ completion.
        after_round-preview conversation ms es completion completion.tool_calls _
          (λ ms' es'. tool_rounds-preview n conversation ms' es' kept))

-- A turn that is not to be kept, from the dashboard, runs no tool: what the calls of the model
-- keep, the whole turn keeps, whatever the tools would do.
pub run_tool_calling_loop_preview :
    {S : Type 0} (c : Collaborators S) (P : S → Type 0) (conversation : Option ℕ)
    (messages : List LlmMessage) (s : S)
    → ((ms : List LlmMessage) → Keeps P (c.complete ms))
    → P s
    → P (run_tool_calling_loop c conversation messages false s).1
unfolding run_tool_calling_loop
run_tool_calling_loop_preview c P conversation messages s kept p =
    (tool_rounds-preview c P max_tool_rounds conversation messages [] kept).at s p

module _ {S A B : Type 0} (f : S → ℕ) where
  continue_bound :
      (k : A → Action S ℕ B) (r : Result ℕ A × S) (b d : ℕ)
      → f r.1 ≤ b
      → b ≤ d
      → ((a : A) (s : S) → f s ≤ b → f (k a s).1 ≤ d)
      → f (continue k r).1 ≤ d
  continue_bound k (ok a, s) b d h le next = next a s h
  continue_bound k (err e, s) b d h le next = omega arith

  >>=-bound :
      (m : Action S ℕ A) (k : A → Action S ℕ B) (s : S) (b d : ℕ)
      → f (m s).1 ≤ b
      → b ≤ d
      → ((a : A) (t : S) → f t ≤ b → f (k a t).1 ≤ d)
      → f ((m >>= k) s).1 ≤ d
  unfolding ◌>>=◌
  >>=-bound m k s b d h le next = continue_bound k (m s) b d h le next

module _ {S : Type 0} (c : Collaborators S) (f : S → ℕ) where
  -- What `f` counts: at most one for each call of the model, and none for a tool.
  abbrev CountsCalls : Type 0
  CountsCalls =
      ((ms : List LlmMessage) (s : S) → f (c.complete ms s).1 ≤ f s + 1)
      × ((conversation : ℕ) (call : LlmToolCall) (b : ℕ)
          → Keeps (λ s. f s ≤ b) (c.execute conversation call))

  dispatch_in-bound :
      (b : ℕ) (conversation : Option ℕ) (call : LlmToolCall)
      → CountsCalls
      → Keeps (λ s. f s ≤ b) (dispatch_in c conversation call)
  dispatch_in-bound b none call counts = Keeps-pure _
  dispatch_in-bound b (some conversation) call (one, free) =
      search (keeps_rules, Keeps-catch, free) depth 14

  dispatch_tool-bound :
      (b : ℕ) (persist : Bool) (conversation : Option ℕ) (call : LlmToolCall)
      → CountsCalls
      → Keeps (λ s. f s ≤ b) (dispatch_tool c persist conversation call)
  unfolding dispatch_tool
  dispatch_tool-bound b true conversation call counts = dispatch_in-bound b conversation call counts
  dispatch_tool-bound b false conversation call counts = Keeps-pure _

  dispatch_all-bound :
      (b : ℕ) (persist : Bool) (conversation : Option ℕ) (calls : List LlmToolCall)
      → CountsCalls
      → Keeps (λ s. f s ≤ b) (dispatch_all c persist conversation calls)
  unfolding dispatch_all
  dispatch_all-bound b persist conversation [] counts = Keeps-pure _
  dispatch_all-bound b persist conversation (call ∷ calls) counts =
      Keeps-bind (dispatch_tool c persist conversation call) _
        (dispatch_tool-bound b persist conversation call counts)
        (λ outcome.
          Keeps-bind (dispatch_all c persist conversation calls) _
            (dispatch_all-bound b persist conversation calls counts) (λ rest. Keeps-pure _))

  after_round-bound :
      (b d : ℕ) (persist : Bool) (conversation : Option ℕ) (ms : List LlmMessage)
      (es : List ExecutedCall) (completion : LlmCompletion) (calls : List LlmToolCall)
      (next : List LlmMessage → List ExecutedCall → Action S ℕ ToolCallingLoopResult) (s : S)
      → CountsCalls
      → b ≤ d
      → ((ms' : List LlmMessage) (es' : List ExecutedCall) (t : S)
          → f t ≤ b
          → f (next ms' es' t).1 ≤ d)
      → f s ≤ b
      → f (after_round c persist conversation ms es completion calls next s).1 ≤ d
  unfolding pure
  after_round-bound b d persist conversation ms es completion [] next s counts le rest h =
      omega arith
  after_round-bound b d persist conversation ms es completion (call ∷ calls) next s counts le rest
        h =
      >>=-bound f (dispatch_all c persist conversation (call ∷ calls)) _ s b d
        ((dispatch_all-bound b persist conversation (call ∷ calls) counts).at s h) le
        (λ added t k. rest _ _ t k)

  tool_rounds-bound :
      (n : ℕ) (persist : Bool) (conversation : Option ℕ) (ms : List LlmMessage)
      (es : List ExecutedCall) (s : S) (b : ℕ)
      → CountsCalls
      → f s ≤ b
      → f (tool_rounds c n persist conversation ms es s).1 ≤ b + n
  unfolding tool_rounds pure
  tool_rounds-bound zero persist conversation ms es s b counts h = omega arith
  tool_rounds-bound (suc n) persist conversation ms es s b (one, free) h =
      >>=-bound f (c.complete ms) _ s (b + 1) (b + suc n) (omega (arith, one ms s)) (omega arith)
        (λ completion t k.
          after_round-bound (b + 1) (b + suc n) persist conversation ms es completion
            completion.tool_calls _ t (one, free) (omega arith)
            (λ ms' es' u j.
              subst (λ m. f (tool_rounds c n persist conversation ms' es' u).1 ≤ m) (omega arith)
                (tool_rounds-bound n persist conversation ms' es' u (b + 1) (one, free) j))
            k)

-- The same collaborators, with a count of the completions that they are asked for.
abbrev pub counting : {S : Type 0} → Collaborators S → Collaborators (S × ℕ)
counting c = record {
  complete = λ ms w. let (r, t) = c.complete ms w.0 in (r, (t, w.1 + 1));
  execute = λ conversation call w. let (r, t) = c.execute conversation call w.0 in (r, (t, w.1));
}

-- The loop itself asks the language model for at most three completions, whatever the model answers
-- and the tools do. A completion that a tool asks for while it runs, as `answerFaq` does, is not
-- counted.
pub run_tool_calling_loop_bound :
    {S : Type 0} (c : Collaborators S) (conversation : Option ℕ) (messages : List LlmMessage)
    (persist : Bool) (s : S) (n : ℕ)
    → (run_tool_calling_loop (counting c) conversation messages persist (s, n)).1.1 ≤ n + 3
unfolding run_tool_calling_loop
run_tool_calling_loop_bound c conversation messages persist s n =
    tool_rounds-bound (counting c) (λ w. w.1) max_tool_rounds persist conversation messages []
      (s, n) n (λ ms w. omega arith, λ conversation' call b. record { at = λ w h. h }) (omega arith)
