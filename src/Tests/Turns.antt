-- ===== src/Tests/Turns.antt =====
-- A retried request, and a turn of the assistant. The state counts.
use kapis_receptionist.Prelude.{ℕ, ◌+◌, ◌≤◌, ◌≡◌, refl, true, false, none, some, [], ◌∷◌}
use kapis_receptionist.Idempotency.{look_up, stored_of, intercept, GuardedRequest, Served, Route}
use kapis_receptionist.Idempotency.Retries.{retry_replays, retry_of_default_status}
use kapis_receptionist.Assistant.{
  run_tool_calling_loop, answer_faq, book_appointment, Collaborators,
}
use kapis_receptionist.Prelude.Action.{ok, Action}
use kapis_receptionist.Assistant.ToolLoop.{
  run_tool_calling_loop_preview, run_tool_calling_loop_bound, counting,
}

abbrev book_once : Action ℕ ℕ ℕ
book_once n = (ok 7, n + 1)

abbrev retried : GuardedRequest
retried = record { tenant_id = 1; key = some 4; body = 6 }

abbrev nothing_served : Served ℕ ℕ
nothing_served = record { responses = []; state = 0 }

-- A route with `@HttpCode(201)`, and one that leaves its status to the framework.
abbrev declared_route : Route
declared_route = record { http_code = some 201; default_status = 201 }

abbrev plain_route : Route
plain_route = record { http_code = none; default_status = 201 }

abbrev served_once : Served ℕ ℕ
served_once = record { responses = stored_of (λ x. x) retried 4 201 7 ∷ []; state = 1 }

retry_replays_example :
    intercept (λ x. x) declared_route true book_once retried served_once
    ≡ (ok (record { status_code = 201; body = 7 }), served_once)
unfolding intercept
retry_replays_example =
    retry_replays (λ x. x) declared_route book_once retried nothing_served
      {r = record { status_code = 201; body = 7 }} {w' = served_once} refl refl true book_once

retry_of_default_status_example :
    ((intercept (λ x. x) plain_route true book_once retried nothing_served).0
      ≡ ok (record { status_code = 201; body = 7 }))
    × ((intercept
          (λ x. x)
          plain_route
          true
          book_once
          retried
          (intercept (λ x. x) plain_route true book_once retried nothing_served).1).0
        ≡ ok (record { status_code = 200; body = 7 }))
unfolding look_up
retry_of_default_status_example =
    retry_of_default_status (λ x. x) plain_route book_once retried nothing_served {key = 4}
      {body = 7} {s = 1} refl refl refl refl

-- A model that always calls a tool, and a tool that does nothing.
abbrev busy : Collaborators ℕ
busy = record {
  complete = λ ms n. (
    ok (record {
      content = none;
      tool_calls = record { id = 1; name = answer_faq; arguments = 0 } ∷ [];
    }),
    n + 1,
  );
  execute = λ conversation call n. (ok 5, n);
}

run_tool_calling_loop_bound_example :
    (run_tool_calling_loop (counting busy) (some 1) [] true (0, 0)).1.1 ≤ 0 + 3
run_tool_calling_loop_bound_example = run_tool_calling_loop_bound busy (some 1) [] true 0 0

-- A model that leaves the state alone, with a tool that does not.
abbrev eager : Collaborators ℕ
eager = record {
  complete = λ ms n. (
    ok (record {
      content = none;
      tool_calls = record { id = 1; name = book_appointment; arguments = 0 } ∷ [];
    }),
    n,
  );
  execute = λ conversation call n. (ok 5, n + 1);
}

run_tool_calling_loop_preview_example : (run_tool_calling_loop eager (some 1) [] false 0).1 ≡ 0
run_tool_calling_loop_preview_example =
    run_tool_calling_loop_preview eager (λ n. n ≡ 0) (some 1) [] 0 (λ ms. record { at = λ n h. h })
      refl
