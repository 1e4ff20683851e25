-- ===== src/Tests/CursorPages.antt =====
-- Pages of numbers, and a search among customers.
use kapis_receptionist.Prelude.{ℕ, refl, some, ◌≡◌, inl, true, false, ◌||◌, none, [], ◌∷◌, ◌==◌, In}
use kapis_receptionist.Pagination.{CursorTexts, desc, is_after, all_pages}
use kapis_receptionist.Pagination.CustomerList.{
  find_list, contains_in, CustomerListFilter, with_search, find_list_ignores_search, CustomerRow,
  find_list-In,
}
use kapis_receptionist.Pagination.Pages.{all_pages_complete}
use kapis_receptionist.Prelude.Action.{ok}

abbrev cursor_texts : CursorTexts (ℕ × ℕ)
cursor_texts = record {
  to_text = λ c. (c.v, c.id);
  of_text = λ n. some (record { v = some n.0; id = some n.1 });
  of_text-to_text = λ c. refl;
}

-- Rows are numbers, which are their own identifiers.
all_pages_complete_example :
    all_pages (λ x. x) (λ x. x) cursor_texts desc 2 (9 ∷ 7 ∷ 4 ∷ []) 4 none
    ≡ some (ok (9 ∷ 7 ∷ 4 ∷ []))
unfolding is_after
all_pages_complete_example =
    all_pages_complete (λ x. x) (λ x. x) desc cursor_texts 1 (9 ∷ 7 ∷ 4 ∷ [])
      ((refl, (refl, tt)), ((refl, tt), (tt, tt)))

abbrev ann : CustomerRow
ann = record {
  id = 3;
  tenant_id = 1;
  first_name = some 30;
  last_name = none;
  phone_number = 300;
  marketing_opt_in = false;
  deleted_at = none;
  created_at = 5;
}

abbrev everyone : CustomerListFilter
everyone = record {
  marketing_opt_in = none;
  q = some 30;
  direction = desc;
  cursor = none;
  limit = 2;
}

abbrev by_creation : CustomerRow → ℕ
by_creation c = c.created_at

find_list-In_example :
    In ann (ann ∷ [])
    × (ann.tenant_id ≡ 1)
    × (ann.deleted_at ≡ none)
    × ((contains_in (λ q text. text == q) 30 ann.first_name
          || contains_in (λ q text. text == q) 30 ann.last_name
          || ann.phone_number == 30)
        ≡ true)
unfolding find_list
find_list-In_example =
    find_list-In (λ q text. text == q) by_creation (ann ∷ []) 1 everyone 30 ann refl refl (inl refl)

find_list_ignores_search_example :
    find_list
      (λ q text. text == q)
      by_creation
      (ann ∷ [])
      1
      (with_search (some 99) (record everyone { cursor = some (record { v = 9; id = 9 }) }))
    ≡ find_list
        (λ q text. text == q)
        by_creation
        (ann ∷ [])
        1
        (record everyone { cursor = some (record { v = 9; id = 9 }) })
find_list_ignores_search_example =
    find_list_ignores_search (λ q text. text == q) by_creation (ann ∷ []) 1
      (record everyone { cursor = some (record { v = 9; id = 9 }) }) (record { v = 9; id = 9 }) refl
      (some 99)
