-- ===== src/Pagination/CustomerList.antt =====
-- `findList` of backend/src/modules/customers/infrastructure/prisma-customer.repository.ts.
use kapis_receptionist.Prelude.{
  or_else, ℕ, ◌+◌, ◌≡◌, refl, Bool, true, false, not, ◌&&◌, ◌||◌, Option, none, some, List, [], ◌∷◌,
  ◌==◌, is_some, any, keep, In, take, keep-In, take-In, arith,
}
use kapis_receptionist.Pagination.{CursorPayload, is_past, Direction}

pub record CustomerRow : Type 0 where
  pub id : ℕ
  pub tenant_id : ℕ
  pub first_name : Option ℕ
  pub last_name : Option ℕ
  pub phone_number : ℕ
  pub marketing_opt_in : Bool
  pub deleted_at : Option ℕ
  pub created_at : ℕ

pub record CustomerListFilter : Type 0 where
  pub marketing_opt_in : Option Bool
  pub q : Option ℕ
  pub direction : Direction
  pub cursor : Option CursorPayload
  pub limit : ℕ

-- The keys of the `where` object; `OR` is one key, which holds the alternatives.
pub record CustomerWhere : Type 0 where
  pub tenant_id : ℕ
  pub marketing_opt_in : Option Bool
  pub alternatives : Option (List (CustomerRow → Bool))

-- `contains` with `mode: 'insensitive'`, of the database; an absent text contains nothing.
abbrev pub contains_in : (ℕ → ℕ → Bool) → ℕ → Option ℕ → Bool
contains_in contains q none = false
contains_in contains q (some text) = contains q text

-- `...(filter.q ? { OR: [...] } : {})`
abbrev pub search_alternatives : (ℕ → ℕ → Bool) → Option ℕ → Option (List (CustomerRow → Bool))
search_alternatives contains none = none
search_alternatives contains (some q) = some (
    (λ c. contains_in contains q c.first_name)
    ∷ (λ c. contains_in contains q c.last_name)
    ∷ (λ c. contains q c.phone_number)
    ∷ [])

-- `...cursorWhereClause(sortField, sortDirection, cursor)`
abbrev pub cursor_alternatives :
    (CustomerRow → ℕ) → Direction → Option CursorPayload → Option (List (CustomerRow → Bool))
cursor_alternatives value dir none = none
cursor_alternatives value dir (some c) = some (
    (λ row. is_past dir c.v (value row))
    ∷ (λ row. value row == c.v && is_past dir c.id row.id)
    ∷ [])

abbrev pub is_allowed : Option Bool → Bool → Bool
is_allowed none b = true
is_allowed (some true) b = b
is_allowed (some false) b = not b

abbrev pub some_alternative : Option (List (CustomerRow → Bool)) → CustomerRow → Bool
some_alternative none row = true
some_alternative (some tests) row = any (λ test. test row) tests

module _ (contains : ℕ → ℕ → Bool) (value : CustomerRow → ℕ) where
  -- Of two spreads with the same key, the later one holds.
  unfoldable pub list_where : ℕ → CustomerListFilter → CustomerWhere
  list_where tenant filter = record {
    tenant_id = tenant;
    marketing_opt_in = filter.marketing_opt_in;
    alternatives =
        or_else (cursor_alternatives value filter.direction filter.cursor)
          (search_alternatives contains filter.q);
  }

  unfoldable pub satisfies_where : CustomerWhere → CustomerRow → Bool
  unfolding any
  satisfies_where w row =
      row.tenant_id == w.tenant_id
      && not (is_some row.deleted_at)
      && is_allowed w.marketing_opt_in row.marketing_opt_in
      && some_alternative w.alternatives row

  -- The table is in the order of the query.
  unfoldable pub find_list : List CustomerRow → ℕ → CustomerListFilter → List CustomerRow
  unfolding take keep satisfies_where list_where
  find_list table tenant filter =
      take (filter.limit + 1) (keep (satisfies_where (list_where tenant filter)) table)

abbrev pub with_search : Option ℕ → CustomerListFilter → CustomerListFilter
with_search q filter = record filter { q = q }

-- With a cursor, a list of customers does not depend on the search text: the second page of a
-- search has the customers that the search would leave out.
pub find_list_ignores_search :
    (contains : ℕ → ℕ → Bool) (value : CustomerRow → ℕ) (table : List CustomerRow) (tenant : ℕ)
    (filter : CustomerListFilter) (c : CursorPayload)
    → filter.cursor ≡ some c
    → (q : Option ℕ)
    → find_list contains value table tenant (with_search q filter)
      ≡ find_list contains value table tenant filter
unfolding find_list list_where
find_list_ignores_search contains value table tenant filter c paged q = rw paged refl

-- Without a cursor, each customer that a search lists is one of the tenant's, is not deleted, and
-- has a name or a phone number that contains the text.
pub find_list-In :
    (contains : ℕ → ℕ → Bool) (value : CustomerRow → ℕ) (table : List CustomerRow) (tenant : ℕ)
    (filter : CustomerListFilter) (q : ℕ) (row : CustomerRow)
    → filter.cursor ≡ none
    → filter.q ≡ some q
    → In row (find_list contains value table tenant filter)
    → In row table
      × (row.tenant_id ≡ tenant)
      × (row.deleted_at ≡ none)
      × ((contains_in contains q row.first_name
            || contains_in contains q row.last_name
            || contains q row.phone_number)
          ≡ true)
unfolding find_list list_where satisfies_where any
find_list-In contains value table tenant filter q row first search listed =
    let kept = take-In _ row _ listed in
    let (there, passes) = keep-In _ row table kept in
    (there, ground arith, ground arith, ground arith)
