-- ===== src/Pagination.antt =====
-- backend/src/common/utils/cursor-pagination.util.ts, and the list query of
-- backend/src/modules/customers/infrastructure/prisma-customer.repository.ts that uses it.
-- Sort values and identifiers are numbers in their order; a sort value is not null, as the first
-- name of a customer can be.
pub mod Pages
pub mod CustomerList
use kapis_receptionist.Prelude.{
  ℕ, ◌≡◌, Bool, true, ◌&&◌, ◌||◌, Option, none, some, List, ltb, ◌==◌, zero, suc, ◌+◌, false, [],
  ◌∷◌, ◌++◌, if◌then◌else◌, length, keep, last_or, take,
}
use kapis_receptionist.Prelude.Action.{ok, Result, err}

pub data Direction : Type 0 where
  asc desc : Direction

pub record CursorPayload : Type 0 where
  pub v : ℕ
  pub id : ℕ

-- What `JSON.parse` makes of the text of a cursor.
pub record DecodedCursor : Type 0 where
  pub v : Option ℕ
  pub id : Option ℕ

pub data CursorError : Type 0 where
  cursor_expired : CursorError

-- JSON and base64url.
pub record CursorTexts (T : Type 0) : Type 0 where
  pub to_text : CursorPayload → T
  pub of_text : T → Option DecodedCursor
  pub of_text-to_text :
      (c : CursorPayload) → of_text (to_text c) ≡ some (record { v = some c.v; id = some c.id })

abbrev pub complete_payload : Option ℕ → Option ℕ → Result CursorError CursorPayload
complete_payload (some v) (some id) = ok (record { v = v; id = id })
complete_payload (some v) none = err cursor_expired
complete_payload none id = err cursor_expired

abbrev pub decoded : Option DecodedCursor → Result CursorError CursorPayload
decoded none = err cursor_expired
decoded (some c) = complete_payload c.v c.id

unfoldable pub decode_cursor : {T : Type 0} → CursorTexts T → T → Result CursorError CursorPayload
decode_cursor t text = decoded (t.of_text text)

unfoldable pub encode_cursor : {T : Type 0} → CursorTexts T → ℕ → ℕ → T
encode_cursor t sort_value id = t.to_text (record { v = sort_value; id = id })

-- `gt` for an ascending order, `lt` for a descending one.
abbrev pub is_past : Direction → ℕ → ℕ → Bool
is_past asc bound x = ltb bound x
is_past desc bound x = ltb x bound

-- The two alternatives of `cursorWhereClause`, on the sort value and the identifier of a row.
unfoldable pub is_after : Direction → CursorPayload → ℕ → ℕ → Bool
is_after dir c v id = is_past dir c.v v || v == c.v && is_past dir c.id id

pub record CursorPage (A T : Type 0) : Type 0 where
  pub items : List A
  pub next_cursor : Option T
  pub has_more : Bool

-- `items.at(-1)`
abbrev pub last_of : {A : Type 0} → List A → Option A
last_of [] = none
last_of (x ∷ xs) = some (last_or x xs)

module _ {A : Type 0} (value ident : A → ℕ) where
  -- Without a cursor there is no condition.
  unfoldable pub cursor_where_clause : Direction → Option CursorPayload → A → Bool
  unfolding is_after
  cursor_where_clause dir none row = true
  cursor_where_clause dir (some c) row = is_after dir c (value row) (ident row)

abbrev pub prepend :
    {A : Type 0}
    → List A
    → Option (Result CursorError (List A))
    → Option (Result CursorError (List A))
prepend items none = none
prepend items (some (ok rest)) = some (ok (items ++ rest))
prepend items (some (err e)) = some (err e)

module _ {A T : Type 0} (value ident : A → ℕ) where
  -- `hasMore && last ? encodeCursor(...) : null`
  abbrev pub next_of : CursorTexts T → Bool → Option A → Option T
  next_of t false last = none
  next_of t true none = none
  next_of t true (some row) = some (encode_cursor t (value row) (ident row))

  unfoldable pub build_cursor_page : CursorTexts T → List A → ℕ → CursorPage A T
  unfolding take encode_cursor last_or
  build_cursor_page t rows limit =
      let has_more = ltb limit (length rows) in
      let items = if has_more then take limit rows else rows in
      record {
        items = items;
        next_cursor = next_of t has_more (last_of items);
        has_more = has_more;
      }

  -- A list request without a cursor, or with the text of one: of the rows in the order of the
  -- query, the first ones after the cursor and one more.
  abbrev pub page_after :
      CursorTexts T → Direction → ℕ → List A → Option CursorPayload → CursorPage A T
  page_after t dir limit rows cursor =
      build_cursor_page t
        (take (limit + 1) (keep (cursor_where_clause value ident dir cursor) rows)) limit

  abbrev pub page_decoded :
      CursorTexts T
      → Direction
      → ℕ
      → List A
      → Result CursorError CursorPayload
      → Result CursorError (CursorPage A T)
  page_decoded t dir limit rows (ok cursor) = ok (page_after t dir limit rows (some cursor))
  page_decoded t dir limit rows (err e) = err e

  unfoldable pub list_page :
      CursorTexts T → Direction → ℕ → List A → Option T → Result CursorError (CursorPage A T)
  unfolding take keep cursor_where_clause build_cursor_page decode_cursor
  list_page t dir limit rows none = ok (page_after t dir limit rows none)
  list_page t dir limit rows (some text) = page_decoded t dir limit rows (decode_cursor t text)

  abbrev pub follow_next :
      List A
      → Option T
      → (T → Option (Result CursorError (List A)))
      → Option (Result CursorError (List A))
  follow_next items none rest = some (ok items)
  follow_next items (some next) rest = prepend items (rest next)

  -- The items of a page, and those of the pages after its cursor.
  abbrev pub follow :
      Result CursorError (CursorPage A T)
      → (T → Option (Result CursorError (List A)))
      → Option (Result CursorError (List A))
  follow (ok page) rest = follow_next page.items page.next_cursor rest
  follow (err e) rest = some (err e)

  -- A client that asks for page after page; `none` if there is a next page still after as many as
  -- the fuel says.
  unfoldable pub all_pages :
      CursorTexts T → Direction → ℕ → List A → ℕ → Option T → Option (Result CursorError (List A))
  unfolding list_page
  all_pages t dir limit rows zero text = none
  all_pages t dir limit rows (suc fuel) text =
      follow (list_page t dir limit rows text) (λ next. all_pages t dir limit rows fuel (some next))
