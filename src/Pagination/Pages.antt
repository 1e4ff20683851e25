-- ===== src/Pagination/Pages.antt =====
-- The pages of a list, one after the other: backend/src/common/utils/cursor-pagination.util.ts.
use kapis_receptionist.Prelude.{
  ℕ, zero, suc, ◌≤◌, ◌<◌, ◌≡◌, refl, ap, inl, inr, Bool, true, false, some, List, [], ◌∷◌, ◌++◌,
  arith, length, keep, last_or, All, take, All-In, In-append, ◌+◌, ◌∙◌, subst, none, ltb, sym,
  Option, Bool-cases,
}
use kapis_receptionist.Pagination.{
  desc, last_of, asc, is_after, Direction, CursorTexts, build_cursor_page, decode_cursor,
  encode_cursor, follow, CursorPayload, list_page, cursor_where_clause, page_after, all_pages,
  CursorError,
}
use kapis_receptionist.Prelude.Action.{ok, Result}
use mathlib.Core.List.{append_assoc}

is_after_irrefl :
    (dir : Direction) (v id : ℕ) → is_after dir (record { v = v; id = id }) v id ≡ false
unfolding is_after
is_after_irrefl asc v id = ground arith
is_after_irrefl desc v id = ground arith

is_after_asym :
    (dir : Direction) (v id w j : ℕ)
    → is_after dir (record { v = v; id = id }) w j ≡ true
    → is_after dir (record { v = w; id = j }) v id ≡ false
unfolding is_after
is_after_asym asc v id w j h = ground arith
is_after_asym desc v id w j h = ground arith

module _ {A : Type 0} where
  take-all : (n : ℕ) (xs : List A) → length xs ≤ n → take n xs ≡ xs
  unfolding take
  take-all zero [] h = refl
  take-all zero (x ∷ xs) h = absurd (ground arith)
  take-all (suc n) [] h = refl
  take-all (suc n) (x ∷ xs) h = ap (λ ys. x ∷ ys) (take-all n xs (omega arith))

  length-take : (n : ℕ) (xs : List A) → n ≤ length xs → length (take n xs) ≡ n
  unfolding take
  length-take zero xs h = refl
  length-take (suc n) [] h = absurd (ground arith)
  length-take (suc n) (x ∷ xs) h = omega (arith, length-take n xs (omega arith))

  take-take : (n : ℕ) (xs : List A) → take n (take (suc n) xs) ≡ take n xs
  unfolding take
  take-take zero xs = refl
  take-take (suc n) [] = refl
  take-take (suc n) (x ∷ xs) = ap (λ ys. x ∷ ys) (take-take n xs)

  -- The first elements of a list, with the last of them and what follows it.
  abbrev IsSplit : ℕ → List A → Type 0
  IsSplit m d =
      (q : List A) × (x : A) × (d' : List A) × (d ≡ q ++ x ∷ d')
      × (take (suc m) d ≡ q ++ x ∷ [])
      × (length d' < length d)

  split : (m : ℕ) (d : List A) → m < length d → IsSplit m d
  unfolding take
  split m [] h = absurd (ground arith)
  split zero (x ∷ d) h = ([], x, d, refl, refl, ground arith)
  split (suc m) (y ∷ d) h =
      let (q, x, d', e, t, l) = split m d (omega arith) in
      (y ∷ q, x, d', ap (λ ys. y ∷ ys) e, ap (λ ys. y ∷ ys) t, omega arith)

  last_or-append : (y x : A) (q : List A) → last_or y (q ++ x ∷ []) ≡ x
  unfolding last_or
  last_or-append y x [] = refl
  last_or-append y x (z ∷ q) = last_or-append z x q

  last_of-append : (x : A) (q : List A) → last_of (q ++ x ∷ []) ≡ some x
  unfolding last_or
  last_of-append x [] = refl
  last_of-append x (z ∷ q) = ap some (last_or-append z x q)

module _ {A : Type 0} (value ident : A → ℕ) (dir : Direction) where
  abbrev pub follows : A → A → Bool
  follows x y = is_after dir (record { v = value x; id = ident x }) (value y) (ident y)

  -- Each row comes after those before it: the order of the query, of rows with distinct
  -- identifiers.
  abbrev pub IsOrdered : List A → Type 0
  IsOrdered [] = Unit {0}
  IsOrdered (x ∷ xs) = All (λ y. follows x y ≡ true) xs × IsOrdered xs

  keep-All : (p : A → Bool) (xs : List A) → All (λ y. p y ≡ true) xs → keep p xs ≡ xs
  unfolding keep
  keep-All p [] h = refl
  keep-All p (x ∷ xs) (e, h) = rw (e, keep-All p xs h) refl

  keep-suffix : (x : A) (q d : List A) → IsOrdered (q ++ x ∷ d) → keep (follows x) (q ++ x ∷ d) ≡ d
  unfolding keep
  keep-suffix x [] d (all, h) =
      rw (is_after_irrefl dir (value x) (ident x)) (keep-All (follows x) d all)
  keep-suffix x (y ∷ q) d (all, h) =
      rw
        (is_after_asym dir (value y) (ident y) (value x) (ident x) (
          All-In (λ z. follows y z ≡ true) (q ++ x ∷ d) x all
            (In-append x q (x ∷ d) (inr (inl refl)))))
        (keep-suffix x q d h)

  module _ {T : Type 0} (t : CursorTexts T) where
    last_page :
        (m : ℕ) (d : List A)
        → length d ≤ suc m
        → build_cursor_page value ident t (take (suc m + 1) d) (suc m)
          ≡ record { items = d; next_cursor = none; has_more = false }
    unfolding build_cursor_page
    last_page m d h =
        let few : ltb (suc m) (length d) ≡ false = ground arith in
        rw (take-all (suc m + 1) d (omega arith), few) refl

    full_page :
        (m : ℕ) (d q : List A) (x : A)
        → suc m < length d
        → take (suc m) d ≡ q ++ x ∷ []
        → build_cursor_page value ident t (take (suc m + 1) d) (suc m) ≡ record {
          items = q ++ x ∷ [];
          next_cursor = some (encode_cursor t (value x) (ident x));
          has_more = true;
        }
    unfolding build_cursor_page
    full_page m d q x h e =
        let many : ltb (suc m) (length (take (suc m + 1) d)) ≡ true =
          rw (length-take (suc m + 1) d (omega arith)) (ground arith) in
        let plus : suc (suc m) ≡ suc m + 1 = omega arith in
        let first : take (suc m) (take (suc m + 1) d) ≡ q ++ x ∷ [] =
          subst (λ n. take (suc m) (take n d) ≡ q ++ x ∷ []) plus (take-take (suc m) d ∙ e) in
        rw (many, first, last_of-append x q) refl

    decode_cursor-encode_cursor :
        (v id : ℕ) → decode_cursor t (encode_cursor t v id) ≡ ok (record { v = v; id = id })
    unfolding decode_cursor encode_cursor
    decode_cursor-encode_cursor v id = rw (t.of_text-to_text (record { v = v; id = id })) refl

    abbrev cursor_of : A → CursorPayload
    cursor_of x = record { v = value x; id = ident x }

    -- The rest of a run from a cursor: the page there, and those that follow.
    abbrev run_from : ℕ → ℕ → List A → Option CursorPayload → Option (Result CursorError (List A))
    run_from n limit rows c =
        follow value ident (ok (page_after value ident t dir limit rows c))
          (λ next. all_pages value ident t dir limit rows n (some next))

    all_pages-run_from :
        (n limit : ℕ) (rows : List A) (x : A)
        → all_pages value ident t dir limit rows
            (suc n)
            (some (encode_cursor t (value x) (ident x)))
          ≡ run_from n limit rows (some (cursor_of x))
    unfolding all_pages list_page
    all_pages-run_from n limit rows x = rw (decode_cursor-encode_cursor (value x) (ident x)) refl

    kept-after :
        (rows p q : List A) (x : A) (d' : List A)
        → IsOrdered rows
        → rows ≡ (p ++ q) ++ x ∷ d'
        → keep (cursor_where_clause value ident dir (some (cursor_of x))) rows ≡ d'
    unfolding cursor_where_clause
    kept-after rows p q x d' ordered e =
        subst (λ r. keep (follows x) r ≡ d') (sym e)
          (keep-suffix x (p ++ q) d' (subst IsOrdered e ordered))

    run_from-rest :
        (n m : ℕ) (rows p d : List A) (c : Option CursorPayload)
        → IsOrdered rows
        → rows ≡ p ++ d
        → keep (cursor_where_clause value ident dir c) rows ≡ d
        → length d ≤ n
        → run_from n (suc m) rows c ≡ some (ok d)
    run_from-rest zero m rows p d c ordered e kept l = rw (kept, last_page m d (omega arith)) refl
    run_from-rest (suc n) m rows p d c ordered e kept l =
        elim (Bool-cases (ltb (suc m) (length d))) [
          | inr few ↦ rw (kept, last_page m d (ground arith)) refl
          | inl many ↦
              let (q, x, d', e', first, shorter) = split m d (ground arith) in
              let whole : rows ≡ (p ++ q) ++ x ∷ d' =
                e ∙ ap (λ w. p ++ w) e' ∙ sym (append_assoc p q (x ∷ d')) in
              let rest : run_from n (suc m) rows (some (cursor_of x)) ≡ some (ok d') =
                run_from-rest n m rows ((p ++ q) ++ x ∷ []) d' (some (cursor_of x)) ordered
                  (whole ∙ sym (append_assoc (p ++ q) (x ∷ []) d'))
                  (kept-after rows p q x d' ordered whole) (omega arith) in
              rw
                (
                  kept,
                  full_page m d q x (ground arith) first,
                  all_pages-run_from n (suc m) rows x,
                  rest,
                )
                (ap (λ w. some (ok w)) (append_assoc q (x ∷ []) d' ∙ sym e'))
        ]

    kept-none : (rows : List A) → keep (cursor_where_clause value ident dir none) rows ≡ rows
    unfolding keep cursor_where_clause
    kept-none [] = refl
    kept-none (x ∷ rows) = ap (λ ys. x ∷ ys) (kept-none rows)

    -- Asked for one after the other, each with the cursor of the one before, the pages of a list
    -- whose rows are in the order of the query, with sort values that are not null, end after at most
    -- one page more than there are rows, with a page that names no next one, and together they are
    -- the list: no row is left out and none comes twice.
    pub all_pages_complete :
        (m : ℕ) (rows : List A)
        → IsOrdered rows
        → all_pages value ident t dir (suc m) rows (suc (length rows)) none ≡ some (ok rows)
    unfolding all_pages list_page
    all_pages_complete m rows ordered =
        run_from-rest (length rows) m rows [] rows none ordered refl (kept-none rows) (omega arith)
