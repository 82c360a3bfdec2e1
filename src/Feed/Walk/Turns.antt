-- ===== src/Feed/Walk/Turns.antt =====
-- One page after the other, where a page is the next rows of one part of the order.
use Prim.Native.String.{String}
use mathlib.Core.List.{append_assoc}
use mirth_spool.Base.{
  ℕ, zero, suc, ◌≤◌, ◌≡◌, refl, sym, ap, subst, ◌∙◌, Bool, true, false, Option, none, some, List,
  [], ◌∷◌, ◌++◌, arith, ltb, All, take, drop, length, Option-cases, inl, inr,
}
use mirth_spool.Feed.Query.{FeedRow}
use mirth_spool.Feed.Service.{FeedServices, FeedRequest, last_of, next_cursor_of, read_feed}
use mirth_spool.Feed.Walk.{Walk, last_page, next_page, IsSigned, page_of, text_at, feed_seed}
use mirth_spool.Feed.Parts.{rows_of, from_start}

-- Rows that have an end: what comes before the last one, and what comes behind.
pub record Cut (n : ℕ) (rows : List FeedRow) : Type 0 where
  pub before : List FeedRow
  pub row : FeedRow
  pub rest : List FeedRow
  pub whole : rows ≡ before ++ row ∷ rest
  pub shown : take n rows ≡ before ++ row ∷ []
  pub left : drop n rows ≡ rest
  pub ends : last_of (take n rows) ≡ some row

last_of-cons :
    (x : FeedRow) (xs : List FeedRow) (y : FeedRow)
    → last_of xs ≡ some y
    → last_of (x ∷ xs) ≡ some y
unfolding last_of
last_of-cons x [] y e = cc e
last_of-cons x (z ∷ xs) y e = e

pub length_zero : (rows : List FeedRow) → length rows ≡ 0 → rows ≡ []
length_zero [] e = refl
length_zero (x ∷ rows) e = absurd (omega (arith, e))

pub last_of-append :
    (xs ys : List FeedRow) (y : FeedRow) → last_of ys ≡ some y → last_of (xs ++ ys) ≡ some y
last_of-append [] ys y e = e
last_of-append (x ∷ xs) ys y e = last_of-cons x (xs ++ ys) y (last_of-append xs ys y e)

-- A page that is not empty has a last row.
pub cut : (n : ℕ) (rows : List FeedRow) → 1 ≤ n → 1 ≤ length rows → n ≤ length rows → Cut n rows
unfolding last_of
cut zero rows h k l = absurd (omega (arith, h))
cut (suc n) [] h k l = absurd (omega (arith, k))
cut (suc zero) (x ∷ xs) h k l = record {
  before = [];
  row = x;
  rest = xs;
  whole = refl;
  shown = refl;
  left = refl;
  ends = refl;
}
cut (suc (suc n)) (x ∷ xs) h k l =
    let c = cut (suc n) xs (omega arith) (omega (arith, l)) (omega (arith, l)) in
    record {
      before = x ∷ c.before;
      row = c.row;
      rest = c.rest;
      whole = ap (λ r. x ∷ r) c.whole;
      shown = ap (λ r. x ∷ r) c.shown;
      left = c.left;
      ends = last_of-cons x (take (suc n) xs) c.row c.ends;
    }

pub take-all : (n : ℕ) (rows : List FeedRow) → length rows ≤ n → take n rows ≡ rows
take-all zero [] h = refl
take-all (suc n) [] h = refl
take-all zero (x ∷ xs) h = absurd (omega (arith, h))
take-all (suc n) (x ∷ xs) h = ap (λ r. x ∷ r) (take-all n xs (omega (arith, h)))

pub take-drop : (n : ℕ) (rows : List FeedRow) → take n rows ++ drop n rows ≡ rows
take-drop zero rows = refl
take-drop (suc n) [] = refl
take-drop (suc n) (x ∷ xs) = ap (λ r. x ∷ r) (take-drop n xs)

no_cursor :
    (services : FeedServices) (request : FeedRequest) (w : Bool) (rows : List FeedRow)
    → (page_of services request w rows false).next_cursor ≡ none
unfolding next_cursor_of
no_cursor services request w rows = elim (Option-cases (last_of rows)) [
  | inl e ↦ rw (e, next_cursor_of) refl
  | inr (x, e) ↦ rw (e, next_cursor_of) refl
]

a_cursor :
    (services : FeedServices) (request : FeedRequest) (w : Bool) (rows : List FeedRow) (x : FeedRow)
    → last_of rows ≡ some x
    → (page_of services request w rows true).next_cursor ≡ some (text_at services request w x)
unfolding next_cursor_of
a_cursor services request w rows x e = rw (e, next_cursor_of) refl

module _ (services : FeedServices) (request : FeedRequest) where
  -- No cursor on a page behind which there is nothing.
  pub last_page_of :
      (c : Option String) (w : Bool) (rows : List FeedRow)
      → read_feed services request c ≡ some (page_of services request w rows false)
      → Walk services request c rows
  last_page_of c w rows e =
      last_page c (page_of services request w rows false) e (no_cursor services request w rows)

  -- A page whose last row gives the cursor.
  pub next_page_of :
      (c : Option String) (w : Bool) (rows : List FeedRow) (x : FeedRow) (rest : List FeedRow)
      → last_of rows ≡ some x
      → read_feed services request c ≡ some (page_of services request w rows true)
      → Walk services request (some (text_at services request w x)) rest
      → Walk services request c (rows ++ rest)
  next_page_of c w rows x rest last e walk =
      next_page c (page_of services request w rows true) (text_at services request w x) rest e
        (a_cursor services request w rows x last) walk

  abbrev pub part : Bool → List FeedRow
  part w = rows_of services.database (from_start services request (feed_seed services request) w)

  -- The cursors of all rows can be read.
  abbrev pub IsServed : Type 0
  IsServed = All (λ r. (w : Bool) → IsSigned services request w r) services.database

  -- A page of the next rows of a part.
  abbrev pub Reads : Option String → Bool → List FeedRow → Type 0
  Reads c w rest =
      read_feed services request c
      ≡ some
          (page_of services request w (take request.limit rest) (ltb request.limit (length rest)))

  -- A page that is followed by others.
  pub turn :
      (c : Option String) (w : Bool) (rest tail : List FeedRow)
      → 1 ≤ request.limit
      → ltb request.limit (length rest) ≡ true
      → Reads c w rest
      → ((k : Cut request.limit rest)
          → Walk services request (some (text_at services request w k.row)) (k.rest ++ tail))
      → Walk services request c (rest ++ tail)
  turn c w rest tail low more reads go =
      let k = cut request.limit rest low (ground (arith, more, low)) (ground (arith, more)) in
      let shown : Walk services request c (take request.limit rest ++ (k.rest ++ tail)) =
        next_page_of c w (take request.limit rest) k.row (k.rest ++ tail) k.ends (rw more at reads)
          (go k) in
      subst (Walk services request c)
        (sym (append_assoc (take request.limit rest) k.rest tail)
          ∙ ap (λ r. r ++ tail)
              (ap (λ r. take request.limit rest ++ r) (sym k.left) ∙ take-drop request.limit rest))
        shown

  pub end_of :
      (c : Option String) (w : Bool) (rest : List FeedRow)
      → ltb request.limit (length rest) ≡ false
      → Reads c w rest
      → Walk services request c rest
  end_of c w rest no_more reads =
      let all : take request.limit rest ≡ rest =
        take-all request.limit rest (ground (arith, no_more)) in
      last_page_of c w rest (rw (no_more, all) at reads)
