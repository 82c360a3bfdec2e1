-- ===== src/Ingestion/Due/Listed.antt =====
-- Which sources are listed as due, and in which order.
use mirth_spool.Base.{
  ℕ, ◌≡◌, ◌≤◌, ◌<◌, ◌⊎◌, refl, ap, ◌∙◌, Bool, true, false, not, ◌&&◌, Option, none, some, List, [],
  ◌∷◌, arith, leb, ltb, ◌==◌, if◌then◌else◌, filter, take, Bool-cases, inl, inr,
}
use mirth_spool.Base.Sort.{sort}
use mirth_spool.Base.Rank.{ranks_before}
use mirth_spool.Base.Int.{ℤ, pos, negsuc, pos_part, neg_part, ltb_ℤ, eqb_ℤ}
use mirth_spool.Ingestion.Rows.{SourceRow}
use mirth_spool.Ingestion.Runs.{is_pollable}
use mirth_spool.Ingestion.Due.{is_due, polled_before, due_before, list_due_sources}

-- Due is what is not deleted, is enabled, and has no next poll or one that is not after now.
unfoldable pub due_now : ℕ → Option ℕ → Bool → Option ℕ → Bool
due_now now (some t) enabled next = false
due_now now none false next = false
due_now now none true none = true
due_now now none true (some t) = not (ltb now t)

unfoldable pub null_rank : Option ℕ → ℕ
null_rank none = 1
null_rank (some t) = 0

unfoldable pub poll_rank : Option ℕ → ℕ
poll_rank none = 0
poll_rank (some t) = t

-- The higher priority, then the earlier next poll with none at the end, then the smaller identifier.
-- The columns of a descending order are swapped.
unfoldable pub listed_before : SourceRow → SourceRow → Bool
unfolding null_rank poll_rank
listed_before a b =
    ranks_before
      (neg_part a.priority
        ∷ pos_part b.priority
        ∷ null_rank a.next_poll_at
        ∷ poll_rank a.next_poll_at
        ∷ a.id
        ∷ [])
      (neg_part b.priority
        ∷ pos_part a.priority
        ∷ null_rank b.next_poll_at
        ∷ poll_rank b.next_poll_at
        ∷ b.id
        ∷ [])

-- The due sources in their order.
unfoldable pub due_order : ℕ → List SourceRow → List SourceRow
unfolding due_now listed_before
due_order now sources =
    sort listed_before
      (filter (λ (s : SourceRow). due_now now s.deleted_at s.enabled s.next_poll_at) sources)

due_now_lem :
    (now : ℕ) (deleted : Option ℕ) (enabled : Bool) (next : Option ℕ)
    → ((elim deleted [ none ↦ true | some _ ↦ false ])
        && enabled
        && (elim next [ none ↦ true | some t ↦ leb t now ]))
      ≡ due_now now deleted enabled next
unfolding due_now
due_now_lem now (some t) enabled next = refl
due_now_lem now none false next = refl
due_now_lem now none true none = refl
due_now_lem now none true (some t) = ground arith

is_due-due_now :
    (now : ℕ) (s : SourceRow) → is_due now s ≡ due_now now s.deleted_at s.enabled s.next_poll_at
unfolding is_due is_pollable
is_due-due_now now s = due_now_lem now s.deleted_at s.enabled s.next_poll_at

-- The order of the polls and the identifiers.
polls :
    (p q : Option ℕ) (m n : ℕ)
    → (elim p [
      | none ↦ elim q [ none ↦ leb m n | some t ↦ false ]
      | some s ↦ elim q [ none ↦ true | some t ↦ if s == t then leb m n else ltb s t ]
    ])
      ≡ ranks_before (null_rank p ∷ poll_rank p ∷ m ∷ []) (null_rank q ∷ poll_rank q ∷ n ∷ [])
unfolding null_rank poll_rank ranks_before
polls none none m n = ground arith
polls none (some t) m n = refl
polls (some s) none m n = refl
polls (some s) (some t) m n = ground arith

priorities :
    (a b : ℤ) (x : Bool)
    → (if eqb_ℤ a b then x else ltb_ℤ b a) ≡ (
        if neg_part a == neg_part b
        then (if pos_part b == pos_part a then x else ltb (pos_part b) (pos_part a))
        else ltb (neg_part a) (neg_part b))
priorities (pos m) (pos n) x = ground arith
priorities (pos m) (negsuc n) x = ground arith
priorities (negsuc m) (pos n) x = ground arith
priorities (negsuc m) (negsuc n) x = ground arith

due_before-listed_before : (a b : SourceRow) → due_before a b ≡ listed_before a b
unfolding due_before polled_before listed_before ranks_before
due_before-listed_before a b =
    ap (λ x. if eqb_ℤ a.priority b.priority then x else ltb_ℤ b.priority a.priority)
      (polls a.next_poll_at b.next_poll_at a.id b.id)
    ∙ priorities a.priority b.priority _

-- For a limit from 1 to 500 the list has the first due sources, as many as the limit or all if there
-- are fewer: what is not deleted, is enabled, and has no next poll or one that is not after now. They
-- are in the order of their priorities, the highest first, then of their next polls, with none at the
-- end, then of their identifiers. Another limit is rejected.
pub list_due_sources-due_order :
    (sources : List SourceRow) (now limit : ℕ)
    → ((1 ≤ limit)
        × (limit ≤ 500)
        × (list_due_sources sources now limit ≡ some (take limit (due_order now sources))))
      ⊎ (((limit < 1) ⊎ (500 < limit)) × (list_due_sources sources now limit ≡ none))
unfolding list_due_sources due_order
list_due_sources-due_order sources now limit = elim (Bool-cases (leb 1 limit && leb limit 500)) [
  | inl e ↦ inl (
    ground (arith, e),
    ground (arith, e),
    rw e λ i. some (
        take limit (
          sort (λ a b. due_before-listed_before a b i)
            (filter (λ (s : SourceRow). is_due-due_now now s i) sources))),
  )
  | inr e ↦ inr (ground (arith, e), rw e refl)
]
