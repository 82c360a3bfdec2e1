-- ===== src/Ingestion/Due.antt =====
-- `listDueSources` of packages/db/src/repositories/ingestion.ts: the sources that are to be polled.
pub mod Listed
use mirth_spool.Base.{
  ℕ, Bool, true, false, ◌&&◌, Option, none, some, List, leb, ltb, ◌==◌, if◌then◌else◌, filter, take,
}
use mirth_spool.Base.Sort.{sort}
use mirth_spool.Base.Int.{ltb_ℤ, eqb_ℤ}
use mirth_spool.Ingestion.Rows.{SourceRow}
use mirth_spool.Ingestion.Runs.{is_pollable}

-- { deletedAt: null, enabled: true, OR: [{ nextPollAt: null }, { nextPollAt: { lte: now } }] }
unfoldable pub is_due : ℕ → SourceRow → Bool
unfolding is_pollable
is_due now s = is_pollable s && elim s.next_poll_at [ none ↦ true | some t ↦ leb t now ]

-- nextPollAt ascending, where the database puts what is null last, then the identifier
pub polled_before : SourceRow → SourceRow → Bool
polled_before a b = elim a.next_poll_at [
  | none ↦ elim b.next_poll_at [ none ↦ leb a.id b.id | some t ↦ false ]
  | some s ↦ elim b.next_poll_at [
    | none ↦ true
    | some t ↦ if s == t then leb a.id b.id else ltb s t
  ]
]

pub due_before : SourceRow → SourceRow → Bool
unfolding polled_before
due_before a b =
    if eqb_ℤ a.priority b.priority then polled_before a b else ltb_ℤ b.priority a.priority

-- `none` where the limit is rejected.
unfoldable pub list_due_sources : List SourceRow → ℕ → ℕ → Option (List SourceRow)
unfolding is_due due_before
list_due_sources sources now limit =
    if leb 1 limit && leb limit 500
    then some (take limit (sort due_before (filter (is_due now) sources)))
    else none
