-- ===== src/Ingestion/Persist/Rewritten.antt =====
-- An occurrence that is rewritten keeps its identifier and its key.
use Prim.Native.String.{String}
use mathlib.Core.Option.{some-injective}
use native.Mathlib.Nat.{le_trans}
use text.Mathlib.TextEquality.{eq_iff}
use mirth_spool.Base.{
  ℕ, suc, ◌≤◌, ◌<◌, ◌≡◌, refl, Bool, true, some, List, [], ◌∷◌, arith, ◌==◌, ==_refl, find,
  Bool-cases, inl, inr, All,
}
use mirth_spool.Base.Table.{count_where}
use mirth_spool.Ingestion.Rows.{PostRow, ContentInput}
use mirth_spool.Ingestion.Persist.{has_key, occurrence_data, kept_deletion}

unfoldable pub has_post_id : ℕ → PostRow → Bool
has_post_id i p = p.id == i

-- The invariant of the occurrences.
pub record HasUniqueKeys (posts : List PostRow) (next_id : ℕ) : Type 0 where
  pub ids : (i : ℕ) → count_where (has_post_id i) posts ≤ 1
  pub fresh : All (λ p. p.id < next_id) posts
  pub keys : (s : ℕ) (e : String) → count_where (has_key s e) posts ≤ 1

unfoldable pub rewritten : ContentInput → ℕ → PostRow → PostRow → PostRow
unfolding occurrence_data
rewritten item now old p = record (occurrence_data item now p) {
  provider_deleted_at = kept_deletion old.provider_deleted_at item.provider_deleted_at;
}

self_id : (x old : PostRow) → x ≡ old → has_post_id old.id x ≡ true
unfolding has_post_id
self_id x old same = rw same (==_refl old.id)

any_id_of_find :
    (p : PostRow → Bool) (old : PostRow) (posts : List PostRow)
    → find p posts ≡ some old
    → 1 ≤ count_where (has_post_id old.id) posts
unfolding count_where has_post_id
any_id_of_find p old [] e = cc
any_id_of_find p old (x ∷ xs) e = ground (arith, any_id_of_find p old xs)

none_of_zero :
    (q : PostRow → Bool) (R : PostRow → Type 0) (xs : List PostRow)
    → count_where q xs ≤ 0
    → All (λ y. q y ≡ true → R y) xs
unfolding count_where
none_of_zero q R [] h = tt
none_of_zero q R (x ∷ xs) h = ((λ e. absurd (ground arith)), none_of_zero q R xs (omega arith))

count-cons_true :
    (q : PostRow → Bool) (x : PostRow) (xs : List PostRow)
    → q x ≡ true
    → count_where q (x ∷ xs) ≡ suc (count_where q xs)
unfolding count_where
count-cons_true q x xs e = ground arith

count-cons-le :
    (q : PostRow → Bool) (x : PostRow) (xs : List PostRow)
    → count_where q xs ≤ count_where q (x ∷ xs)
unfolding count_where
count-cons-le q x xs = omega arith

-- Where identifiers are unique, the row with the identifier of the row found is the row found.
pub keeps_key :
    (s : ℕ) (e : String) (old : PostRow) (posts : List PostRow)
    → count_where (has_post_id old.id) posts ≤ 1
    → find (has_key s e) posts ≡ some old
    → All (λ x. has_post_id old.id x ≡ true → has_key s e x ≡ true) posts
keeps_key s e old [] h found = tt
keeps_key s e old (x ∷ xs) h found = elim (Bool-cases (has_key s e x)) [
  | inl here ↦
      let same : x ≡ old = some-injective _ _ (rw here at found) in
      let one = count-cons_true (has_post_id old.id) x xs (self_id x old same) in
      ((λ _. here), none_of_zero (has_post_id old.id) _ xs (omega arith))
  | inr other ↦
      let later = rw other at found in
      let some_id = any_id_of_find (has_key s e) old xs later in
      (
        (λ e'. absurd (omega (arith, count-cons_true (has_post_id old.id) x xs e'))),
        keeps_key s e old xs (le_trans (count-cons-le (has_post_id old.id) x xs) h) later,
      )
]

-- The rewritten row keeps its identifier, and its key where it had the item's.
pub rewritten-has_post_id :
    (item : ContentInput) (now : ℕ) (old : PostRow) (i : ℕ) (x : PostRow)
    → has_post_id i (rewritten item now old x) ≡ has_post_id i x
unfolding rewritten has_post_id occurrence_data
rewritten-has_post_id item now old i x = refl

pub rewritten-has_key :
    (item : ContentInput) (now : ℕ) (old : PostRow) (s s' : ℕ) (e' : String) (x : PostRow)
    → has_key s item.external_id x ≡ true
    → has_key s' e' (rewritten item now old x) ≡ has_key s' e' x
unfolding rewritten has_key occurrence_data
rewritten-has_key item now old s s' e' x h = ground (arith, eq_iff x.external_id item.external_id)
