-- ===== src/Base/Table.antt =====
-- Database tables as lists of rows: the parts of Prisma's `updateMany`, `deleteMany`, `findFirst`
-- and `count` that the repositories use. A row is named by its number.
use mathlib.Core.Option.{some-injective}
use mirth_spool.Base.{
  ap, All, ◌&&◌, none, Bool-cases, inl, inr, ◌≤◌, ◌≡◌, refl, true, false, some, arith, length, any,
  find, ℕ, ◌+◌, Bool, List, [], ◌∷◌, if◌then◌else◌,
}

module _ {ℓ} {A : Type ℓ} where
  -- updateMany({ where, data })
  unfoldable pub update_where : (A → Bool) → (A → A) → List A → List A
  update_where p f [] = []
  update_where p f (x ∷ xs) = (if p x then f x else x) ∷ update_where p f xs

  -- deleteMany({ where })
  unfoldable pub delete_where : (A → Bool) → List A → List A
  delete_where p [] = []
  delete_where p (x ∷ xs) = if p x then delete_where p xs else x ∷ delete_where p xs

  -- count({ where })
  unfoldable pub count_where : (A → Bool) → List A → ℕ
  count_where p [] = 0
  count_where p (x ∷ xs) = (if p x then 1 else 0) + count_where p xs

  module _ (q p : A → Bool) (f : A → A) where
    -- An update that makes no row satisfy `q` leaves at most as many that do.
    pub count-update_where-le :
        ((x : A) → p x ≡ true → q (f x) ≡ true → q x ≡ true)
        → (xs : List A) → count_where q (update_where p f xs) ≤ count_where q xs
    unfolding count_where update_where
    count-update_where-le h [] = omega arith
    count-update_where-le h (x ∷ xs) = ground (arith, h x, count-update_where-le h xs)

    -- An update that keeps `q` of every row keeps the count.
    pub count-update_where :
        ((x : A) → p x ≡ true → q (f x) ≡ q x)
        → (xs : List A) → count_where q (update_where p f xs) ≡ count_where q xs
    unfolding count_where update_where
    count-update_where h [] = refl
    count-update_where h (x ∷ xs) = ground (arith, h x, count-update_where h xs)

  pub count-zero_of_any : (q : A → Bool) (xs : List A) → any q xs ≡ false → count_where q xs ≡ 0
  unfolding count_where
  count-zero_of_any q [] h = refl
  count-zero_of_any q (x ∷ xs) h = ground (arith, count-zero_of_any q xs)

  pub count-delete_where-le :
      (q p : A → Bool) (xs : List A) → count_where q (delete_where p xs) ≤ count_where q xs
  unfolding count_where delete_where
  count-delete_where-le q p [] = omega arith
  count-delete_where-le q p (x ∷ xs) = ground (arith, count-delete_where-le q p xs)

  pub length-update_where :
      (p : A → Bool) (f : A → A) (xs : List A) → length (update_where p f xs) ≡ length xs
  unfolding update_where
  length-update_where p f [] = refl
  length-update_where p f (x ∷ xs) = ground (arith, length-update_where p f xs)

  pub find-some : (p : A → Bool) (xs : List A) (a : A) → find p xs ≡ some a → p a ≡ true
  find-some p [] a h = cc
  find-some p (x ∷ xs) a h = ground (arith, find-some p xs a)

  pub any_of_find-none : (p : A → Bool) (xs : List A) → find p xs ≡ none → any p xs ≡ false
  any_of_find-none p [] e = refl
  any_of_find-none p (x ∷ xs) e = ground (arith, any_of_find-none p xs)

  pub any_of_find-some : (p : A → Bool) (xs : List A) (a : A) → find p xs ≡ some a → any p xs ≡ true
  any_of_find-some p [] a e = cc
  any_of_find-some p (x ∷ xs) a e = ground (arith, any_of_find-some p xs a)

  pub find_of_any : (p : A → Bool) (xs : List A) → any p xs ≡ true → (a : A) × (find p xs ≡ some a)
  find_of_any p [] e = cc
  find_of_any p (x ∷ xs) e = elim (Bool-cases (p x)) [
    | inl here ↦ (x, rw here)
    | inr other ↦ rw other (find_of_any p xs (rw other at e))
  ]

  -- An update that keeps `q` of the rows that it changes keeps the count, and so do `any` and `All`.
  module _ (q p : A → Bool) (f : A → A) where
    pub count-update_where-All :
        (xs : List A)
        → All (λ x. p x ≡ true → q (f x) ≡ q x) xs
        → count_where q (update_where p f xs) ≡ count_where q xs
    unfolding count_where update_where
    count-update_where-All [] h = refl
    count-update_where-All (x ∷ xs) h = ground (arith, h.0, count-update_where-All xs h.1)

    pub any-update_where-All :
        (xs : List A)
        → All (λ x. p x ≡ true → q (f x) ≡ q x) xs
        → any q (update_where p f xs) ≡ any q xs
    unfolding update_where
    any-update_where-All [] h = refl
    any-update_where-All (x ∷ xs) h = ground (arith, h.0, any-update_where-All xs h.1)

  pub All-update_where {κ} :
      (P : A → Type κ) (p : A → Bool) (f : A → A) (xs : List A)
      → ((x : A) → P x → P (f x))
      → All P xs
      → All P (update_where p f xs)
  unfolding update_where
  All-update_where P p f [] k h = tt
  All-update_where P p f (x ∷ xs) k h = elim (Bool-cases (p x)) [
    | inl e ↦ rw e (k x h.0, All-update_where P p f xs k h.1)
    | inr e ↦ rw e (h.0, All-update_where P p f xs k h.1)
  ]

-- An update, where the rows that it changes and those that it leaves are known apart.
pub update_where-each {ℓ κ} :
    {A : Type ℓ} (P Q : A → Type κ) (p : A → Bool) (f : A → A) (xs : List A)
    → ((x : A) → P x → p x ≡ true → Q (f x))
    → ((x : A) → P x → p x ≡ false → Q x)
    → All P xs
    → All Q (update_where p f xs)
unfolding update_where
update_where-each P Q p f [] h k u = tt
update_where-each P Q p f (x ∷ xs) h k u = elim (Bool-cases (p x)) [
  | inl e ↦ rw e (h x u.0 e, update_where-each P Q p f xs h k u.1)
  | inr e ↦ rw e (k x u.0 e, update_where-each P Q p f xs h k u.1)
]

-- A deletion, where what stays is known to fail the test.
pub delete_where-each {ℓ κ} :
    {A : Type ℓ} (P Q : A → Type κ) (p : A → Bool) (xs : List A)
    → ((x : A) → P x → p x ≡ false → Q x)
    → All P xs
    → All Q (delete_where p xs)
unfolding delete_where
delete_where-each P Q p [] k u = tt
delete_where-each P Q p (x ∷ xs) k u = elim (Bool-cases (p x)) [
  | inl e ↦ rw e (delete_where-each P Q p xs k u.1)
  | inr e ↦ rw e (k x u.0 e, delete_where-each P Q p xs k u.1)
]

module _ {ℓ} {A : Type ℓ} where
  -- What is found by one test and passes another is among the rows.
  pub any_of_find :
      (p q : A → Bool) (xs : List A) (a : A) → find p xs ≡ some a → q a ≡ true → any q xs ≡ true
  any_of_find p q [] a e h = cc
  any_of_find p q (x ∷ xs) a e h = elim (Bool-cases (p x)) [
    | inl here ↦ rw (ap q (some-injective _ _ (rw here at e)), h) refl
    | inr other ↦ ground (arith, any_of_find p q xs a (rw other at e) h)
  ]

  pub any-delete_where-false :
      (q p : A → Bool) (xs : List A) → any q xs ≡ false → any q (delete_where p xs) ≡ false
  unfolding delete_where
  any-delete_where-false q p [] h = refl
  any-delete_where-false q p (x ∷ xs) h = ground (arith, any-delete_where-false q p xs)

  -- A row that is updated passes a test that every updated row passes.
  pub any-update_where-hit :
      (q p : A → Bool) (f : A → A) (xs : List A)
      → All (λ x. p x ≡ true → q (f x) ≡ true) xs
      → count_where p xs ≡ 1
      → any q (update_where p f xs) ≡ true
  unfolding count_where update_where
  any-update_where-hit q p f [] h n = absurd (omega (arith, n))
  any-update_where-hit q p f (x ∷ xs) h n = elim (Bool-cases (p x)) [
    | inl e ↦ rw e (rw (h.0 e) refl)
    | inr e ↦
        let more : count_where p xs ≡ 1 = ground (arith, n, e) in
        rw e (ground (arith, any-update_where-hit q p f xs h.1 more))
  ]

  pub count-zero_of_All :
      (q : A → Bool) (xs : List A) → All (λ x. q x ≡ false) xs → count_where q xs ≡ 0
  unfolding count_where
  count-zero_of_All q [] h = refl
  count-zero_of_All q (x ∷ xs) h = ground (arith, h.0, count-zero_of_All q xs h.1)

  pub any-false_of_All : (q : A → Bool) (xs : List A) → All (λ x. q x ≡ false) xs → any q xs ≡ false
  any-false_of_All q [] h = refl
  any-false_of_All q (x ∷ xs) h = ground (arith, h.0, any-false_of_All q xs h.1)

  pub any-false_of_count : (q : A → Bool) (xs : List A) → count_where q xs ≡ 0 → any q xs ≡ false
  unfolding count_where
  any-false_of_count q [] h = refl
  any-false_of_count q (x ∷ xs) h = ground (arith, h, any-false_of_count q xs)

  pub any-update_where :
      (q p : A → Bool) (f : A → A)
      → ((x : A) → p x ≡ true → q (f x) ≡ q x)
      → (xs : List A) → any q (update_where p f xs) ≡ any q xs
  unfolding update_where
  any-update_where q p f h [] = refl
  any-update_where q p f h (x ∷ xs) = ground (arith, h x, any-update_where q p f h xs)

  -- A deletion of rows that do not pass `q` leaves one that does.
  pub any-delete_where-kept :
      (q p : A → Bool) (xs : List A)
      → any (λ x. p x && q x) xs ≡ false
      → any q xs ≡ true
      → any q (delete_where p xs) ≡ true
  unfolding delete_where
  any-delete_where-kept q p [] k h = h
  any-delete_where-kept q p (x ∷ xs) k h = elim (Bool-cases (p x)) [
    | inr e ↦ ground (arith, h, k, e, any-delete_where-kept q p xs)
    | inl e ↦ elim (Bool-cases (q x)) [
      | inl f ↦ cc (rw (e, f) at k)
      | inr f ↦ rw e (any-delete_where-kept q p xs (rw (e, f) at k) (rw f at h))
    ]
  ]

  pub any-update_where-true :
      (q p : A → Bool) (f : A → A)
      → ((x : A) → q x ≡ true → q (f x) ≡ true)
      → (xs : List A) → any q xs ≡ true
      → any q (update_where p f xs) ≡ true
  unfolding update_where
  any-update_where-true q p f h [] k = k
  any-update_where-true q p f h (x ∷ xs) k =
      ground (arith, h x, k, any-update_where-true q p f h xs)
