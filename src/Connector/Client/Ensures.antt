-- ===== src/Connector/Client/Ensures.antt =====
-- What holds of how a request ends, of a body that is collected, and of the headers that are checked.
use Prim.Native.String.{String}
use mirth_spool.Base.{
  ℕ, ◌+◌, ◌≤◌, ◌<◌, ◌≡◌, refl, Bool, true, false, not, ◌||◌, ◌⊎◌, none, List, [], ◌∷◌, ◌++◌, arith,
  ltb, length, length-append, Bool-cases, Option-cases, inl, inr, if◌then◌else◌,
}
use mirth_spool.Text.{utf16_length}
use mirth_spool.Connector.Errors.{Thrown, connector, other}
use mirth_spool.Connector.Client.{
  Headers, Stream, ended, chunk, fails, any_of, Outcome, responds, throws, unsettled, ◌>>=◌,
  collect, complete, bounded_compressed, put_all, put_header, has_line_break,
  forbidden_request_headers, request_headers,
}

-- What a response satisfies, and what is the case where no response and no error comes.
pub data Ensures {A : Type 0} (U : Type 0) (P : A → Type 0) : Outcome A → Type 0 where
  of_responds : (a : A) → P a → Ensures U P (responds a)
  of_throws : (e : Thrown) → Ensures U P (throws e)
  of_unsettled : U → Ensures U P unsettled

-- The bytes of a body, and whether it ends with an error.
unfoldable pub byte_count : Stream → ℕ
byte_count ended = 0
byte_count (chunk bytes rest) = length bytes + byte_count rest
byte_count (fails e) = 0

unfoldable pub is_failing : Stream → Bool
is_failing ended = false
is_failing (chunk bytes rest) = is_failing rest
is_failing (fails e) = true

pub complete-bounded_compressed :
    (limit count : ℕ) (s : Stream)
    → complete (bounded_compressed limit count s) ≡ none
    → (is_failing s ≡ true) ⊎ (limit < count + byte_count s)
unfolding complete bounded_compressed is_failing byte_count
complete-bounded_compressed limit count ended h = cc
complete-bounded_compressed limit count (fails e) h = inl refl
complete-bounded_compressed limit count (chunk bytes rest) h =
    elim (Bool-cases (ltb limit (count + length bytes))) [
      | inl big ↦ inr (ground (arith, big))
      | inr fits ↦
          let more = bounded_compressed limit (count + length bytes) rest in
          elim (Option-cases (complete more)) [
            | inr (cs, e) ↦ cc (rw (fits, complete, e) at h)
            | inl e ↦ elim (complete-bounded_compressed limit (count + length bytes) rest e) [
              | inl f ↦ inl f
              | inr long ↦ inr (omega (arith, long))
            ]
          ]
    ]

pub Ensures-bind :
    {A B U : Type 0} (P : A → Type 0) (Q : B → Type 0) (m : Outcome A) (f : A → Outcome B)
    → Ensures U P m
    → ((a : A) → P a → Ensures U Q (f a))
    → Ensures U Q (m >>= f)
Ensures-bind P Q m f (of_responds a p) k = k a p
Ensures-bind P Q m f (of_throws e) k = of_throws e
Ensures-bind P Q m f (of_unsettled u) k = of_unsettled u

pub Ensures-if :
    {A U : Type 0} (P : A → Type 0) (b : Bool) (e : Thrown) (m : Outcome A)
    → (b ≡ false → Ensures U P m)
    → Ensures U P (if b then throws e else m)
Ensures-if P true e m f = of_throws e
Ensures-if P false e m f = f refl

pub collect-bounded :
    {U : Type 0} (limit count : ℕ) (s : Stream)
    → count ≤ limit
    → Ensures U (λ body. count + length body ≤ limit) (collect limit count s)
unfolding collect
collect-bounded limit count ended h = of_responds [] (omega (arith, h))
collect-bounded limit count (chunk bytes rest) h =
    Ensures-if _ (ltb limit (count + length bytes)) _ _ λ fits.
      Ensures-bind (λ (tail : List ℕ). count + length bytes + length tail ≤ limit) _
        (collect limit (count + length bytes) rest) _
        (collect-bounded limit (count + length bytes) rest (ground (arith, fits)))
        λ tail p. of_responds (bytes ++ tail) (omega (arith, p, length-append bytes tail))
collect-bounded limit count (fails (connector e)) h = of_throws _
collect-bounded limit count (fails other) h = of_throws _

pub Ensures-weaken :
    {A U : Type 0} (P Q : A → Type 0) (m : Outcome A)
    → Ensures U P m
    → ((a : A) → P a → Q a)
    → Ensures U Q m
Ensures-weaken P Q m (of_responds a p) f = of_responds a (f a p)
Ensures-weaken P Q m (of_throws e) f = of_throws e
Ensures-weaken P Q m (of_unsettled u) f = of_unsettled u

-- Three tests, of which each may throw.
pub ladder :
    {A U : Type 0} (P : A → Type 0) (good typed long : Bool) (e f g : Thrown) (m : Outcome A)
    → (good ≡ true → Ensures U P m)
    → Ensures U P
        (if not good then throws e else if typed then throws f else if long then throws g else m)
ladder P false typed long e f g m k = of_throws e
ladder P true true long e f g m k = of_throws f
ladder P true false true e f g m k = of_throws g
ladder P true false false e f g m k = k refl

pub put_all-responds :
    (lower : String → String) (input result : Headers)
    → Ensures ⊥ (λ _. Unit {0}) (put_all lower input result)
unfolding put_all
put_all-responds lower [] result = of_responds result tt
put_all-responds lower ((raw, value) ∷ rest) result =
    Ensures-if _
      (any_of forbidden_request_headers (lower raw)
        || has_line_break (lower raw)
        || has_line_break value)
      _ _ λ fits. put_all-responds lower rest (put_header (lower raw) value result)

-- The headers of a request are checked with an error or a result.
pub request_headers-responds :
    (lower : String → String) (input : Headers) (user_agent : String)
    → Ensures ⊥ (λ _. Unit {0}) (request_headers lower input user_agent)
unfolding request_headers
request_headers-responds lower input user_agent =
    Ensures-if _
      (ltb (utf16_length user_agent) 1
        || ltb 500 (utf16_length user_agent)
        || has_line_break user_agent)
      _ _
      λ fits.
        Ensures-bind (λ _. Unit {0}) _ _ _ (put_all-responds lower input _)
          λ result u. of_responds (put_header "user-agent" user_agent result) tt
