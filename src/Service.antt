-- ===== src/Service.antt =====
-- What the services above the ledger share: an action on the tables of a service that returns a value or
-- refuses, and leaves the tables as they are then. Between two steps of an action nothing else runs; a
-- refusal does not undo what earlier steps wrote, as in the source, where only an explicit transaction
-- does.
pub mod Keeps
pub mod Grants
pub mod Ends
pub mod Rows
pub mod Evolves
pub mod Undone
use secure_store_backend.Prelude.{Bool, true, false, Option, none, some}

pub data Outcome (E A : Type 0) : Type 0 where
  done : A → Outcome E A
  failed : E → Outcome E A

-- tables `S`, refusals `E`, a result `A`
abbrev pub Action : Type 0 → Type 0 → Type 0 → Type 0
Action S E A = S → Outcome E A × S

unfoldable pub answer : {S E A : Type 0} → A → Action S E A
answer a w = (done a, w)

-- `throw e`
unfoldable pub refuse : {S E A : Type 0} → E → Action S E A
refuse e w = (failed e, w)

-- a query
unfoldable pub ask : {S E A : Type 0} → (S → A) → Action S E A
ask f w = (done (f w), w)

-- a write that cannot fail
unfoldable pub write : {S E : Type 0} → (S → S) → Action S E (Unit {0})
write f w = (done tt, f w)

abbrev pub resume : {S E A B : Type 0} → Outcome E A → (A → Action S E B) → Action S E B
resume (done a) f w = f a w
resume (failed e) f w = (failed e, w)

infixl 5 ◌>>=◌ ◌>>◌
abbrev pub ◌>>=◌ : {S E A B : Type 0} → Action S E A → (A → Action S E B) → Action S E B
◌>>=◌ m f w = let (r, w') = m w in resume r f w'

abbrev pub ◌>>◌ : {S E A B : Type 0} → Action S E A → Action S E B → Action S E B
m >> k = m >>= λ _. k

-- `if (bad) throw e`
unfoldable pub refuse_if : {S E : Type 0} → Bool → E → Action S E (Unit {0})
refuse_if true e w = (failed e, w)
refuse_if false e w = (done tt, w)

-- a row, or the error of its absence
unfoldable pub given : {S E A : Type 0} → Option A → E → Action S E A
given none e w = (failed e, w)
given (some a) e w = (done a, w)

-- two ways to go on
unfoldable pub branch : {S E A : Type 0} → Bool → Action S E A → Action S E A → Action S E A
branch true m n = m
branch false m n = n

-- `$transaction`: a refusal restores the tables.
abbrev pub restore : {S E A : Type 0} → S → Outcome E A × S → Outcome E A × S
restore before (done a, after) = (done a, after)
restore before (failed e, after) = (failed e, before)

unfoldable pub atomically : {S E A : Type 0} → Action S E A → Action S E A
atomically m w = restore w (m w)
