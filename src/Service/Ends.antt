-- ===== src/Service/Ends.antt =====
-- The tables that an action leaves, whether it succeeds or refuses, by its steps.
use secure_store_backend.Prelude.{◌≡◌, refl, Bool, true, false, Option, none, some}
use secure_store_backend.Service.{
  Outcome, done, failed, Action, answer, refuse, ask, write, resume, ◌>>=◌, refuse_if, given,
  branch,
}
use secure_store_backend.Service.Keeps.{Keeps}

-- Run on `w`, the action leaves tables that satisfy `P`.
pub record Ends {S E A : Type 0} (P : S → Type 0) (m : Action S E A) (w : S) : Type 0 where
  pub ends : P (m w).1

module _ {S E A : Type 0} {P : S → Type 0} where
  pub answer-Ends : (a : A) (w : S) → P w → Ends P (answer {E = E} a) w
  unfolding answer
  answer-Ends a w h = record { ends = h }

  pub refuse-Ends : (e : E) (w : S) → P w → Ends P (refuse {A = A} e) w
  unfolding refuse
  refuse-Ends e w h = record { ends = h }

  pub ask-Ends :
      {B : Type 0} (q : S → B) (f : B → Action S E A) (w : S)
      → Ends P (f (q w)) w
      → Ends P (ask q >>= f) w
  unfolding ask
  ask-Ends q f w h = record { ends = h.ends }

  pub write-Ends :
      (g : S → S) (f : Unit {0} → Action S E A) (w : S)
      → Ends P (f tt) (g w)
      → Ends P (write g >>= f) w
  unfolding write
  write-Ends g f w h = record { ends = h.ends }

  pub refuse_if-Ends :
      (b : Bool) (e : E) (f : Unit {0} → Action S E A) (w : S)
      → P w
      → (b ≡ false → Ends P (f tt) w)
      → Ends P (refuse_if b e >>= f) w
  unfolding refuse_if
  refuse_if-Ends true e f w p h = record { ends = p }
  refuse_if-Ends false e f w p h = record { ends = (h refl).ends }

  pub given-Ends :
      {B : Type 0} (o : Option B) (e : E) (f : B → Action S E A) (w : S)
      → P w
      → ((b : B) → o ≡ some b → Ends P (f b) w)
      → Ends P (given o e >>= f) w
  unfolding given
  given-Ends none e f w p h = record { ends = p }
  given-Ends (some b) e f w p h = record { ends = (h b refl).ends }

  pub branch-Ends :
      (b : Bool) (m n : Action S E A) (w : S)
      → (b ≡ true → Ends P m w)
      → (b ≡ false → Ends P n w)
      → Ends P (branch b m n) w
  unfolding branch
  branch-Ends true m n w hm hn = hm refl
  branch-Ends false m n w hm hn = hn refl

  go_on :
      {B : Type 0} (r : Outcome E B) (f : B → Action S E A) (d : S)
      → P d
      → ((b : B) → r ≡ done b → Ends P (f b) d)
      → P (resume r f d).1
  go_on (done b) f d p h = (h b refl).ends
  go_on (failed e) f d p h = p

  pub step-Ends :
      {B : Type 0} (m : Action S E B) (f : B → Action S E A) (w : S)
      → Ends P m w
      → ((b : B) → (m w).0 ≡ done b → P (m w).1 → Ends P (f b) (m w).1)
      → Ends P (m >>= f) w
  step-Ends m f w hm hf = record { ends = go_on (m w).0 f (m w).1 hm.ends (λ b e. hf b e hm.ends) }

-- The last step.
pub last_write-Ends :
    {S E : Type 0} {P : S → Type 0} (g : S → S) (w : S) → P (g w) → Ends P (write {E = E} g) w
unfolding write
last_write-Ends g w h = record { ends = h }

pub last_refuse_if-Ends :
    {S E : Type 0} {P : S → Type 0} (b : Bool) (e : E) (w : S) → P w → Ends P (refuse_if b e) w
unfolding refuse_if
last_refuse_if-Ends true e w h = record { ends = h }
last_refuse_if-Ends false e w h = record { ends = h }

-- An action that ends in `P` wherever it begins in `P` keeps it.
pub from_everywhere :
    {S E A : Type 0} {P : S → Type 0} (m : Action S E A) → ((w : S) → P w → Ends P m w) → Keeps P m
from_everywhere m h = record { kept = λ w p. (h w p).ends }

-- and conversely
pub by-Keeps :
    {S E A : Type 0} {P : S → Type 0} (m : Action S E A) (w : S) → Keeps P m → P w → Ends P m w
by-Keeps m w k p = record { ends = k.kept w p }
