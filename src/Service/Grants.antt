-- ===== src/Service/Grants.antt =====
-- What has happened when an action succeeds, by its steps.
use secure_store_backend.Prelude.{sym, ◌≡◌, refl, ap, Bool, true, false, Option, none, some}
use mathlib.Core.Path.{subst}
use secure_store_backend.Service.{
  Outcome, done, failed, Action, answer, refuse, ask, write, resume, ◌>>=◌, refuse_if, given,
  branch,
}

-- When the action succeeds from `w`, its result and the tables after it satisfy `Q`.
pub record Grants {S E A : Type 0} (Q : A → S → Type 0) (m : Action S E A) (w : S) : Type 0 where
  pub granted : (a : A) (after : S) → m w ≡ (done a, after) → Q a after

module _ {S E A : Type 0} {Q : A → S → Type 0} where
  pub answer-Grants : (a : A) (w : S) → Q a w → Grants Q (answer {S = S} {E = E} a) w
  unfolding answer
  answer-Grants a w h = record {
    granted = λ x after e.
        subst (λ (p : Outcome E A × S). elim p.0 [ done y ↦ Q y p.1 | failed _ ↦ Unit ]) e h;
  }

  pub refuse-Grants : (e : E) (w : S) → Grants Q (refuse {S = S} e) w
  unfolding refuse
  refuse-Grants e w = record { granted = λ x after same. cc }

  go_on :
      {B : Type 0} (r : Outcome E B) (f : B → Action S E A) (d : S)
      → ((b : B) → r ≡ done b → Grants Q (f b) d)
      → (a : A) (after : S) → resume r f d ≡ (done a, after)
      → Q a after
  go_on (done b) f d h a after e = (h b refl).granted a after e
  go_on (failed x) f d h a after e = cc

  -- The first step succeeds, and the rest goes on from where it left.
  pub bind-Grants :
      {B : Type 0} (m : Action S E B) (f : B → Action S E A) (w : S)
      → ((b : B) → (m w).0 ≡ done b → Grants Q (f b) (m w).1)
      → Grants Q (m >>= f) w
  bind-Grants m f w h = record { granted = go_on (m w).0 f (m w).1 h }

  pub ask-Grants :
      {B : Type 0} (q : S → B) (f : B → Action S E A) (w : S)
      → Grants Q (f (q w)) w
      → Grants Q (ask q >>= f) w
  unfolding ask
  ask-Grants q f w h = record { granted = h.granted }

  pub write-Grants :
      (g : S → S) (f : Unit {0} → Action S E A) (w : S)
      → Grants Q (f tt) (g w)
      → Grants Q (write g >>= f) w
  unfolding write
  write-Grants g f w h = record { granted = h.granted }

  pub refuse_if-Grants :
      (b : Bool) (e : E) (f : Unit {0} → Action S E A) (w : S)
      → (b ≡ false → Grants Q (f tt) w)
      → Grants Q (refuse_if b e >>= f) w
  unfolding refuse_if
  refuse_if-Grants true e f w h = record { granted = λ x after same. cc }
  refuse_if-Grants false e f w h = record { granted = (h refl).granted }

  pub given-Grants :
      {B : Type 0} (o : Option B) (e : E) (f : B → Action S E A) (w : S)
      → ((b : B) → o ≡ some b → Grants Q (f b) w)
      → Grants Q (given o e >>= f) w
  unfolding given
  given-Grants none e f w h = record { granted = λ x after same. cc }
  given-Grants (some b) e f w h = record { granted = (h b refl).granted }

  pub branch-Grants :
      (b : Bool) (m n : Action S E A) (w : S)
      → (b ≡ true → Grants Q m w)
      → (b ≡ false → Grants Q n w)
      → Grants Q (branch b m n) w
  unfolding branch
  branch-Grants true m n w hm hn = record { granted = (hm refl).granted }
  branch-Grants false m n w hm hn = record { granted = (hn refl).granted }

  -- An action that cannot succeed.
  pub never-Grants :
      {m : Action S E A} {w : S} → ((a : A) (after : S) → m w ≡ (done a, after) → ⊥) → Grants Q m w
  never-Grants h = record { granted = λ a after e. absurd (h a after e) }

-- The last step.
pub last_write-Grants :
    {S E : Type 0} {Q : Unit {0} → S → Type 0} (g : S → S) (w : S)
    → Q tt (g w)
    → Grants Q (write {E = E} g) w
unfolding write
last_write-Grants {S} {E} {Q} g w h = record {
  granted = λ x after e.
      subst (λ (p : Outcome E (Unit {0}) × S). elim p.0 [ done y ↦ Q y p.1 | failed _ ↦ Unit ]) e h;
}

pub last_refuse_if-Grants :
    {S E : Type 0} {Q : Unit {0} → S → Type 0} (b : Bool) (e : E) (w : S)
    → (b ≡ false → Q tt w)
    → Grants Q (refuse_if b e) w
unfolding refuse_if
last_refuse_if-Grants true e w h = record { granted = λ x after same. cc }
last_refuse_if-Grants {S} {E} {Q} false e w h = record {
  granted = λ x after same.
      subst (λ (p : Outcome E (Unit {0}) × S). elim p.0 [ done y ↦ Q y p.1 | failed _ ↦ Unit ]) same
        (h refl);
}

pub weaken-Grants :
    {S E A : Type 0} {Q R : A → S → Type 0} (m : Action S E A) (w : S)
    → ((a : A) (after : S) → Q a after → R a after)
    → Grants Q m w
    → Grants R m w
weaken-Grants m w h g = record { granted = λ a after e. h a after (g.granted a after e) }

-- The first step shows `P` of its result and its tables, and the rest goes on from them.
pub chain-Grants :
    {S E A B : Type 0} {P : B → S → Type 0} {Q : A → S → Type 0} (m : Action S E B)
    (f : B → Action S E A) (w : S)
    → Grants P m w
    → ((b : B) (w' : S) → P b w' → Grants Q (f b) w')
    → Grants Q (m >>= f) w
chain-Grants m f w g h =
    bind-Grants m f w λ b e. h b (m w).1 (g.granted b (m w).1 (ap (λ r. (r, (m w).1)) e))

-- A step that succeeded has shown what it grants.
pub succeeded :
    {S E A : Type 0} {Q : A → S → Type 0} (m : Action S E A) (w : S) (a : A)
    → Grants Q m w
    → (m w).0 ≡ done a
    → Q a (m w).1
succeeded m w a g e = g.granted a (m w).1 (ap (λ r. (r, (m w).1)) e)

-- A first step that only reads.
pub read-Grants :
    {S E A B : Type 0} {P : B → Type 0} {Q : A → S → Type 0} (m : Action S E B)
    (f : B → Action S E A) (w : S)
    → Grants (λ b after. (after ≡ w) × P b) m w
    → ((b : B) → P b → Grants Q (f b) w)
    → Grants Q (m >>= f) w
read-Grants {S} {E} {A} {B} {P} {Q} m f w g h =
    chain-Grants m f w g λ b w' seen. subst (λ z. Grants Q (f b) z) (sym seen.0) (h b seen.1)
