-- ===== src/Service/Undone.antt =====
-- An action that changes nothing when it refuses, by its steps.
use secure_store_backend.Prelude.{◌≡◌, refl, Bool, true, false, Option, none, some}
use secure_store_backend.Service.{failed, Action, answer, ask, ◌>>=◌, refuse_if, given, branch}

-- When the action refuses on `w`, the tables after it are `w`.
pub record Undone {S E A : Type 0} (m : Action S E A) (w : S) : Type 0 where
  pub undone : (e : E) → (m w).0 ≡ failed e → (m w).1 ≡ w

module _ {S E A : Type 0} where
  pub answer-Undone : (a : A) (w : S) → Undone (answer {S = S} {E = E} a) w
  unfolding answer
  answer-Undone a w = record { undone = λ e h. refl }

  pub ask-Undone :
      {B : Type 0} (q : S → B) (f : B → Action S E A) (w : S)
      → Undone (f (q w)) w
      → Undone (ask q >>= f) w
  unfolding ask
  ask-Undone q f w h = record { undone = h.undone }

  pub refuse_if-Undone :
      (b : Bool) (e : E) (f : Unit {0} → Action S E A) (w : S)
      → (b ≡ false → Undone (f tt) w)
      → Undone (refuse_if b e >>= f) w
  unfolding refuse_if
  refuse_if-Undone true e f w h = record { undone = λ x same. refl }
  refuse_if-Undone false e f w h = record { undone = (h refl).undone }

  pub given-Undone :
      {B : Type 0} (o : Option B) (e : E) (f : B → Action S E A) (w : S)
      → ((b : B) → o ≡ some b → Undone (f b) w)
      → Undone (given o e >>= f) w
  unfolding given
  given-Undone none e f w h = record { undone = λ x same. refl }
  given-Undone (some b) e f w h = record { undone = (h b refl).undone }

  pub branch-Undone :
      (b : Bool) (m n : Action S E A) (w : S) → Undone m w → Undone n w → Undone (branch b m n) w
  unfolding branch
  branch-Undone true m n w hm hn = record { undone = hm.undone }
  branch-Undone false m n w hm hn = record { undone = hn.undone }
