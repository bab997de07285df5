-- ===== src/Service/Keeps.antt =====
-- What an action keeps of the tables, by its steps.
use secure_store_backend.Prelude.{Bool, true, false, Option, none, some}
use secure_store_backend.Service.{
  Outcome, done, failed, Action, answer, refuse, ask, write, resume, ◌>>=◌, refuse_if, given,
  branch, atomically, restore,
}

-- An action keeps a property of the tables.
pub record Keeps {S E A : Type 0} (P : S → Type 0) (m : Action S E A) : Type 0 where
  pub kept : (w : S) → P w → P (m w).1

module _ {S E : Type 0} (P : S → Type 0) where
  resume_keeps :
      {A B : Type 0} (r : Outcome E A) (f : A → Action S E B) (w : S)
      → ((a : A) → Keeps P (f a))
      → P w
      → P (resume r f w).1
  resume_keeps (done a) f w h p = (h a).kept w p
  resume_keeps (failed e) f w h p = p

  pub bind-Keeps :
      {A B : Type 0} (m : Action S E A) (f : A → Action S E B)
      → Keeps P m
      → ((a : A) → Keeps P (f a))
      → Keeps P (m >>= f)
  bind-Keeps m f hm hf = record { kept = λ w p. resume_keeps (m w).0 f (m w).1 hf (hm.kept w p) }

  pub refuse_if-Keeps : (b : Bool) (e : E) → Keeps P (refuse_if b e)
  unfolding refuse_if
  refuse_if-Keeps true e = record { kept = λ w p. p }
  refuse_if-Keeps false e = record { kept = λ w p. p }

  pub given-Keeps : {A : Type 0} (o : Option A) (e : E) → Keeps P (given {S = S} o e)
  unfolding given
  given-Keeps none e = record { kept = λ w p. p }
  given-Keeps (some a) e = record { kept = λ w p. p }

  pub ask-Keeps : {A : Type 0} (f : S → A) → Keeps P (ask {S = S} {E = E} f)
  unfolding ask
  ask-Keeps f = record { kept = λ w p. p }

  pub answer-Keeps : {A : Type 0} (a : A) → Keeps P (answer {S = S} {E = E} a)
  unfolding answer
  answer-Keeps a = record { kept = λ w p. p }

  pub refuse-Keeps : {A : Type 0} (e : E) → Keeps P (refuse {S = S} {E = E} {A = A} e)
  unfolding refuse
  refuse-Keeps e = record { kept = λ w p. p }

  pub write-Keeps : (f : S → S) → ((w : S) → P w → P (f w)) → Keeps P (write {S = S} {E = E} f)
  unfolding write
  write-Keeps f h = record { kept = h }

  pub branch-Keeps :
      {A : Type 0} (b : Bool) (m n : Action S E A) → Keeps P m → Keeps P n → Keeps P (branch b m n)
  unfolding branch
  branch-Keeps true m n hm hn = hm
  branch-Keeps false m n hm hn = hn

  restore_keeps :
      {A : Type 0} (before : S) (p : Outcome E A × S) → P before → P p.1 → P (restore before p).1
  restore_keeps before (done a, after) hb ha = ha
  restore_keeps before (failed e, after) hb ha = hb

  pub atomically-Keeps : {A : Type 0} (m : Action S E A) → Keeps P m → Keeps P (atomically m)
  unfolding atomically
  atomically-Keeps m h = record { kept = λ w p. restore_keeps w (m w) p (h.kept w p) }
