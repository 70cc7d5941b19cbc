-- ===== src/Research/Service/Ensures.antt =====
-- Steps over the plane and the store (app/research/service.py) that return only where something holds
-- after them: how they compose.
use marketview.Research.Plane.State.{Plane}
use marketview.Research.Service.Keeps.{Keeps}
use marketview.Base.Result.{Result-cases, err, ok, Result}
use marketview.Base.{
  ◌≡◌, refl, true, false, none, some, inl, inr, Bool, Option, arith, subst, ◌∙◌, ◌≢◌, if◌then◌else◌,
}
use marketview.Research.Service.Run.{lift, finally, ◌>>=◌, pure, Failure, Run, Step, handle, throw}

-- From a state of the one kind, a step that returns leaves one of the other.
unfoldable pub Ensures : {A : Type 0} → (Run → Type 0) → Step A → (A → Run → Type 0) → Type 0
Ensures {A = A} I f Q = (r : Run) → I r → (a : A) → (f r).0 ≡ ok a → Q a (f r).1

pub ok-injective : {A : Type 0} (x : Result Failure A) (a b : A) → x ≡ ok a → x ≡ ok b → a ≡ b
ok-injective x a b h k = ground (arith, h, k)

pub err-ne-ok : {A : Type 0} (e : Failure) (a : A) → err e ≢ ok a
err-ne-ok e a h = ground arith

module _ {A B : Type 0} (I : Run → Type 0) (M : A → Run → Type 0) (Q : B → Run → Type 0) where
  pub bind-Ensures :
      (f : Step A) (k : A → Step B)
      → Ensures I f M
      → ((a : A) → Ensures (M a) (k a) Q)
      → Ensures I (f >>= k) Q
  unfolding Ensures ◌>>=◌
  bind-Ensures f k h hk r i b = elim (Result-cases (f r).0) [
    | inl (a, e) ↦ rw (e, ◌>>=◌) (hk a (f r).1 (h r i a e) b)
    | inr (x, e) ↦ rw (e, ◌>>=◌) (λ s. absurd (err-ne-ok _ _ s))
  ]

module _ {A : Type 0} (I : Run → Type 0) (Q : A → Run → Type 0) where
  pub handle-Ensures :
      (f : Step A) (k : Failure → Step A)
      → Ensures I f Q
      → ((e : Failure) → Ensures (λ r. Unit {0}) (k e) Q)
      → Ensures I (handle f k) Q
  unfolding Ensures handle
  handle-Ensures f k h hk r i b = elim (Result-cases (f r).0) [
    | inl (a, e) ↦ rw (e, handle) (λ s. h r i b (e ∙ s))
    | inr (x, e) ↦ rw (e, handle) (hk x (f r).1 tt b)
  ]

  pub pure-Ensures : (a : A) → ((r : Run) → I r → Q a r) → Ensures I (pure a) Q
  unfolding Ensures pure
  pure-Ensures a h r i b s = subst (λ x. Q x r) (ok-injective (ok a) a b refl s) (h r i)

  pub throw-Ensures : (e : Failure) → Ensures I (throw {A = A} e) Q
  unfolding Ensures throw
  throw-Ensures e r i b s = absurd (err-ne-ok _ _ s)

  pub if-Ensures :
      (b : Bool) (f k : Step A)
      → (b ≡ true → Ensures I f Q)
      → (b ≡ false → Ensures I k Q)
      → Ensures I (if b then f else k) Q
  if-Ensures true f k h hk = h refl
  if-Ensures false f k h hk = hk refl

module _ {A B : Type 0} (I : Run → Type 0) (Q : B → Run → Type 0) where
  pub option-Ensures :
      (x : Option A) (f : Step B) (k : A → Step B)
      → Ensures I f Q
      → ((a : A) → Ensures I (k a) Q)
      → Ensures I (elim x [ none ↦ f | some a ↦ k a ]) Q
  option-Ensures none f k h hk = h
  option-Ensures (some a) f k h hk = hk a

module _ {A : Type 0} where
  pub keep-Ensures :
      (P : Plane → Type 0) (f : Step A) → Keeps P f → Ensures (λ r. P r.plane) f (λ a r. P r.plane)
  unfolding Ensures Keeps
  keep-Ensures P f h r i a e = h r i

  -- What holds of no state in particular stays.
  pub still-Ensures : (C : Type 0) (f : Step A) → Ensures (λ r. C) f (λ a r. C)
  unfolding Ensures
  still-Ensures C f r i a e = i

module _ {A : Type 0} (I : Run → Type 0) where
  pub lift-Ensures : (x : Result Failure A) → Ensures I (lift x) (λ a r. x ≡ ok a)
  unfolding Ensures lift
  lift-Ensures x r i a e = e

  pub both-Ensures :
      (f : Step A) (Q Q' : A → Run → Type 0)
      → Ensures I f Q
      → Ensures I f Q'
      → Ensures I f (λ a r. Q a r × Q' a r)
  unfolding Ensures
  both-Ensures f Q Q' h h' r i a e = (h r i a e, h' r i a e)

  pub weaken-Ensures :
      (I' : Run → Type 0) (f : Step A) (Q Q' : A → Run → Type 0)
      → ((r : Run) → I' r → I r)
      → ((a : A) (r : Run) → Q a r → Q' a r)
      → Ensures I f Q
      → Ensures I' f Q'
  unfolding Ensures
  weaken-Ensures I' f Q Q' pre post h r i a e = post a (f r).1 (h r (pre r i) a e)

  pub finally-Ensures :
      (f : Step A) (k : Result Failure A → Step A) (Q Q' : A → Run → Type 0)
      → Ensures I f Q
      → ((a : A) → Ensures (Q a) (k (ok a)) Q')
      → ((e : Failure) → Ensures (λ r. Unit {0}) (k (err e)) Q')
      → Ensures I (finally f k) Q'
  unfolding Ensures finally
  finally-Ensures f k Q Q' h hk he r i b = elim (Result-cases (f r).0) [
    | inl (a, e) ↦ rw (finally, e) (hk a (f r).1 (h r i a e) b)
    | inr (x, e) ↦ rw (finally, e) (he x (f r).1 tt b)
  ]

  -- A fact of no state in particular is at hand in the proof.
  pub given-Ensures :
      (C : Type 0) (f : Step A) (Q : A → Run → Type 0)
      → (C → Ensures I f Q)
      → Ensures (λ r. C × I r) f Q
  unfolding Ensures
  given-Ensures C f Q h r i = h i.0 r i.1
