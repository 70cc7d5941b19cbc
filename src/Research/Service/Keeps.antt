-- ===== src/Research/Service/Keeps.antt =====
-- Steps over the plane and the store (app/research/service.py) that keep a property of the plane:
-- how they compose.
use marketview.Research.Records.{FailureStage}
use marketview.Research.Service.Steps.{attempt}
use marketview.Base.Result.{Result, Result-cases}
use marketview.Research.Deadline.{Fault}
use marketview.Research.Vectors.{Entry}
use marketview.Research.Plane.State.{Action, Plane}
use marketview.Base.{
  ◌≡◌, refl, [], ◌∷◌, zero, suc, true, false, none, some, inl, inr, Bool, List, Option, arith,
  subst, sym, ℕ, if◌then◌else◌,
}
use marketview.Research.Service.Run.{
  lift, finally, ◌>>=◌, ◌>>◌, pure, gets, modify, Failure, Run, Step, handle, on_plane,
  on_plane_twice, on_store, throw, write_store, failing_at, calling,
}
pub mod Steps

-- A step that keeps a property of the plane.
unfoldable pub Keeps : {A : Type 0} → (Plane → Type 0) → Step A → Type 0
Keeps P f = (r : Run) → P r.plane → P (f r).1.plane

module _ (P : Plane → Type 0) where
  pub bind-Keeps :
      {A B : Type 0} (f : Step A) (k : A → Step B)
      → Keeps P f
      → ((a : A) → Keeps P (k a))
      → Keeps P (f >>= k)
  unfolding Keeps ◌>>=◌
  bind-Keeps f k h hk r i = elim (Result-cases (f r).0) [
    | inl (a, e) ↦ rw (e, ◌>>=◌) (hk a (f r).1 (h r i))
    | inr (x, e) ↦ rw (e, ◌>>=◌) (h r i)
  ]

  pub handle-Keeps :
      {A : Type 0} (f : Step A) (k : Failure → Step A)
      → Keeps P f
      → ((e : Failure) → Keeps P (k e))
      → Keeps P (handle f k)
  unfolding Keeps handle
  handle-Keeps f k h hk r i = elim (Result-cases (f r).0) [
    | inl (a, e) ↦ rw (e, handle) (h r i)
    | inr (x, e) ↦ rw (e, handle) (hk x (f r).1 (h r i))
  ]

  pub pure-Keeps : {A : Type 0} (a : A) → Keeps P (pure a)
  unfolding Keeps pure
  pure-Keeps a r i = i

  pub throw-Keeps : (A : Type 0) (e : Failure) → Keeps P (throw {A = A} e)
  unfolding Keeps throw
  throw-Keeps A e r i = i

  pub lift-Keeps : {A : Type 0} (x : Result Failure A) → Keeps P (lift x)
  unfolding Keeps lift
  lift-Keeps x r i = i

  pub calling-Keeps : {A : Type 0} (f : ℕ → Result Failure A) → Keeps P (calling f)
  unfolding Keeps calling
  calling-Keeps f r i = i

  pub gets-Keeps : {A : Type 0} (f : Run → A) → Keeps P (gets f)
  unfolding Keeps gets
  gets-Keeps f r i = i

  -- A change of the variables leaves the plane alone.
  pub modify-Keeps : (f : Run → Run) → ((r : Run) → (f r).plane ≡ r.plane) → Keeps P (modify f)
  unfolding Keeps modify
  modify-Keeps f h r i = subst P (sym (h r)) i

  pub failing_at-Keeps : (s : FailureStage) → Keeps P (failing_at s)
  unfolding failing_at
  failing_at-Keeps s = modify-Keeps _ (λ r. refl)

  pub finally-Keeps :
      {A : Type 0} (f : Step A) (k : Result Failure A → Step A)
      → Keeps P f
      → ((x : Result Failure A) → Keeps P (k x))
      → Keeps P (finally f k)
  unfolding Keeps finally
  finally-Keeps f k h hk r i = hk (f r).0 (f r).1 (h r i)

  pub attempt-Keeps : {A : Type 0} (f : Step A) → Keeps P f → Keeps P (attempt f)
  unfolding attempt
  attempt-Keeps f h =
      handle-Keeps _ _ (bind-Keeps _ _ h (λ a. pure-Keeps (some a))) (λ e. pure-Keeps none)

  pub option-Keeps :
      {A B : Type 0} (x : Option A) (f : Step B) (k : A → Step B)
      → Keeps P f
      → ((a : A) → Keeps P (k a))
      → Keeps P (elim x [ none ↦ f | some a ↦ k a ])
  option-Keeps none f k h hk = h
  option-Keeps (some a) f k h hk = hk a

  pub if-Keeps :
      {A : Type 0} (b : Bool) (f k : Step A) → Keeps P f → Keeps P k → Keeps P (if b then f else k)
  if-Keeps true f k h hk = h
  if-Keeps false f k h hk = hk

  pub on_plane-Keeps :
      {A : Type 0} (time : ℕ → ℕ) (f : ℕ → Action A)
      → ((now : ℕ) (p : Plane) → P p → P (f now p).1)
      → Keeps P (on_plane time f)
  unfolding Keeps on_plane
  on_plane-Keeps time f h r i = h _ _ i

  pub on_plane_twice-Keeps :
      {A : Type 0} (time : ℕ → ℕ) (f : ℕ → ℕ → Action A)
      → ((now now' : ℕ) (p : Plane) → P p → P (f now now' p).1)
      → Keeps P (on_plane_twice time f)
  unfolding Keeps on_plane_twice
  on_plane_twice-Keeps time f h r i = h _ _ _ i

  pub on_store-Keeps :
      {A : Type 0} (time : ℕ → ℕ) (f : ℕ → List Entry → Result Fault A) → Keeps P (on_store time f)
  unfolding Keeps on_store
  on_store-Keeps time f r i = i

  write_store-plane :
      (time : ℕ → ℕ) (f : ℕ → List Entry → Result Fault (List Entry)) (r : Run)
      → (write_store time f r).1.plane ≡ r.plane
  unfolding write_store
  write_store-plane time f r = ground arith

  pub write_store-Keeps :
      (time : ℕ → ℕ) (f : ℕ → List Entry → Result Fault (List Entry)) → Keeps P (write_store time f)
  unfolding Keeps
  write_store-Keeps time f r i = subst P (sym (write_store-plane time f r)) i
