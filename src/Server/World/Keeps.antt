-- ===== src/Server/World/Keeps.antt =====
-- Which calls an action of the server adds, and what an action that returns has run.
use vynil.Prelude.{Bool, true, false, Option, ◌≡◌, refl, any, if◌then◌else◌, arith}
use vynil.Server.{DiagError}
use vynil.Server.World.{
  Call, History, Outcome, ok, err, Diag, pure, fail, require, ask, get, continue, ◌>>=◌,
}

-- None of these calls.
abbrev pub IsFree : (Call → Bool) → History → Type 0
IsFree sort h = any sort h ≡ false

-- An action that makes no call of the sort.
pub record Avoids {ℓ} {A : Type ℓ} (sort : Call → Bool) (m : Diag A) : Type 0 where
  pub at : (h : History) → IsFree sort h → IsFree sort (m h).1

module _ {ℓ} {A : Type ℓ} (sort : Call → Bool) where
  pub Avoids-pure : (a : A) → Avoids sort (pure a)
  unfolding pure
  Avoids-pure a = record { at = λ h free. free }

  pub Avoids-fail : (e : DiagError) → Avoids sort (fail {A = A} e)
  unfolding fail
  Avoids-fail e = record { at = λ h free. free }

  pub Avoids-require : (e : DiagError) (o : Option A) → Avoids sort (require e o)
  unfolding require
  Avoids-require e o = record { at = λ h free. free }

  pub Avoids-ask : (c : Call) (answer : History → A) → sort c ≡ false → Avoids sort (ask c answer)
  unfolding ask
  Avoids-ask c answer other = record { at = λ h free. ground arith }

  pub Avoids-get :
      (c : Call) (answer : History → Option A) → sort c ≡ false → Avoids sort (get c answer)
  unfolding get
  Avoids-get c answer other = record { at = λ h free. ground arith }

  pub Avoids-if :
      (test : Bool) (m n : Diag A)
      → Avoids sort m
      → Avoids sort n
      → Avoids sort (if test then m else n)
  Avoids-if true m n km kn = km
  Avoids-if false m n km kn = kn

module _ {ℓ κ} {A : Type ℓ} {B : Type κ} (sort : Call → Bool) where
  Avoids-continue :
      (r : Outcome A) (f : A → Diag B) (h : History)
      → ((a : A) → Avoids sort (f a))
      → IsFree sort h
      → IsFree sort (continue r f h).1
  Avoids-continue (ok a) f h kf free = (kf a).at h free
  Avoids-continue (err e) f h kf free = free

  pub Avoids-bind :
      (m : Diag A) (f : A → Diag B)
      → Avoids sort m
      → ((a : A) → Avoids sort (f a))
      → Avoids sort (m >>= f)
  unfolding ◌>>=◌
  Avoids-bind m f km kf = record {
    at = λ h free. let (r, h') = m h in Avoids-continue r f h' kf (km.at h free);
  }

  -- A call of the sort behind a part that avoids it: the part has returned.
  reached-continue :
      (r : Outcome A) (f : A → Diag B) (h : History)
      → IsFree sort h
      → any sort (continue r f h).1 ≡ true
      → (a : A) × (r ≡ ok a) × (any sort (f a h).1 ≡ true)
  reached-continue (ok a) f h free reached = (a, refl, reached)
  reached-continue (err e) f h free reached = cc

  pub reached-bind :
      (m : Diag A) (f : A → Diag B) (h : History)
      → Avoids sort m
      → IsFree sort h
      → any sort ((m >>= f) h).1 ≡ true
      → (a : A) × ((m h).0 ≡ ok a) × IsFree sort (m h).1 × (any sort (f a (m h).1).1 ≡ true)
  unfolding ◌>>=◌
  reached-bind m f h avoids free reached =
      let free' = avoids.at h free in
      let (a, returned, later) = reached-continue (m h).0 f (m h).1 free' reached in
      (a, returned, free', later)

module _ {ℓ κ} {A : Type ℓ} {B : Type κ} where
  returns-continue :
      (r : Outcome A) (f : A → Diag B) (h : History) (b : B)
      → (continue r f h).0 ≡ ok b
      → (a : A) × (r ≡ ok a) × ((f a h).0 ≡ ok b)
  returns-continue (ok a) f h b returned = (a, refl, returned)
  returns-continue (err e) f h b returned = cc

  -- A bind that returned ran both of its parts.
  pub returns-bind :
      (m : Diag A) (f : A → Diag B) (h : History) (b : B)
      → ((m >>= f) h).0 ≡ ok b
      → (a : A) × ((m h).0 ≡ ok a) × ((f a (m h).1).0 ≡ ok b)
  unfolding ◌>>=◌
  returns-bind m f h b returned = returns-continue (m h).0 f (m h).1 b returned

module _ {ℓ} {A : Type ℓ} (sort : Call → Bool) where
  -- A call behind a guard that fails: the guard has let it through.
  pub reached-unless :
      (test : Bool) (e : DiagError) (m : Diag A) (h : History)
      → IsFree sort h
      → any sort ((if test then fail e else m) h).1 ≡ true
      → (test ≡ false) × (any sort (m h).1 ≡ true)
  unfolding fail
  reached-unless true e m h free reached = cc
  reached-unless false e m h free reached = (refl, reached)

pub ruleset avoid_rules =
    (Avoids-pure, Avoids-fail, Avoids-require, Avoids-ask, Avoids-get, Avoids-if, Avoids-bind)
